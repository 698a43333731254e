-- ===== src/Article/Reactions.antt =====
-- react-to-article, react-to-article-comment and mark-article-view, with the repositories of reactions
-- and views.
use upstride_api.Base.{
  ℕ, suc, ◌+◌, ◌-◌, Bool, true, false, not, ◌&&◌, ◌||◌, Option, none, some, List, [], ◌∷◌, ◌++◌,
  find, ◌==◌, if◌then◌else◌, is_some,
}
use upstride_api.Store.{Error, Result, ok, err}
use upstride_api.Article.{
  Site, Article, ArticleComment, ArticleReaction, ArticleView, ArticleEvent, find_article,
  update_article, update_comment, active_article, active_comment, publish,
}

abbrev pub is_reaction : (resource_id user_id : ℕ) → ArticleReaction → Bool
is_reaction resource_id user_id r = r.resource_id == resource_id && r.user_id == user_id

-- `query`, of which the first is taken: the collection has one at most to a resource and a user.
abbrev pub query_reaction : (resource_id user_id : ℕ) → Site → Option ArticleReaction
query_reaction resource_id user_id s = find (is_reaction resource_id user_id) s.reactions

unfoldable pub delete_key : ℕ → List ArticleReaction → List ArticleReaction
delete_key i [] = []
delete_key i (r ∷ rs) = if r.id == i then rs else r ∷ delete_key i rs

unfoldable pub delete_reaction : ℕ → Site → Site
delete_reaction i s = record s { reactions = delete_key i s.reactions }

unfoldable pub create_reaction : (resource_id user_id : ℕ) → Site → ArticleReaction × Site
create_reaction resource_id user_id s =
    let r : ArticleReaction = record {
      id = s.next_id;
      resource_id = resource_id;
      user_id = user_id;
    } in
    (r, record s { reactions = s.reactions ++ r ∷ []; next_id = suc s.next_id })

abbrev pub with_likes : ℕ → Article → Article
with_likes n a = record a { likes_count = n }

abbrev pub with_comment_likes : ℕ → ArticleComment → ArticleComment
with_comment_likes n c = record c { likes_count = n }

-- A second like takes the first back.
unfoldable pub react_to_article :
    (user_id article_id : ℕ) → Site → Result (Option ArticleReaction) × Site
react_to_article user_id article_id s = elim (active_article article_id s) [
  | none ↦ (err Error.not_found, s)
  | some a ↦ elim (query_reaction article_id user_id s) [
    | some r ↦
        (ok none, update_article a.id (with_likes (a.likes_count - 1)) (delete_reaction r.id s))
    | none ↦
        let (r, t) = create_reaction article_id user_id s in
        (
          ok (some r),
          publish (ArticleEvent.reaction_created a.id user_id (a.likes_count + 1))
              (update_article a.id (with_likes (a.likes_count + 1)) t),
        )
  ]
]

unfoldable pub react_to_comment :
    (user_id comment_id : ℕ) → Site → Result (Option ArticleReaction) × Site
react_to_comment user_id comment_id s = elim (active_comment comment_id s) [
  | none ↦ (err Error.not_found, s)
  | some c ↦ elim (active_article c.article_id s) [
    | none ↦ (err Error.not_found, s)
    | some a ↦ elim (query_reaction comment_id user_id s) [
      | some r ↦ (
        ok none,
        update_comment c.id (with_comment_likes (c.likes_count - 1)) (delete_reaction r.id s),
      )
      | none ↦
          let (r, t) = create_reaction comment_id user_id s in
          (
            ok (some r),
            publish (ArticleEvent.comment_reaction_created a.id c.id user_id (c.likes_count + 1))
                (update_comment c.id (with_comment_likes (c.likes_count + 1)) t),
          )
    ]
  ]
]

abbrev pub is_view : (article_id user_id : ℕ) → ArticleView → Bool
is_view article_id user_id v = v.article_id == article_id && v.user_id == user_id

-- `upsert`: whether the view is new, and the views with it.
unfoldable pub upsert_view : (article_id user_id : ℕ) → Site → Bool × Site
upsert_view article_id user_id s =
    if is_some (find (is_view article_id user_id) s.views) then (false, s) else (
      true,
      record s { views = s.views ++ record { article_id = article_id; user_id = user_id } ∷ [] },
    )

abbrev pub with_views : ℕ → Article → Article
with_views n a = record a { views = n }

-- The author's own views, and those of an inactive article, are not counted.
unfoldable pub mark_article_view : (viewer_id article_id : ℕ) → Site → Result (Unit {0}) × Site
mark_article_view viewer_id article_id s = elim (find_article article_id s) [
  | none ↦ (err Error.not_found, s)
  | some a ↦
      if not a.is_active || a.author_id == viewer_id
      then (ok tt, s)
      else let (is_new, t) = upsert_view article_id viewer_id s in
        (ok tt, if is_new then update_article article_id (with_views (a.views + 1)) t else t)
]
