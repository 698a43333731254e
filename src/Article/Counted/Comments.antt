-- ===== src/Article/Counted/Comments.antt =====
-- Each operation on views and comments keeps the counters in step.
use upstride_api.Base.{
  ℕ, zero, suc, ◌+◌, ◌≡◌, ◌⊎◌, refl, true, false, not, ◌||◌, Option, none, some, [], ◌∷◌, ◌++◌,
  find, length, ◌==◌, inl, inr, is_some, Bool-cases, Option-cases, arith,
}
use upstride_api.Store.{key-find_key}
use upstride_api.Article.{
  Site, Article, ArticleView, article_key, find_article, find_comment, update_article,
  update_comment, active_article, active_comment,
}
use upstride_api.Article.Reactions.{mark_article_view, upsert_view, is_view}
use upstride_api.Article.Comments.{
  CreateArticleCommentInput, check_parent, new_comment, create_comment_doc, with_replies,
  with_comments, count_reply, place_comment, create_comment, delete_comment,
}
use upstride_api.Article.Counted.{IsCounted}
use upstride_api.Article.Counted.Likes.{find-active_article, find-active_comment}
use upstride_api.Article.Counted.Writes.{view-AreCounted, rewrite_comment-AreCounted}
use upstride_api.Article.Counted.Operations.{Result-cases}
use upstride_api.Article.Counted.Discussion.{
  add_comment-AreCounted, delete_orphan-AreCounted, delete_comment-AreCounted,
}

-- A new view is counted once.
upsert_view_lem :
    (j viewer : ℕ) (s : Site)
    → ((upsert_view j viewer s).0 ≡ false) × ((upsert_view j viewer s).1 ≡ s)
      ⊎ ((upsert_view j viewer s).0 ≡ true)
        × ((upsert_view j viewer s).1
            ≡ record s { views = s.views ++ record { article_id = j; user_id = viewer } ∷ [] })
unfolding upsert_view
upsert_view_lem j viewer s = elim (Bool-cases (is_some (find (is_view j viewer) s.views))) [
  | inl t ↦ inl (rw t (refl, refl))
  | inr n ↦ inr (rw n (refl, refl))
]

pub mark_article_view-IsCounted :
    (viewer j : ℕ) (s : Site) → IsCounted s → IsCounted (mark_article_view viewer j s).1
unfolding mark_article_view
mark_article_view-IsCounted viewer j s h = elim (Option-cases (find_article j s)) [
  | inl n ↦ ground arith
  | inr (a, f) ↦
      let w : ArticleView = record { article_id = j; user_id = viewer } in
      let seen =
        view-AreCounted s.articles s.comments s.reactions s.views s.next_id h j w a f refl in
      elim (Bool-cases (not a.is_active || a.author_id == viewer)) [
        | inl t ↦ ground arith
        | inr x ↦ elim (upsert_view_lem j viewer s) [
          | inl (old, same) ↦ ground arith
          | inr (new, more) ↦ ground arith
        ]
      ]
]

count_reply-IsCounted :
    (fuel : ℕ) (i : Option ℕ) (s : Site) → IsCounted s → IsCounted (count_reply fuel i s)
unfolding count_reply
count_reply-IsCounted zero i s h = h
count_reply-IsCounted (suc fuel) none s h = h
count_reply-IsCounted (suc fuel) (some i) s h = elim (Option-cases (find_comment i s)) [
  | inl n ↦ ground arith
  | inr (c, f) ↦
      let t = update_comment i (with_replies (c.replies_count + 1)) s in
      let next : IsCounted t =
        rewrite_comment-AreCounted s.articles s.comments s.reactions s.views s.next_id h i
          (with_replies (c.replies_count + 1)) c f (λ x. refl) (λ x. refl) (λ j x. refl) in
      let rest : IsCounted (count_reply fuel c.parent_id t) =
        count_reply-IsCounted fuel c.parent_id t next in
      ground arith
]

place_comment-IsCounted :
    (input : CreateArticleCommentInput) (a : Article) (parent : Option ℕ) (s : Site)
    → find_article input.article_id s ≡ some a
    → IsCounted s
    → IsCounted (place_comment input a parent s)
unfolding place_comment create_comment_doc
place_comment-IsCounted input a parent s f h =
    let c = new_comment input parent s.next_id in
    let t =
      update_article input.article_id (with_comments (a.comments_count + 1))
        (create_comment_doc c s) in
    let added : IsCounted t =
      add_comment-AreCounted s.articles s.comments s.reactions s.views s.next_id h input.article_id
        c a f refl refl refl refl in
    count_reply-IsCounted (length t.comments) parent t added

pub create_comment-IsCounted :
    (input : CreateArticleCommentInput) (s : Site)
    → IsCounted s
    → IsCounted (create_comment input s).1
unfolding create_comment
create_comment-IsCounted input s h = elim (Option-cases (active_article input.article_id s)) [
  | inl n ↦ ground arith
  | inr (a, e) ↦ elim (Result-cases (check_parent input s)) [
    | inr (x, k) ↦ ground arith
    | inl (parent, k) ↦
        let placed =
          place_comment-IsCounted input a parent s (find-active_article input.article_id s a e).0
            h in
        ground arith
  ]
]

pub delete_comment-IsCounted :
    (user k : ℕ) (s : Site) → IsCounted s → IsCounted (delete_comment user k s).1
unfolding delete_comment
delete_comment-IsCounted user k s h = elim (Option-cases (active_comment k s)) [
  | inl n ↦ ground arith
  | inr (c, e) ↦
      let (found, (active, _)) = find-active_comment k s c e in
      elim (Bool-cases (c.user_id == user)) [
        | inr x ↦ ground arith
        | inl t ↦ elim (Option-cases (find_article c.article_id s)) [
          | inl n ↦
              let kept =
                delete_orphan-AreCounted s.articles s.comments s.reactions s.views s.next_id h k c
                  found active n in
              ground arith
          | inr (a, f) ↦
              let id : a.id ≡ c.article_id = key-find_key article_key c.article_id s.articles a f in
              let kept =
                delete_comment-AreCounted s.articles s.comments s.reactions s.views s.next_id h k c
                  found active a f in
              ground arith
        ]
      ]
]
