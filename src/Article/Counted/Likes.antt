-- ===== src/Article/Counted/Likes.antt =====
-- The reactions keep the counters in step.
use upstride_api.Base.{
  ℕ, suc, ◌+◌, ◌-◌, ◌≡◌, refl, sym, ap, ◌∙◌, Bool, true, false, none, some, List, [], ◌∷◌, ◌++◌,
  find, ◌==◌, ==_iff, if◌then◌else◌, inl, inr, Bool-cases, Option-cases, arith,
}
use upstride_api.Store.{key-find_key}
use upstride_api.Article.{
  Site, Article, ArticleComment, ArticleReaction, article_key, comment_key, find_article,
  find_comment, update_article, update_comment, active_article, active_comment, publish,
  ArticleEvent,
}
use upstride_api.Article.Reactions.{
  create_reaction, delete_reaction, delete_key, with_likes, with_comment_likes, query_reaction,
  is_reaction, react_to_article, react_to_comment,
}
use upstride_api.Article.Counts.{tally, tally-delete_key, AreIdsDistinct-delete_key, any-delete_key}
use upstride_api.Article.Counted.{of_resource, IsUnused, IsCounted}
use upstride_api.Article.Counted.Steps.{
  liked_by-distinct, liked_by-IsUnused, tally-liked_by, tally-liked_by_ne, relike-AreCounted,
  relike_comment-AreCounted, counted_at, liked_at, eq-none, eq-none_comment, IsUnused-later,
}

pub find-active_article :
    (j : ℕ) (s : Site) (a : Article)
    → active_article j s ≡ some a
    → (find_article j s ≡ some a) × ((a.is_active ≡ true) × (a.id ≡ j))
find-active_article j s a h =
    let found : find_article j s ≡ some a = ground (arith, Option-cases (find_article j s)) in
    (found, (ground arith, key-find_key article_key j s.articles a found))

pub find-active_comment :
    (j : ℕ) (s : Site) (c : ArticleComment)
    → active_comment j s ≡ some c
    → (find_comment j s ≡ some c) × ((c.is_active ≡ true) × (c.id ≡ j))
find-active_comment j s c h =
    let found : find_comment j s ≡ some c = ground (arith, Option-cases (find_comment j s)) in
    (found, (ground arith, key-find_key comment_key j s.comments c found))

find-test :
    (p : ArticleReaction → Bool) (rs : List ArticleReaction) (r : ArticleReaction)
    → find p rs ≡ some r
    → p r ≡ true
find-test p [] r h = absurd (ground arith)
find-test p (x ∷ rs) r h = elim (Bool-cases (p x)) [
  | inl t ↦ ground arith
  | inr n ↦ find-test p rs r (ground arith)
]

module _ (s : Site) (h : IsCounted s) (j user : ℕ) where
  -- A like that is taken back.
  module _ (r : ArticleReaction) (q : query_reaction j user s ≡ some r) where
    resource_is : (r.resource_id == j) ≡ true
    resource_is = ground (arith, find-test (is_reaction j user) s.reactions r q)

    tally-without :
        (i : ℕ)
        → tally (of_resource i) (delete_key r.id s.reactions)
            + (if r.resource_id == i then 1 else 0)
          ≡ tally (of_resource i) s.reactions
    tally-without i =
        tally-delete_key (of_resource i) (is_reaction j user) s.reactions r h.distinct q

    tally-without_ne :
        (i : ℕ)
        → (j == i) ≡ false
        → tally (of_resource i) (delete_key r.id s.reactions) ≡ tally (of_resource i) s.reactions
    tally-without_ne i n = ground (
      arith,
      tally-without i,
      resource_is,
      ==_iff r.resource_id j,
      ==_iff r.resource_id i,
      ==_iff j i,
    )

    tally-without_self :
        tally (of_resource j) (delete_key r.id s.reactions) ≡ tally (of_resource j) s.reactions - 1
    tally-without_self = ground (arith, tally-without j, resource_is)

    without-IsUnused :
        (m : ℕ)
        → IsUnused s.articles s.comments (delete_key r.id s.reactions) s.views (s.next_id + m)
    without-IsUnused m =
        let u = h.unused m in
        record {
          article = u.article;
          comment = u.comment;
          likes = ground (arith, tally-without (s.next_id + m), u.likes);
          active = u.active;
          viewed = u.viewed;
          reaction = any-delete_key (s.next_id + m) r.id s.reactions u.reaction;
        }

    unlike-IsCounted :
        (a : Article)
        → find_article j s ≡ some a
        → IsCounted (update_article j (with_likes (a.likes_count - 1)) (delete_reaction r.id s))
    unfolding delete_reaction
    unlike-IsCounted a found =
        relike-AreCounted s.articles s.comments s.reactions s.views s.next_id h j
          (a.likes_count - 1) s.next_id (delete_key r.id s.reactions)
          (tally-without_self
            ∙ ap (λ (m : ℕ). m - 1)
                (sym
                  (counted_at s.articles s.comments s.reactions s.views s.next_id h j j a found
                    refl).0))
          tally-without_ne (AreIdsDistinct-delete_key r.id s.reactions h.distinct) without-IsUnused
          a found

    unlike_comment-IsCounted :
        (c : ArticleComment)
        → find_comment j s ≡ some c
        → IsCounted
            (update_comment j (with_comment_likes (c.likes_count - 1)) (delete_reaction r.id s))
    unfolding delete_reaction
    unlike_comment-IsCounted c found =
        relike_comment-AreCounted s.articles s.comments s.reactions s.views s.next_id h j
          (c.likes_count - 1) s.next_id (delete_key r.id s.reactions)
          (tally-without_self
            ∙ ap (λ (m : ℕ). m - 1)
                (sym (
                  liked_at s.articles s.comments s.reactions s.views s.next_id h j j c found refl)))
          tally-without_ne (AreIdsDistinct-delete_key r.id s.reactions h.distinct) without-IsUnused
          c found

  like-IsCounted :
      (a : Article)
      → find_article j s ≡ some a
      → IsCounted (update_article j (with_likes (a.likes_count + 1)) (create_reaction j user s).1)
  unfolding create_reaction
  like-IsCounted a found =
      relike-AreCounted s.articles s.comments s.reactions s.views s.next_id h j (a.likes_count + 1)
        (suc s.next_id)
        (s.reactions ++ record { id = s.next_id; resource_id = j; user_id = user } ∷ [])
        (ground (
          arith,
          ==_iff j j,
          tally-liked_by s.articles s.comments s.reactions s.views s.next_id h j user j,
          counted_at s.articles s.comments s.reactions s.views s.next_id h j j a found refl,
        ))
        (tally-liked_by_ne s.articles s.comments s.reactions s.views s.next_id h j user)
        (liked_by-distinct s.articles s.comments s.reactions s.views s.next_id h j user)
        (λ m. liked_by-IsUnused s.articles s.comments s.reactions s.views s.next_id h j user m (
          eq-none (suc s.next_id + m) j s.articles a found
            (IsUnused-later s.articles s.comments s.reactions s.views s.next_id m
              h.unused).article))
        a found

  like_comment-IsCounted :
      (c : ArticleComment)
      → find_comment j s ≡ some c
      → IsCounted
          (update_comment j (with_comment_likes (c.likes_count + 1)) (create_reaction j user s).1)
  unfolding create_reaction
  like_comment-IsCounted c found =
      relike_comment-AreCounted s.articles s.comments s.reactions s.views s.next_id h j
        (c.likes_count + 1) (suc s.next_id)
        (s.reactions ++ record { id = s.next_id; resource_id = j; user_id = user } ∷ [])
        (ground (
          arith,
          ==_iff j j,
          tally-liked_by s.articles s.comments s.reactions s.views s.next_id h j user j,
          liked_at s.articles s.comments s.reactions s.views s.next_id h j j c found refl,
        ))
        (tally-liked_by_ne s.articles s.comments s.reactions s.views s.next_id h j user)
        (liked_by-distinct s.articles s.comments s.reactions s.views s.next_id h j user)
        (λ m. liked_by-IsUnused s.articles s.comments s.reactions s.views s.next_id h j user m (
          eq-none_comment (suc s.next_id + m) j s.comments c found
            (IsUnused-later s.articles s.comments s.reactions s.views s.next_id m
              h.unused).comment))
        c found

-- The collections that the counters are about, after each branch.
none_article :
    (user j : ℕ) (s : Site) → active_article j s ≡ none → (react_to_article user j s).1 ≡ s
unfolding react_to_article
none_article user j s n = ground arith

new_like :
    (user j : ℕ) (s : Site) (a : Article)
    → active_article j s ≡ some a
    → query_reaction j user s ≡ none
    → (react_to_article user j s).1
      ≡ publish
          (ArticleEvent.reaction_created a.id user (a.likes_count + 1))
          (update_article a.id (with_likes (a.likes_count + 1)) (create_reaction j user s).1)
unfolding react_to_article
new_like user j s a e q = ground arith

old_like :
    (user j : ℕ) (s : Site) (a : Article) (r : ArticleReaction)
    → active_article j s ≡ some a
    → query_reaction j user s ≡ some r
    → (react_to_article user j s).1
      ≡ update_article a.id (with_likes (a.likes_count - 1)) (delete_reaction r.id s)
unfolding react_to_article
old_like user j s a r e q = ground arith

no_comment : (user j : ℕ) (s : Site) → active_comment j s ≡ none → (react_to_comment user j s).1 ≡ s
unfolding react_to_comment
no_comment user j s n = ground arith

no_article :
    (user j : ℕ) (s : Site) (c : ArticleComment)
    → active_comment j s ≡ some c
    → active_article c.article_id s ≡ none
    → (react_to_comment user j s).1 ≡ s
unfolding react_to_comment
no_article user j s c e n = ground arith

new_comment_like :
    (user j : ℕ) (s : Site) (c : ArticleComment) (a : Article)
    → active_comment j s ≡ some c
    → active_article c.article_id s ≡ some a
    → query_reaction j user s ≡ none
    → (react_to_comment user j s).1
      ≡ publish (ArticleEvent.comment_reaction_created a.id c.id user (c.likes_count + 1)) (
          update_comment c.id (with_comment_likes (c.likes_count + 1)) (create_reaction j user s).1)
unfolding react_to_comment
new_comment_like user j s c a e f q = ground arith

old_comment_like :
    (user j : ℕ) (s : Site) (c : ArticleComment) (a : Article) (r : ArticleReaction)
    → active_comment j s ≡ some c
    → active_article c.article_id s ≡ some a
    → query_reaction j user s ≡ some r
    → (react_to_comment user j s).1
      ≡ update_comment c.id (with_comment_likes (c.likes_count - 1)) (delete_reaction r.id s)
unfolding react_to_comment
old_comment_like user j s c a r e f q = ground arith

pub react_to_article-IsCounted :
    (user j : ℕ) (s : Site) → IsCounted s → IsCounted (react_to_article user j s).1
react_to_article-IsCounted user j s h = elim (Option-cases (active_article j s)) [
  | inl n ↦ rw (none_article user j s n) h
  | inr (a, e) ↦
      let (found, (_, id)) = find-active_article j s a e in
      elim (Option-cases (query_reaction j user s)) [
        | inl q ↦ rw (new_like user j s a e q, id) (like-IsCounted s h j user a found)
        | inr (r, q) ↦ rw (old_like user j s a r e q, id) (unlike-IsCounted s h j user r q a found)
      ]
]

pub react_to_comment-IsCounted :
    (user j : ℕ) (s : Site) → IsCounted s → IsCounted (react_to_comment user j s).1
react_to_comment-IsCounted user j s h = elim (Option-cases (active_comment j s)) [
  | inl n ↦ rw (no_comment user j s n) h
  | inr (c, e) ↦
      let (found, (_, id)) = find-active_comment j s c e in
      elim (Option-cases (active_article c.article_id s)) [
        | inl n ↦ rw (no_article user j s c e n) h
        | inr (a, f) ↦ elim (Option-cases (query_reaction j user s)) [
          | inl q ↦
              rw (new_comment_like user j s c a e f q, id)
                (like_comment-IsCounted s h j user c found)
          | inr (r, q) ↦
              rw (old_comment_like user j s c a r e f q, id)
                (unlike_comment-IsCounted s h j user r q c found)
        ]
      ]
]
