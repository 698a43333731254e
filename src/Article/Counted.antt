-- ===== src/Article/Counted.antt =====
-- The counters of articles and comments are in step with the collections.
pub mod Steps
pub mod Likes
pub mod Writes
pub mod Discussion
pub mod Operations
pub mod Comments
pub mod Reports
pub mod Served
use upstride_api.Base.{
  ℕ, suc, ◌+◌, ◌-◌, ◌≤◌, ◌≡◌, ◌≢◌, ◌⊎◌, refl, sym, ap, subst, ◌∙◌, Bool, true, false, ◌&&◌, ◌||◌,
  Option, none, some, List, [], ◌∷◌, ◌++◌, find, any, ◌==◌, ==_iff, if◌then◌else◌, inl, inr,
  Bool-cases, arith,
}
use native.Mathlib.Decide.{ℕ_discrete}
use upstride_api.Store.{
  find_key, update_key, find_key-update_self, find_key-update_ne, key-find_key,
}
use upstride_api.Article.{
  Site, Article, ArticleComment, ArticleReaction, ArticleView, article_key, comment_key,
  find_article, find_comment,
}
use upstride_api.Article.Counts.{tally, has_id, AreIdsDistinct}

abbrev pub of_resource : ℕ → ArticleReaction → Bool
of_resource i r = r.resource_id == i

abbrev pub is_active_of : ℕ → ArticleComment → Bool
is_active_of i c = c.article_id == i && c.is_active

abbrev pub of_article : ℕ → ArticleView → Bool
of_article i v = v.article_id == i

-- An article's counters are these, and it is not active while it is blocked.
abbrev pub CountedBy : (likes comments views : ℕ) → Option Article → Type 0
CountedBy likes comments views none = Unit
CountedBy likes comments views (some a) =
    (a.likes_count ≡ likes)
    × ((a.comments_count ≡ comments)
        × ((a.views ≡ views) × ((a.is_blocked_by_admin && a.is_active) ≡ false)))

abbrev pub LikedBy : (likes : ℕ) → Option ArticleComment → Type 0
LikedBy likes none = Unit
LikedBy likes (some c) = c.likes_count ≡ likes

module _ (articles : List Article) (comments : List ArticleComment)
    (reactions : List ArticleReaction) (views : List ArticleView) where
  -- Nothing has this identifier or refers to it.
  pub record IsUnused (i : ℕ) : Type 0 where
    pub article : find_key article_key i articles ≡ none
    pub comment : find_key comment_key i comments ≡ none
    pub likes : tally (of_resource i) reactions ≡ 0
    pub active : tally (is_active_of i) comments ≡ 0
    pub viewed : tally (of_article i) views ≡ 0
    pub reaction : any (has_id i) reactions ≡ false

  pub record AreCounted (next_id : ℕ) : Type 0 where
    pub counted :
        (i : ℕ)
        → CountedBy
            (tally (of_resource i) reactions)
            (tally (is_active_of i) comments)
            (tally (of_article i) views)
            (find_key article_key i articles)
    pub liked :
        (i : ℕ) → LikedBy (tally (of_resource i) reactions) (find_key comment_key i comments)
    pub apart :
        (i : ℕ)
        → (find_key article_key i articles ≡ none) ⊎ (find_key comment_key i comments ≡ none)
    pub distinct : AreIdsDistinct reactions
    pub unused : (n : ℕ) → IsUnused (next_id + n)

-- Every article's likes, comments and views are as many as its reactions, its active comments and its
-- viewers, every comment's likes as its reactions, and an article that is blocked is not active.
-- Identifiers are not used twice, and those to come are not used at all.
abbrev pub IsCounted : Site → Type 0
IsCounted s = AreCounted s.articles s.comments s.reactions s.views s.next_id

-- The counters after an article is rewritten.
pub CountedBy-update :
    (i j : ℕ) (f : Article → Article) (xs : List Article) (a : Article) (l c v : ℕ)
    → find_key article_key j xs ≡ some a
    → ((x : Article) → (f x).id ≡ x.id)
    → (i ≡ j → CountedBy l c v (some (f a)))
    → (i ≢ j → CountedBy l c v (find_key article_key i xs))
    → CountedBy l c v (find_key article_key i (update_key article_key j f xs))
CountedBy-update i j f xs a l c v h k here there = elim (ℕ_discrete i j) [
  | yes p ↦
      subst (λ m. CountedBy l c v (find_key article_key m (update_key article_key j f xs))) (sym p)
        (rw (find_key-update_self article_key j f xs a h (k a ∙ key-find_key article_key j xs a h))
          (here p))
  | no n ↦ rw (find_key-update_ne article_key j i f xs k (λ e. n (sym e))) (there n)
]

pub LikedBy-update :
    (i j : ℕ) (f : ArticleComment → ArticleComment) (xs : List ArticleComment) (x : ArticleComment)
    (l : ℕ)
    → find_key comment_key j xs ≡ some x
    → ((y : ArticleComment) → (f y).id ≡ y.id)
    → (i ≡ j → LikedBy l (some (f x)))
    → (i ≢ j → LikedBy l (find_key comment_key i xs))
    → LikedBy l (find_key comment_key i (update_key comment_key j f xs))
LikedBy-update i j f xs x l h k here there = elim (ℕ_discrete i j) [
  | yes p ↦
      subst (λ m. LikedBy l (find_key comment_key m (update_key comment_key j f xs))) (sym p)
        (rw (find_key-update_self comment_key j f xs x h (k x ∙ key-find_key comment_key j xs x h))
          (here p))
  | no n ↦ rw (find_key-update_ne comment_key j i f xs k (λ e. n (sym e))) (there n)
]
