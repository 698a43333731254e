-- ===== src/Article/Counts.antt =====
-- Counting the documents that satisfy a test, and what the writes do to the counts.
use upstride_api.Base.{
  ℕ, ◌+◌, ◌≡◌, refl, ap, Bool, true, false, ◌||◌, Option, none, some, List, [], ◌∷◌, ◌++◌, find,
  any, ◌==◌, ==_iff, if◌then◌else◌, inl, inr, Bool-cases, arith,
}
use upstride_api.Store.{find_key, update_key}
use upstride_api.Article.{ArticleReaction}
use upstride_api.Article.Reactions.{delete_key}

module _ {ℓ} {A : Type ℓ} where
  abbrev pub tally : (A → Bool) → List A → ℕ
  tally p [] = 0
  tally p (x ∷ xs) = (if p x then 1 else 0) + tally p xs

  pub tally-append :
      (p : A → Bool) (xs : List A) (x : A)
      → tally p (xs ++ x ∷ []) ≡ tally p xs + (if p x then 1 else 0)
  tally-append p [] x = omega arith
  tally-append p (y ∷ xs) x = rw (tally-append p xs x) (omega arith)

  pub any-append : (p : A → Bool) (xs : List A) (x : A) → any p (xs ++ x ∷ []) ≡ (any p xs || p x)
  any-append p [] x = ground arith
  any-append p (y ∷ xs) x = ground (arith, any-append p xs x)

  module _ (key : A → ℕ) where
    pub find_key-append :
        (i : ℕ) (xs : List A) (x : A)
        → find_key key i (xs ++ x ∷ []) ≡ elim (find_key key i xs) as (λ _. Option A) [
          | none ↦ if key x == i then some x else none
          | some y ↦ some y
        ]
    find_key-append i [] x = refl
    find_key-append i (y ∷ xs) x = elim (Bool-cases (key y == i)) [
      | inl t ↦ rw t refl
      | inr n ↦ rw n (find_key-append i xs x)
    ]

    pub find_key-update_none :
        (i j : ℕ) (f : A → A) (xs : List A)
        → ((x : A) → key (f x) ≡ key x)
        → find_key key i xs ≡ none
        → find_key key i (update_key key j f xs) ≡ none
    unfolding update_key
    find_key-update_none i j f [] k h = refl
    find_key-update_none i j f (x ∷ xs) k h = ground (arith, k x, find_key-update_none i j f xs k)

    -- Where a document is rewritten, only its own share of a count changes.
    pub tally-update :
        (p : A → Bool) (j : ℕ) (f : A → A) (xs : List A) (x : A)
        → find_key key j xs ≡ some x
        → tally p (update_key key j f xs) + (if p x then 1 else 0)
          ≡ tally p xs + (if p (f x) then 1 else 0)
    unfolding update_key
    tally-update p j f [] x h = absurd (ground arith)
    tally-update p j f (y ∷ xs) x h = elim (Bool-cases (key y == j)) [
      | inl t ↦ let e : y ≡ x = ground arith in rw (t, e) (omega arith)
      | inr n ↦ let rest = tally-update p j f xs x (ground arith) in rw n (omega (arith, rest))
    ]

    pub tally-update_same :
        (p : A → Bool) (j : ℕ) (f : A → A) (xs : List A)
        → ((x : A) → p (f x) ≡ p x)
        → tally p (update_key key j f xs) ≡ tally p xs
    unfolding update_key
    tally-update_same p j f [] k = refl
    tally-update_same p j f (x ∷ xs) k = elim (Bool-cases (key x == j)) [
      | inl t ↦ rw (t, k x) refl
      | inr n ↦ rw (n, tally-update_same p j f xs k) refl
    ]

abbrev pub has_id : ℕ → ArticleReaction → Bool
has_id i r = r.id == i

abbrev pub AreIdsDistinct : List ArticleReaction → Type 0
AreIdsDistinct [] = Unit
AreIdsDistinct (r ∷ rs) = (any (has_id r.id) rs ≡ false) × AreIdsDistinct rs

any-find :
    (p : ArticleReaction → Bool) (rs : List ArticleReaction) (r : ArticleReaction)
    → find p rs ≡ some r
    → any (has_id r.id) rs ≡ true
any-find p [] r h = absurd (ground arith)
any-find p (x ∷ rs) r h = elim (Bool-cases (p x)) [
  | inl t ↦ ground (arith, ==_iff x.id r.id)
  | inr n ↦ ground (arith, any-find p rs r)
]

-- A reaction that is found is deleted by its identifier, and no other.
pub tally-delete_key :
    (p q : ArticleReaction → Bool) (rs : List ArticleReaction) (r : ArticleReaction)
    → AreIdsDistinct rs
    → find q rs ≡ some r
    → tally p (delete_key r.id rs) + (if p r then 1 else 0) ≡ tally p rs
unfolding delete_key
tally-delete_key p q [] r d h = absurd (ground arith)
tally-delete_key p q (x ∷ rs) r d h = elim (Bool-cases (q x)) [
  | inl t ↦
      let e : x ≡ r = ground arith in
      let same : (x.id == r.id) ≡ true = ground (arith, ==_iff x.id r.id) in
      rw (same, e) (omega arith)
  | inr n ↦
      let found : find q rs ≡ some r = ground arith in
      let other : (x.id == r.id) ≡ false =
        ground
          (arith, ==_iff x.id r.id, any-find q rs r found, ap (λ (k : ℕ). any (has_id k) rs)) in
      rw other (omega (arith, tally-delete_key p q rs r d.1 found))
]

pub any-delete_key :
    (i j : ℕ) (rs : List ArticleReaction)
    → any (has_id i) rs ≡ false
    → any (has_id i) (delete_key j rs) ≡ false
unfolding delete_key
any-delete_key i j [] h = refl
any-delete_key i j (r ∷ rs) h = ground (arith, any-delete_key i j rs)

pub AreIdsDistinct-delete_key :
    (j : ℕ) (rs : List ArticleReaction) → AreIdsDistinct rs → AreIdsDistinct (delete_key j rs)
unfolding delete_key
AreIdsDistinct-delete_key j [] d = tt
AreIdsDistinct-delete_key j (r ∷ rs) d = elim (Bool-cases (r.id == j)) [
  | inl t ↦ rw t d.1
  | inr n ↦ rw n (any-delete_key r.id j rs d.0, AreIdsDistinct-delete_key j rs d.1)
]

pub AreIdsDistinct-append :
    (rs : List ArticleReaction) (r : ArticleReaction)
    → any (has_id r.id) rs ≡ false
    → AreIdsDistinct rs
    → AreIdsDistinct (rs ++ r ∷ [])
AreIdsDistinct-append [] r h d = (refl, tt)
AreIdsDistinct-append (x ∷ rs) r h d = (
  ground (arith, any-append (has_id x.id) rs r, ==_iff x.id r.id, ==_iff r.id x.id),
  AreIdsDistinct-append rs r (ground arith) d.1,
)
