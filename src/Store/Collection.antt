-- ===== src/Store/Collection.antt =====
-- A collection is a list of documents, at most one to a key: `findById` and `findByIdAndUpdate`.
use upstride_api.Base.{
  ℕ, ◌≡◌, refl, ◌≢◌, Option, none, some, List, [], ◌∷◌, arith, ◌==◌, if◌then◌else◌,
}

module _ {ℓ} {A : Type ℓ} (key : A → ℕ) where
  abbrev pub find_key : ℕ → List A → Option A
  find_key i [] = none
  find_key i (x ∷ xs) = if key x == i then some x else find_key i xs

  unfoldable pub update_key : ℕ → (A → A) → List A → List A
  update_key i f [] = []
  update_key i f (x ∷ xs) = if key x == i then f x ∷ xs else x ∷ update_key i f xs

  pub find_key-update_self :
      (i : ℕ) (f : A → A) (xs : List A) (x : A)
      → find_key i xs ≡ some x
      → key (f x) ≡ i
      → find_key i (update_key i f xs) ≡ some (f x)
  unfolding update_key
  find_key-update_self i f [] x h k = ground arith
  find_key-update_self i f (y ∷ xs) x h k = ground (arith, find_key-update_self i f xs x)

  pub find_key-update_missing :
      (i : ℕ) (f : A → A) (xs : List A) → find_key i xs ≡ none → update_key i f xs ≡ xs
  unfolding update_key
  find_key-update_missing i f [] h = refl
  find_key-update_missing i f (y ∷ xs) h = ground (arith, find_key-update_missing i f xs)

  pub find_key-update_ne :
      (i j : ℕ) (f : A → A) (xs : List A)
      → ((x : A) → key (f x) ≡ key x)
      → i ≢ j
      → find_key j (update_key i f xs) ≡ find_key j xs
  unfolding update_key
  find_key-update_ne i j f [] h n = refl
  find_key-update_ne i j f (y ∷ xs) h n = ground (arith, find_key-update_ne i j f xs h n, h y)

  -- What is found has the key that was asked for.
  pub key-find_key : (i : ℕ) (xs : List A) (x : A) → find_key i xs ≡ some x → key x ≡ i
  key-find_key i [] x h = ground arith
  key-find_key i (y ∷ xs) x h = ground (arith, key-find_key i xs x)
