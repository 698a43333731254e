-- ===== src/Availability/Manage/Disjoint.antt =====
-- The active rules of a mentor, which the checked use cases keep free of conflicts.
use upstride_api.Base.{
  ℕ, ◌≡◌, refl, sym, ◌∙◌, ap, subst, inl, inr, Bool, true, false, ◌&&◌, ◌||◌, some, List, [], ◌∷◌,
  ◌++◌, ◌==◌, any, All, All-ap, All-both, arith, Bool-cases,
}
use upstride_api.Store.{
  Availability, Day, day_number, has_day, find_key, update_key, key-find_key, availability_key,
}
use upstride_api.Availability.Conflict.{is_availability_conflict}

-- Two active rules of one mentor in conflict.
abbrev pub clash : Availability → Availability → Bool
clash a b = (a.mentor_id == b.mentor_id && (a.status && b.status)) && is_availability_conflict a b

abbrev pub IsApart : Availability → Availability → Type 0
IsApart a b = ((a.id == b.id) ≡ false) × (clash a b ≡ false)

-- No two rules have one id, and no two active rules of one mentor are in conflict.
abbrev pub ArePairwiseApart : List Availability → Type 0
ArePairwiseApart [] = Unit
ArePairwiseApart (a ∷ bs) = All (IsApart a) bs × ArePairwiseApart bs

pub ==_sym : (m n : ℕ) → (m == n) ≡ (n == m)
==_sym m n = ground arith

==-ne : (m n i : ℕ) → (m == i) ≡ true → (m == n) ≡ false → (n == i) ≡ false
==-ne m n i h k = ground arith

any-or {ℓ} :
    {A : Type ℓ} (p q : A → Bool) (xs : List A) → any (λ x. p x || q x) xs ≡ any p xs || any q xs
any-or p q [] = refl
any-or p q (x ∷ xs) = ground (arith, any-or p q xs)

any-false {ℓ} : {A : Type ℓ} (xs : List A) → any (λ x. false) xs ≡ false
any-false [] = refl
any-false (x ∷ xs) = any-false xs

any-ext {ℓ} :
    {A : Type ℓ} (p q : A → Bool) (xs : List A) → ((x : A) → p x ≡ q x) → any p xs ≡ any q xs
any-ext p q [] h = refl
any-ext p q (x ∷ xs) h = ground (arith, h x, any-ext p q xs h)

-- Sharing a day does not depend on the order.
any-has_day :
    (ds es : List Day)
    → any (λ d. has_day (day_number d) es) ds ≡ any (λ e. has_day (day_number e) ds) es
any-has_day [] es = sym (any-false es)
any-has_day (d ∷ ds) es =
    ap (λ b. has_day (day_number d) es || b) (any-has_day ds es)
    ∙ (sym (any-or (λ e. day_number e == day_number d) (λ e. has_day (day_number e) ds) es)
        ∙ any-ext _ _ es
            (λ e. ap (λ b. b || has_day (day_number e) ds) (==_sym (day_number e) (day_number d))))

is_availability_conflict-sym :
    (a b : Availability) → is_availability_conflict a b ≡ is_availability_conflict b a
unfolding is_availability_conflict
is_availability_conflict-sym a b = ground (arith, any-has_day a.days b.days)

pub IsApart-sym : (a b : Availability) → IsApart a b → IsApart b a
IsApart-sym a b h = ground (arith, is_availability_conflict-sym a b)

All-snoc {ℓ κ} :
    {A : Type ℓ} (P : A → Type κ) (xs : List A) (a : A) → All P xs → P a → All P (xs ++ a ∷ [])
All-snoc P [] a h p = (p, tt)
All-snoc P (x ∷ xs) a h p = (h.0, All-snoc P xs a h.1 p)

pub ArePairwiseApart-append :
    (xs : List Availability) (a : Availability)
    → All (λ x. IsApart x a) xs
    → ArePairwiseApart xs
    → ArePairwiseApart (xs ++ a ∷ [])
ArePairwiseApart-append [] a h p = (tt, tt)
ArePairwiseApart-append (x ∷ xs) a h p =
    (All-snoc (IsApart x) xs a p.0 h.0, ArePairwiseApart-append xs a h.1 p.1)

module _ (i : ℕ) (f : Availability → Availability) (a : Availability) where
  update_key-here :
      (x : Availability) (xs : List Availability)
      → (x.id == i) ≡ true
      → update_key availability_key i f (x ∷ xs) ≡ f x ∷ xs
  unfolding update_key
  update_key-here x xs same = ground arith

  update_key-there :
      (x : Availability) (xs : List Availability)
      → (x.id == i) ≡ false
      → update_key availability_key i f (x ∷ xs) ≡ x ∷ update_key availability_key i f xs
  unfolding update_key
  update_key-there x xs other = ground arith

  find_key-here :
      (x : Availability) (xs : List Availability)
      → (x.id == i) ≡ true
      → find_key availability_key i (x ∷ xs) ≡ some a
      → a ≡ x
  find_key-here x xs same e = ground arith

  find_key-there :
      (x : Availability) (xs : List Availability)
      → (x.id == i) ≡ false
      → find_key availability_key i (x ∷ xs) ≡ some a
      → find_key availability_key i xs ≡ some a
  find_key-there x xs other e = ground arith

  All-update_key :
      (P : Availability → Type 0) (xs : List Availability)
      → find_key availability_key i xs ≡ some a
      → P (f a)
      → All P xs
      → All P (update_key availability_key i f xs)
  unfolding update_key
  All-update_key P [] e p h = tt
  All-update_key P (x ∷ xs) e p h = elim (Bool-cases (x.id == i)) [
    | inl same ↦
        rw (update_key-here x xs same) (subst (λ y. P (f y)) (find_key-here x xs same e) p, h.1)
    | inr other ↦
        rw (update_key-there x xs other)
          (h.0, All-update_key P xs (find_key-there x xs other e) p h.1)
  ]

  -- Apart from the rule of the id, none is in conflict with what that is replaced by.
  abbrev pub IsOther : Availability → Type 0
  IsOther x = (x.id == i) ≡ false → clash (f a) x ≡ false

  pub ArePairwiseApart-update_key :
      (xs : List Availability)
      → ((x : Availability) → (f x).id ≡ x.id)
      → find_key availability_key i xs ≡ some a
      → All IsOther xs
      → ArePairwiseApart xs
      → ArePairwiseApart (update_key availability_key i f xs)
  unfolding update_key
  ArePairwiseApart-update_key [] k e o h = tt
  ArePairwiseApart-update_key (x ∷ xs) k e o h = elim (Bool-cases (x.id == i)) [
    | inl same ↦ rw (update_key-here x xs same) (
      All-ap (λ y. IsApart x y × IsOther y) (IsApart (f x)) xs
          (λ y p. (
            subst (λ n. (n == y.id) ≡ false) (sym (k x)) p.0.0,
            subst (λ z. clash (f z) y ≡ false) (find_key-here x xs same e)
                (p.1 (==-ne x.id y.id i same p.0.0)),
          ))
          (All-both (IsApart x) IsOther xs h.0 o.1),
      h.1,
    )
    | inr other ↦ rw (update_key-there x xs other) (
      All-update_key (IsApart x) xs (find_key-there x xs other e)
          (IsApart-sym (f a) x (
            subst (λ n. (n == x.id) ≡ false)
                (sym (k a ∙ key-find_key availability_key i xs a (find_key-there x xs other e)))
                (==_sym i x.id ∙ other),
            o.0 other,
          ))
          h.0,
      ArePairwiseApart-update_key xs k (find_key-there x xs other e) o.1 h.1,
    )
  ]
