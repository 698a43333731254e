-- ===== src/Cache/Keys.antt =====
-- The keys of a chain's entries.
use upstride_api.Base.{
  ℕ, suc, ◌≡◌, refl, sym, ap, subst, ◌∙◌, false, Option, none, some, [], ◌∷◌, ◌++◌, ◌==◌, ==_iff,
  inl, inr, arith, if◌then◌else◌, length, Bool-cases,
}
use upstride_api.Cache.{Ptr}
use upstride_api.Cache.Spec.{Entry, lookup, remove}
use upstride_api.Cache.Chain.{Cells, entries}

module _ {ℓ} {V : Type ℓ} where
  -- The node of a key.
  abbrev pub address : ℕ → Cells V → Option Ptr
  address k [] = none
  address k ((p, e) ∷ xs) = if e.key == k then some p else address k xs

  abbrev pub AreKeysDistinct : Cells V → Type 0
  AreKeysDistinct [] = Unit
  AreKeysDistinct ((p, e) ∷ xs) = (address e.key xs ≡ none) × AreKeysDistinct xs

  -- A cell with what stands before it and after it.
  pub record IsAt (k : ℕ) (p : Ptr) (xs : Cells V) : Type ℓ where
    pub entry : Entry V
    pub before : Cells V
    pub after : Cells V
    pub whole : xs ≡ before ++ (p, entry) ∷ after
    pub key : entry.key ≡ k
    pub found : lookup k (entries xs) ≡ some entry
    pub removed : remove k (entries xs) ≡ entries (before ++ after)

  pub address-some : (k : ℕ) (p : Ptr) (xs : Cells V) → address k xs ≡ some p → IsAt k p xs
  address-some k p [] h = absurd (ground arith)
  address-some k p ((q, e) ∷ xs) h = elim (Bool-cases (e.key == k)) [
    | inl t ↦ record {
      entry = e;
      before = [];
      after = xs;
      whole = ground (arith);
      key = ground (arith, ==_iff e.key k);
      found = rw t refl;
      removed = rw t refl;
    }
    | inr n ↦
        let rest : IsAt k p xs = address-some k p xs (ground arith) in
        record {
          entry = rest.entry;
          before = (q, e) ∷ rest.before;
          after = rest.after;
          whole = ap (λ ys. (q, e) ∷ ys) rest.whole;
          key = rest.key;
          found = rw n rest.found;
          removed = rw n (ap (λ es. e ∷ es) rest.removed);
        }
  ]

  pub address-none :
      (k : ℕ) (xs : Cells V)
      → address k xs ≡ none
      → (lookup k (entries xs) ≡ none) × (remove k (entries xs) ≡ entries xs)
  address-none k [] h = (refl, refl)
  address-none k ((q, e) ∷ xs) h = ground (arith, address-none k xs)

  pub length-insert_at :
      (p : Ptr) (e : Entry V) (xs ys : Cells V)
      → length (xs ++ (p, e) ∷ ys) ≡ suc (length (xs ++ ys))
  length-insert_at p e [] ys = refl
  length-insert_at p e (x ∷ xs) ys = ap suc (length-insert_at p e xs ys)

  pub address-append_none :
      (k : ℕ) (p : Ptr) (e : Entry V) (xs ys : Cells V)
      → address k (xs ++ (p, e) ∷ ys) ≡ none
      → (address k (xs ++ ys) ≡ none) × ((e.key == k) ≡ false)
  address-append_none k p e [] ys h = ground arith
  address-append_none k p e ((q, f) ∷ xs) ys h = ground (arith, address-append_none k p e xs ys)

  pub AreKeysDistinct-without :
      (p : Ptr) (e : Entry V) (xs ys : Cells V)
      → AreKeysDistinct (xs ++ (p, e) ∷ ys)
      → AreKeysDistinct (xs ++ ys)
  AreKeysDistinct-without p e [] ys d = d.1
  AreKeysDistinct-without p e ((q, f) ∷ xs) ys d =
      ((address-append_none f.key p e xs ys d.0).0, AreKeysDistinct-without p e xs ys d.1)

  -- Where a cell is taken out, its key is no longer there.
  pub address-without :
      (k : ℕ) (p : Ptr) (e : Entry V) (xs ys : Cells V)
      → AreKeysDistinct (xs ++ (p, e) ∷ ys)
      → address k (xs ++ ys) ≡ (if k == e.key then none else address k (xs ++ (p, e) ∷ ys))
  address-without k p e [] ys d = elim (Bool-cases (k == e.key)) [
    | inl t ↦ rw (t, (==_iff k e.key).0 t) d.0
    | inr n ↦ ground (arith, ==_iff k e.key, ==_iff e.key k)
  ]
  address-without k p e ((q, f) ∷ xs) ys d = ground (
    arith,
    ==_iff k e.key,
    ==_iff e.key f.key,
    ==_iff f.key k,
    address-without k p e xs ys d.1,
    address-append_none f.key p e xs ys d.0,
  )

  -- An entry is replaced by one of the same key.
  pub address-replace :
      (k : ℕ) (p : Ptr) (e f : Entry V) (xs ys : Cells V)
      → e.key ≡ f.key
      → address k (xs ++ (p, e) ∷ ys) ≡ address k (xs ++ (p, f) ∷ ys)
  address-replace k p e f [] ys h = rw h refl
  address-replace k p e f ((q, g) ∷ xs) ys h = rw (address-replace k p e f xs ys h) refl

  pub AreKeysDistinct-replace :
      (p : Ptr) (e f : Entry V) (xs ys : Cells V)
      → e.key ≡ f.key
      → AreKeysDistinct (xs ++ (p, e) ∷ ys)
      → AreKeysDistinct (xs ++ (p, f) ∷ ys)
  AreKeysDistinct-replace p e f [] ys h d = (rw (← h) d.0, d.1)
  AreKeysDistinct-replace p e f ((q, g) ∷ xs) ys h d =
      (sym (address-replace g.key p e f xs ys h) ∙ d.0, AreKeysDistinct-replace p e f xs ys h d.1)

  -- A cell with a key of its own is moved to the front.
  pub AreKeysDistinct-front :
      (p : Ptr) (e : Entry V) (xs ys : Cells V)
      → AreKeysDistinct (xs ++ (p, e) ∷ ys)
      → AreKeysDistinct ((p, e) ∷ (xs ++ ys))
  AreKeysDistinct-front p e xs ys d = (
    address-without e.key p e xs ys d ∙ ground (arith, ==_iff e.key e.key),
    AreKeysDistinct-without p e xs ys d,
  )

  address-at :
      (p : Ptr) (e : Entry V) (xs ys : Cells V)
      → AreKeysDistinct (xs ++ (p, e) ∷ ys)
      → address e.key (xs ++ (p, e) ∷ ys) ≡ some p
  address-at p e [] ys d = ground (arith, ==_iff e.key e.key)
  address-at p e ((q, f) ∷ xs) ys d = elim (Bool-cases (f.key == e.key)) [
    | inl t ↦ absurd (
        ground (
          arith,
          address-at p e xs ys d.1,
          subst (λ k. address k (xs ++ (p, e) ∷ ys) ≡ none) ((==_iff f.key e.key).0 t) d.0,
        ))
    | inr n ↦ rw n (address-at p e xs ys d.1)
  ]

  pub address-front :
      (k : ℕ) (p : Ptr) (e : Entry V) (xs ys : Cells V)
      → AreKeysDistinct (xs ++ (p, e) ∷ ys)
      → address k (xs ++ (p, e) ∷ ys) ≡ address k ((p, e) ∷ (xs ++ ys))
  address-front k p e xs ys d = elim (Bool-cases (e.key == k)) [
    | inl t ↦ rw t (
        subst (λ j. address j (xs ++ (p, e) ∷ ys) ≡ some p) ((==_iff e.key k).0 t)
          (address-at p e xs ys d))
    | inr n ↦
        rw n (sym (address-without k p e xs ys d ∙ ground (arith, ==_iff e.key k, ==_iff k e.key)))
  ]
