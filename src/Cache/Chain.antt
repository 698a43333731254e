-- ===== src/Cache/Chain.antt =====
-- Doubly linked chains of distinct nodes, and the entries they hold.
use upstride_api.Base.{
  ◌≡◌, refl, sym, subst, ap, ◌∙◌, Bool, true, false, ◌||◌, Option, some, List, [], ◌∷◌, ◌++◌, ◌==◌,
  ==_iff, inl, inr, arith, Bool-cases,
}
use upstride_api.Cache.{Ptr, CacheNode, write, set_next, set_prev}
use upstride_api.Cache.Spec.{Entry}

-- The nodes in order, each with its address.
abbrev pub Cells {ℓ} : Type ℓ → Type ℓ
Cells V = List (Ptr × Entry V)

module _ {ℓ} {V : Type ℓ} where
  abbrev pub entries : Cells V → List (Entry V)
  entries [] = []
  entries ((p, e) ∷ xs) = e ∷ entries xs

  abbrev pub has : Ptr → Cells V → Bool
  has q [] = false
  has q ((p, e) ∷ xs) = q == p || has q xs

  abbrev pub AreDistinct : Cells V → Type 0
  AreDistinct [] = Unit
  AreDistinct ((p, e) ∷ xs) = (has p xs ≡ false) × AreDistinct xs

  abbrev pub first_or : Option Ptr → Cells V → Option Ptr
  first_or next [] = next
  first_or next ((p, e) ∷ xs) = some p

  abbrev pub last_or : Option Ptr → Cells V → Option Ptr
  last_or prev [] = prev
  last_or prev ((p, e) ∷ xs) = last_or (some p) xs

  abbrev pub node : Entry V → (prev next : Option Ptr) → CacheNode V
  node e prev next = record {
    key = e.key;
    value = e.value;
    expiry = e.expiry;
    prev = prev;
    next = next;
  }

  -- The nodes are linked both ways, between `prev` and `next`.
  abbrev pub IsChain : (Ptr → CacheNode V) → (prev next : Option Ptr) → Cells V → Type ℓ
  IsChain nodes prev next [] = Unit
  IsChain nodes prev next ((p, e) ∷ xs) =
      (nodes p ≡ node e prev (first_or next xs)) × IsChain nodes (some p) next xs

  pub has-append : (q : Ptr) (xs ys : Cells V) → has q (xs ++ ys) ≡ (has q xs || has q ys)
  has-append q [] ys = refl
  has-append q ((p, e) ∷ xs) ys = ground (arith, has-append q xs ys)

  pub first_or-append :
      (next : Option Ptr) (xs ys : Cells V)
      → first_or next (xs ++ ys) ≡ first_or (first_or next ys) xs
  first_or-append next [] ys = refl
  first_or-append next ((p, e) ∷ xs) ys = refl

  pub last_or-append :
      (prev : Option Ptr) (xs ys : Cells V) → last_or prev (xs ++ ys) ≡ last_or (last_or prev xs) ys
  last_or-append prev [] ys = refl
  last_or-append prev ((p, e) ∷ xs) ys = last_or-append (some p) xs ys

  pub IsChain-write :
      (nodes : Ptr → CacheNode V) (q : Ptr) (n : CacheNode V) (prev next : Option Ptr)
      (xs : Cells V)
      → has q xs ≡ false
      → IsChain nodes prev next xs
      → IsChain (write q n nodes) prev next xs
  unfolding write
  IsChain-write nodes q n prev next [] out h = tt
  IsChain-write nodes q n prev next ((p, e) ∷ xs) out h = (
    ground (arith, ==_iff p q, ==_iff q p),
    IsChain-write nodes q n (some p) next xs (ground arith) h.1,
  )

  -- A chain of two parts.
  pub IsChain-split :
      (nodes : Ptr → CacheNode V) (prev next : Option Ptr) (xs ys : Cells V)
      → IsChain nodes prev next (xs ++ ys)
      → IsChain nodes prev (first_or next ys) xs × IsChain nodes (last_or prev xs) next ys
  IsChain-split nodes prev next [] ys h = (tt, h)
  IsChain-split nodes prev next ((p, e) ∷ xs) ys h =
      let (a, b) = IsChain-split nodes (some p) next xs ys h.1 in
      ((h.0 ∙ ap (node e prev) (first_or-append next xs ys), a), b)

  pub IsChain-join :
      (nodes : Ptr → CacheNode V) (prev next : Option Ptr) (xs ys : Cells V)
      → IsChain nodes prev (first_or next ys) xs
      → IsChain nodes (last_or prev xs) next ys
      → IsChain nodes prev next (xs ++ ys)
  IsChain-join nodes prev next [] ys h k = k
  IsChain-join nodes prev next ((p, e) ∷ xs) ys h k = (
    h.0 ∙ ap (node e prev) (sym (first_or-append next xs ys)),
    IsChain-join nodes (some p) next xs ys h.1 k,
  )

  -- The last of some nodes is one of them.
  pub last_or-some :
      (p : Ptr) (xs : Cells V)
      → (q : Ptr) × ((last_or (some p) xs ≡ some q) × ((q == p || has q xs) ≡ true))
  last_or-some p [] = (p, (refl, ground (arith, ==_iff p p)))
  last_or-some p ((r, e) ∷ xs) = let (q, (a, b)) = last_or-some r xs in (q, (a, ground arith))

  pub ne_of_has : (p z : Ptr) (xs : Cells V) → has p xs ≡ false → has z xs ≡ true → (p == z) ≡ false
  ne_of_has p z xs out h = elim (Bool-cases (p == z)) [
    | inl e ↦ ground (arith, subst (λ y. has y xs ≡ true) (sym ((==_iff p z).0 e)) h)
    | inr n ↦ n
  ]

  -- A write to the link behind the last node, or to that before the first.
  pub IsChain-set_next :
      (nodes : Ptr → CacheNode V) (prev next q : Option Ptr) (xs : Cells V)
      → AreDistinct xs
      → IsChain nodes prev next xs
      → IsChain (set_next (last_or prev xs) q nodes) prev q xs
  unfolding write
  IsChain-set_next nodes prev next q [] d h = tt
  IsChain-set_next nodes prev next q ((p, e) ∷ []) d h = (ground (arith, ==_iff p p), tt)
  IsChain-set_next nodes prev next q ((p, e) ∷ (r, f) ∷ xs) d h =
      let rest = IsChain-set_next nodes (some p) next q ((r, f) ∷ xs) d.1 h.1 in
      let (z, (a, b)) = last_or-some r xs in
      (rw a (ground (arith, ne_of_has p z ((r, f) ∷ xs))), rest)

  write_first :
      (nodes : Ptr → CacheNode V) (p : Ptr) (e : Entry V) (prev next q : Option Ptr)
      → nodes p ≡ node e prev next
      → write p (record (nodes p) { prev = q }) nodes p ≡ node e q next
  unfolding write
  write_first nodes p e prev next q h = ground (arith, ==_iff p p)

  pub IsChain-set_prev :
      (nodes : Ptr → CacheNode V) (prev next q : Option Ptr) (xs : Cells V)
      → AreDistinct xs
      → IsChain nodes prev next xs
      → IsChain (set_prev (first_or next xs) q nodes) q next xs
  IsChain-set_prev nodes prev next q [] d h = tt
  IsChain-set_prev nodes prev next q ((p, e) ∷ xs) d h = (
    write_first nodes p e prev (first_or next xs) q h.0,
    IsChain-write nodes p (record (nodes p) { prev = q }) (some p) next xs d.0 h.1,
  )
