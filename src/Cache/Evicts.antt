-- ===== src/Cache/Evicts.antt =====
-- The entry that was used least recently is evicted.
use upstride_api.Base.{
  ◌-◌, ◌≡◌, refl, sym, ap, subst, ◌∙◌, none, some, [], ◌∷◌, ◌++◌, ==_iff, arith, length,
}
use upstride_api.Cache.{Ptr, CacheNode, LruCache, delete, evict_lru}
use upstride_api.Cache.Spec.{Entry, remove, take}
use upstride_api.Cache.Chain.{Cells, entries, last_or, node, IsChain-split, last_or-append}
use upstride_api.Cache.Keys.{AreKeysDistinct, address-append_none, length-insert_at}
use upstride_api.Cache.Moves.{Represents, delete-Represents}

module _ {ℓ} {V : Type ℓ} where
  record IsLast (xs : Cells V) : Type ℓ where
    before : Cells V
    address : Ptr
    entry : Entry V
    whole : xs ≡ before ++ (address, entry) ∷ []

  IsLast-cell : (p : Ptr) (e : Entry V) (xs : Cells V) → IsLast ((p, e) ∷ xs)
  IsLast-cell p e [] = record { before = []; address = p; entry = e; whole = refl }
  IsLast-cell p e ((q, f) ∷ xs) =
      let l : IsLast ((q, f) ∷ xs) = IsLast-cell q f xs in
      record {
        before = (p, e) ∷ l.before;
        address = l.address;
        entry = l.entry;
        whole = ap (λ ys. (p, e) ∷ ys) l.whole;
      }

  remove_last :
      (p : Ptr) (e : Entry V) (xs : Cells V)
      → AreKeysDistinct (xs ++ (p, e) ∷ [])
      → remove e.key (entries (xs ++ (p, e) ∷ [])) ≡ take (length xs) (entries (xs ++ (p, e) ∷ []))
  remove_last p e [] d = ground (arith, ==_iff e.key e.key)
  remove_last p e ((q, f) ∷ xs) d = ground (
    arith,
    remove_last p e xs d.1,
    address-append_none f.key p e xs [] d.0,
    ==_iff e.key f.key,
    ==_iff f.key e.key,
  )

  last_length : (p : Ptr) (e : Entry V) (xs : Cells V) → length xs ≡ length (xs ++ (p, e) ∷ []) - 1
  last_length p e [] = omega arith
  last_length p e (x ∷ xs) = omega (arith, last_length p e xs, length-insert_at p e xs [])

  taken :
      (p : Ptr) (e : Entry V) (xs ys whole : Cells V)
      → whole ≡ xs ++ (p, e) ∷ []
      → length xs ≡ length ys
      → AreKeysDistinct (xs ++ (p, e) ∷ [])
      → remove e.key (entries (xs ++ (p, e) ∷ [])) ≡ take (length ys) (entries whole)
  taken p e xs ys whole w n d =
      remove_last p e xs d
      ∙ (ap (λ k. take k (entries (xs ++ (p, e) ∷ []))) n
          ∙ ap (λ (zs : Cells V). take (length ys) (entries zs)) (sym w))

  evict_lru_lem :
      (p : Ptr) (e : Entry V) (c : LruCache V) (xs : Cells V)
      → Represents c (xs ++ (p, e) ∷ [])
      → evict_lru c ≡ delete e.key c
  unfolding evict_lru
  evict_lru_lem p e c xs h =
      let tail : c.tail ≡ some p = h.linked.tail ∙ last_or-append none xs ((p, e) ∷ []) in
      let held : c.nodes p ≡ node e (last_or none xs) none =
        (IsChain-split c.nodes none none xs ((p, e) ∷ []) h.linked.chain).1.0 in
      let key : (c.nodes p).key ≡ e.key = ap (λ (n : CacheNode V). n.key) held in ground arith

  pub evict_lru-Represents :
      (p : Ptr) (e : Entry V) (c : LruCache V) (xs : Cells V)
      → Represents c ((p, e) ∷ xs)
      → (ys : Cells V) × (Represents (evict_lru c) ys
          × ((entries ys ≡ take (length xs) (entries ((p, e) ∷ xs)))
              × (((evict_lru c).max ≡ c.max) × ((evict_lru c).ttl ≡ c.ttl))))
  evict_lru-Represents p e c xs h =
      let l : IsLast ((p, e) ∷ xs) = IsLast-cell p e xs in
      let whole : Represents c (l.before ++ (l.address, l.entry) ∷ []) =
        subst (Represents c) l.whole h in
      let (ys, (r, (same, kept))) =
        delete-Represents l.entry.key c (l.before ++ (l.address, l.entry) ∷ []) whole in
      let sizes : length l.before ≡ length xs =
        last_length l.address l.entry l.before ∙ omega (arith, ap length l.whole) in
      (
        ys,
        rw (evict_lru_lem l.address l.entry c l.before whole) (
          r,
          (same ∙ taken l.address l.entry l.before xs ((p, e) ∷ xs) l.whole sizes whole.keys, kept),
        ),
      )
