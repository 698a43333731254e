-- ===== src/Cache/Refines.antt =====
-- The cache in memory keeps what the list of entries promises.
use upstride_api.Base.{
  ℕ, suc, zero, ◌+◌, ◌≤◌, ◌≡◌, refl, sym, ap, subst, ◌∙◌, Option, none, some, List, [], ◌∷◌, ◌++◌,
  inl, inr, arith, if◌then◌else◌, length, Bool-cases, Option-cases, ltb,
}
use upstride_api.Cache.{
  CacheNode, LruCache, delete, evict_lru, move_to_head, insert, get, set, write,
}
use upstride_api.Cache.Spec.{Entry, lookup, remove, take, get_entry, set_entry}
use upstride_api.Cache.Chain.{Cells, entries, node, first_or, last_or, IsChain-split}
use upstride_api.Cache.Keys.{IsAt, address-some, address-none, length-insert_at}
use upstride_api.Cache.Moves.{Represents, IsMoved, delete-Represents, move_to_head-IsMoved}
use upstride_api.Cache.Sets.{insert-IsMoved, write-Represents}
use upstride_api.Cache.Evicts.{evict_lru-Represents}

module _ {ℓ} {V : Type ℓ} where
  take_all : (n : ℕ) (xs : Cells V) → length xs ≤ n → take n (entries xs) ≡ entries xs
  take_all zero [] h = refl
  take_all zero (x ∷ xs) h = absurd (omega arith)
  take_all (suc n) [] h = refl
  take_all (suc n) ((p, e) ∷ xs) h = ap (λ es. e ∷ es) (take_all n xs (omega arith))

  pub length-entries : (xs : Cells V) → length (entries xs) ≡ length xs
  length-entries [] = refl
  length-entries ((p, e) ∷ xs) = ap suc (length-entries xs)

  pub length-take : (n : ℕ) (es : List (Entry V)) → length (take n es) ≤ n
  length-take zero es = omega arith
  length-take (suc n) [] = omega arith
  length-take (suc n) (e ∷ es) = omega (arith, length-take n es)

  -- The cache `d` holds the entries `es`, and its bounds are those of `c`.
  abbrev pub Holds : (c d : LruCache V) → List (Entry V) → Type ℓ
  Holds c d es =
      (xs : Cells V) × (Represents d xs × ((entries xs ≡ es) × ((d.max ≡ c.max) × (d.ttl ≡ c.ttl))))

  set_hit :
      (now key p : ℕ) (value : V) (c : LruCache V)
      → c.map.at key ≡ some p
      → set now key value c
        ≡ move_to_head p (record c {
          nodes = write p (record (c.nodes p) { value = value; expiry = now + c.ttl }) c.nodes;
        })
  unfolding set
  set_hit now key p value c h = ground arith

  set_miss :
      (now key : ℕ) (value : V) (c : LruCache V)
      → c.map.at key ≡ none
      → set now key value c ≡ (
          if ltb (insert now key value c).max (insert now key value c).map.size
          then evict_lru (insert now key value c)
          else insert now key value c)
  unfolding set
  set_miss now key value c h = ground arith

  set_hit-Holds :
      (now key p : ℕ) (value : V) (c : LruCache V) (xs : Cells V)
      → Represents c xs
      → length xs ≤ c.max
      → c.map.at key ≡ some p
      → Holds c (set now key value c) (set_entry c.max c.ttl now key value (entries xs))
  set_hit-Holds now key p value c xs h bound s =
      let f : Entry V = record { key = key; value = value; expiry = now + c.ttl } in
      let a : IsAt key p xs = address-some key p xs (sym (h.at key) ∙ s) in
      let ys = a.before ++ a.after in
      let whole : Represents c (a.before ++ (p, a.entry) ∷ a.after) =
        subst (Represents c) a.whole h in
      let c' : LruCache V = record c {
        nodes = write p (record (c.nodes p) { value = value; expiry = now + c.ttl }) c.nodes;
      } in
      let m : IsMoved c' (move_to_head p c') ((p, f) ∷ ys) =
        move_to_head-IsMoved c' p f a.before a.after
          (write-Represents c p a.entry f a.before a.after a.key whole) in
      let n : length ((p, f) ∷ ys) ≤ c.max =
        omega (arith, ap length a.whole, length-insert_at p a.entry a.before a.after) in
      (
        (p, f) ∷ ys,
        rw (set_hit now key p value c s) (
          m.represents,
          (
            sym (take_all c.max ((p, f) ∷ ys) n) ∙ ap (λ es. take c.max (f ∷ es)) (sym a.removed),
            (m.max, m.ttl),
          ),
        ),
      )

  set_miss-Holds :
      (now key : ℕ) (value : V) (c : LruCache V) (xs : Cells V)
      → Represents c xs
      → length xs ≤ c.max
      → c.map.at key ≡ none
      → Holds c (set now key value c) (set_entry c.max c.ttl now key value (entries xs))
  set_miss-Holds now key value c xs h bound s =
      let f : Entry V = record { key = key; value = value; expiry = now + c.ttl } in
      let d = insert now key value c in
      let m : IsMoved c d ((c.fresh, f) ∷ xs) = insert-IsMoved now key value c xs h s in
      let size : d.map.size ≡ suc (length xs) = m.represents.size in
      let absent : remove key (entries xs) ≡ entries xs =
        (address-none key xs (sym (h.at key) ∙ s)).1 in
      let put : take c.max (f ∷ entries xs) ≡ set_entry c.max c.ttl now key value (entries xs) =
        ap (λ es. take c.max (f ∷ es)) (sym absent) in
      let max : d.max ≡ c.max = m.max in
      rw (set_miss now key value c s) (elim (Bool-cases (ltb d.max d.map.size)) [
        | inl t ↦
            let full : length xs ≡ c.max = ground arith in
            let (ys, (r, (same, (x, y)))) = evict_lru-Represents c.fresh f d xs m.represents in
            rw t (
              ys,
              (r, (same ∙ (ap (λ n. take n (f ∷ entries xs)) full ∙ put), (x ∙ m.max, y ∙ m.ttl))),
            )
        | inr n ↦
            let room : length ((c.fresh, f) ∷ xs) ≤ c.max = ground arith in
            rw n (
              (c.fresh, f) ∷ xs,
              (m.represents, (sym (take_all c.max ((c.fresh, f) ∷ xs) room) ∙ put, (m.max, m.ttl))),
            )
      ])

  pub set-Holds :
      (now key : ℕ) (value : V) (c : LruCache V) (xs : Cells V)
      → Represents c xs
      → length xs ≤ c.max
      → Holds c (set now key value c) (set_entry c.max c.ttl now key value (entries xs))
  set-Holds now key value c xs h bound = elim (Option-cases (c.map.at key)) [
    | inl n ↦ set_miss-Holds now key value c xs h bound n
    | inr (p, s) ↦ set_hit-Holds now key p value c xs h bound s
  ]

  get_miss : (now key : ℕ) (c : LruCache V) → c.map.at key ≡ none → get now key c ≡ (none, c)
  unfolding get
  get_miss now key c h = ground arith

  get_hit :
      (now key p : ℕ) (c : LruCache V)
      → c.map.at key ≡ some p
      → get now key c ≡ (
          if ltb (c.nodes p).expiry now
          then (none, delete key c)
          else (some ((move_to_head p c).nodes p).value, move_to_head p c))
  unfolding get
  get_hit now key p c h = ground arith

  pub get_entry_hit :
      (now key : ℕ) (e : Entry V) (es : List (Entry V))
      → lookup key es ≡ some e
      → get_entry now key es
        ≡ (if ltb e.expiry now then (none, remove key es) else (some e.value, e ∷ remove key es))
  get_entry_hit now key e es h = ground arith

  get_entry_miss :
      (now key : ℕ) (es : List (Entry V)) → lookup key es ≡ none → get_entry now key es ≡ (none, es)
  get_entry_miss now key es h = ground arith

  -- A call of `get` answers as the list of entries does, and moves as it does.
  abbrev pub Answers : (c : LruCache V) → Option V × LruCache V → Option V × List (Entry V) → Type ℓ
  Answers c r s = (r.0 ≡ s.0) × Holds c r.1 s.1

  pub get-Answers :
      (now key : ℕ) (c : LruCache V) (xs : Cells V)
      → Represents c xs
      → Answers c (get now key c) (get_entry now key (entries xs))
  get-Answers now key c xs h = elim (Option-cases (c.map.at key)) [
    | inl n ↦
        rw
          (
            get_miss now key c n,
            get_entry_miss now key (entries xs) (address-none key xs (sym (h.at key) ∙ n)).0,
          )
          (refl, (xs, (h, (refl, (refl, refl)))))
    | inr (p, s) ↦
        let a : IsAt key p xs = address-some key p xs (sym (h.at key) ∙ s) in
        let whole : Represents c (a.before ++ (p, a.entry) ∷ a.after) =
          subst (Represents c) a.whole h in
        let held : c.nodes p ≡ node a.entry (last_or none a.before) (first_or none a.after) =
          (IsChain-split c.nodes none none a.before ((p, a.entry) ∷ a.after)
            whole.linked.chain).1.0 in
        let expiry : (c.nodes p).expiry ≡ a.entry.expiry =
          ap (λ (n : CacheNode V). n.expiry) held in
        rw (get_hit now key p c s, get_entry_hit now key a.entry (entries xs) a.found, expiry)
          (elim (Bool-cases (ltb a.entry.expiry now)) [
            | inl t ↦ rw t (refl, delete-Represents key c xs h)
            | inr n ↦
                let m : IsMoved c (move_to_head p c) ((p, a.entry) ∷ (a.before ++ a.after)) =
                  move_to_head-IsMoved c p a.entry a.before a.after whole in
                let value : ((move_to_head p c).nodes p).value ≡ a.entry.value =
                  ap (λ (n : CacheNode V). n.value) m.represents.linked.chain.0 in
                rw n (
                  ap some value,
                  (
                    (p, a.entry) ∷ (a.before ++ a.after),
                    (m.represents, (ap (λ es. a.entry ∷ es) (sym a.removed), (m.max, m.ttl))),
                  ),
                )
          ])
  ]
