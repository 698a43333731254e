-- ===== src/Cache/Kept.antt =====
-- How long an entry stays.
use upstride_api.Base.{
  ℕ, suc, zero, ◌+◌, ◌<◌, ◌≤◌, ◌≡◌, ◌≢◌, refl, sym, subst, ◌∙◌, false, some, List, [], ◌∷◌, ◌==◌,
  ==_iff, inl, inr, arith, length, Bool-cases, Option-cases, ltb, All,
}
use upstride_api.Cache.{Ptr, CacheNode, LruCache, get, set, create}
use upstride_api.Cache.Spec.{Entry, lookup, remove, take, get_entry, set_entry}
use upstride_api.Cache.Served.{
  Request, serve_all, serve_entries, serve_entries_all, Refines, serve_all-Refines, create-Refines,
  serve-Refines, serve-Answers,
}
use upstride_api.Cache.Refines.{get_entry_hit}

module _ {ℓ} {V : Type ℓ} where
  -- The request does not write or delete the key, nor does it ask for it after `until`.
  abbrev pub Spares : (key until : ℕ) → Request V → Type 0
  Spares key until (Request.gets now k) = now ≤ until
  Spares key until (Request.sets now k value) = k ≢ key
  Spares key until (Request.deletes k) = k ≢ key

  -- The entry is among the first `n`.
  abbrev pub IsAmong : ℕ → Entry V → List (Entry V) → Type ℓ
  IsAmong n e es = lookup e.key (take n es) ≡ some e

  IsAmong-suc : (n : ℕ) (e : Entry V) (es : List (Entry V)) → IsAmong n e es → IsAmong (suc n) e es
  IsAmong-suc zero e es h = absurd (ground arith)
  IsAmong-suc (suc n) e [] h = h
  IsAmong-suc (suc n) e (f ∷ es) h = elim (Bool-cases (f.key == e.key)) [
    | inl t ↦ ground arith
    | inr x ↦ rw x (IsAmong-suc n e es (ground arith))
  ]

  IsAmong-remove :
      (n : ℕ) (e : Entry V) (key : ℕ) (es : List (Entry V))
      → (key == e.key) ≡ false
      → IsAmong n e es
      → IsAmong n e (remove key es)
  IsAmong-remove zero e key es x h = absurd (ground arith)
  IsAmong-remove (suc n) e key [] x h = h
  IsAmong-remove (suc n) e key (f ∷ es) x h = elim (Bool-cases (f.key == key)) [
    | inl t ↦ rw t (
        IsAmong-suc n e es (ground (arith, ==_iff f.key key, ==_iff f.key e.key, ==_iff key e.key)))
    | inr y ↦ elim (Bool-cases (f.key == e.key)) [
      | inl t ↦ ground arith
      | inr z ↦ rw (y, z) (IsAmong-remove n e key es x (ground arith))
    ]
  ]

  IsAmong-take :
      (n m : ℕ) (e : Entry V) (es : List (Entry V))
      → n ≤ m
      → IsAmong n e es
      → IsAmong n e (take m es)
  IsAmong-take zero m e es l h = absurd (ground arith)
  IsAmong-take (suc n) zero e es l h = absurd (omega arith)
  IsAmong-take (suc n) (suc m) e [] l h = h
  IsAmong-take (suc n) (suc m) e (f ∷ es) l h = elim (Bool-cases (f.key == e.key)) [
    | inl t ↦ ground arith
    | inr x ↦ rw x (IsAmong-take n m e es (omega arith) (ground arith))
  ]

  lookup-IsAmong :
      (n : ℕ) (e : Entry V) (es : List (Entry V)) → IsAmong n e es → lookup e.key es ≡ some e
  lookup-IsAmong zero e es h = absurd (ground arith)
  lookup-IsAmong (suc n) e [] h = h
  lookup-IsAmong (suc n) e (f ∷ es) h = elim (Bool-cases (f.key == e.key)) [
    | inl t ↦ ground arith
    | inr x ↦ rw x (lookup-IsAmong n e es (ground arith))
  ]

  key-lookup : (key : ℕ) (f : Entry V) (es : List (Entry V)) → lookup key es ≡ some f → f.key ≡ key
  key-lookup key f [] h = absurd (ground arith)
  key-lookup key f (g ∷ es) h = ground (arith, ==_iff g.key key, key-lookup key f es)

  get_same-IsAmong :
      (now key n : ℕ) (e : Entry V) (es : List (Entry V))
      → key ≡ e.key
      → now ≤ e.expiry
      → IsAmong n e es
      → IsAmong (suc n) e (get_entry now key es).1
  get_same-IsAmong now key n e es k l h =
      let found : lookup key es ≡ some e =
        subst (λ j. lookup j es ≡ some e) (sym k) (lookup-IsAmong n e es h) in
      let late : ltb e.expiry now ≡ false = ground arith in
      rw (get_entry_hit now key e es found, late) (ground (arith, ==_iff e.key e.key))

  get_other-IsAmong :
      (now key n : ℕ) (e f : Entry V) (es : List (Entry V))
      → (key == e.key) ≡ false
      → lookup key es ≡ some f
      → IsAmong n e es
      → IsAmong (suc n) e (get_entry now key es).1
  get_other-IsAmong now key n e f es y x h =
      let rest : IsAmong n e (remove key es) = IsAmong-remove n e key es y h in
      let k : (f.key == e.key) ≡ false =
        subst (λ j. (j == e.key) ≡ false) (sym (key-lookup key f es x)) y in
      rw (get_entry_hit now key f es x) (elim (Bool-cases (ltb f.expiry now)) [
        | inl t ↦ rw t (IsAmong-suc n e (remove key es) rest)
        | inr z ↦ rw (z, k) rest
      ])

  -- An entry that is not the asked one moves back by one at most.
  serve_entries-IsAmong :
      (max ttl n : ℕ) (e : Entry V) (r : Request V) (es : List (Entry V))
      → suc n ≤ max
      → Spares e.key e.expiry r
      → IsAmong n e es
      → IsAmong (suc n) e (serve_entries max ttl r es).1
  serve_entries-IsAmong max ttl n e (Request.gets now key) es l s h =
      elim (Option-cases (lookup key es)) [
        | inl x ↦ ground (arith, IsAmong-suc n e es)
        | inr (f, x) ↦ elim (Bool-cases (key == e.key)) [
          | inl t ↦ get_same-IsAmong now key n e es ((==_iff key e.key).0 t) s h
          | inr y ↦ get_other-IsAmong now key n e f es y x h
        ]
      ]
  serve_entries-IsAmong max ttl n e (Request.sets now key value) es l s h =
      let x : (key == e.key) ≡ false = ground (arith, ==_iff key e.key) in
      let rest = IsAmong-remove n e key es x h in
      IsAmong-take (suc n) max e
        (record { key = key; value = value; expiry = now + ttl } ∷ remove key es) l (rw x rest)
  serve_entries-IsAmong max ttl n e (Request.deletes key) es l s h =
      IsAmong-suc n e (remove key es)
        (IsAmong-remove n e key es (ground (arith, ==_iff key e.key)) h)

  serve_entries_all-IsAmong :
      (max ttl n : ℕ) (e : Entry V) (rs : List (Request V)) (es : List (Entry V))
      → n + length rs ≤ max
      → All (Spares e.key e.expiry) rs
      → IsAmong n e es
      → lookup e.key (serve_entries_all max ttl rs es) ≡ some e
  serve_entries_all-IsAmong max ttl n e [] es l s h = lookup-IsAmong n e es h
  serve_entries_all-IsAmong max ttl n e (r ∷ rs) es l s h =
      serve_entries_all-IsAmong max ttl (suc n) e rs (serve_entries max ttl r es).1 (omega arith)
        s.1 (serve_entries-IsAmong max ttl n e r es (omega arith) s.0 h)

  set_entry-IsAmong :
      (max ttl now key : ℕ) (value : V) (es : List (Entry V))
      → 0 < max
      → IsAmong 1
          (record { key = key; value = value; expiry = now + ttl })
          (set_entry max ttl now key value es)
  set_entry-IsAmong zero ttl now key value es h = absurd (omega arith)
  set_entry-IsAmong (suc max) ttl now key value es h = ground (arith, ==_iff key key)

  get_kept :
      (max ttl now : ℕ) (e : Entry V) (c : LruCache V) (es : List (Entry V))
      → Refines max ttl c es
      → lookup e.key es ≡ some e
      → now ≤ e.expiry
      → (get now e.key c).0 ≡ some e.value
  get_kept max ttl now e c es h found l =
      let late : ltb e.expiry now ≡ false = ground arith in
      (serve-Answers max ttl (Request.gets now e.key) c es h).0
      ∙ rw (get_entry_hit now e.key e es found, late) refl

  -- A value that was set is answered until it expires, whatever calls come between, if they are fewer
  -- than the bound, write or delete no such key, and ask for it only before it expires.
  pub get-serve_all-set :
      (max ttl time now key : ℕ) (value : V) (nodes : Ptr → CacheNode V)
      (before rs : List (Request V))
      → length rs < max
      → All (Spares key (time + ttl)) rs
      → now ≤ time + ttl
      → (get now key
          (serve_all rs (set time key value (serve_all before (create max ttl nodes))))).0
        ≡ some value
  get-serve_all-set max ttl time now key value nodes before rs l s n =
      let e : Entry V = record { key = key; value = value; expiry = time + ttl } in
      let es = serve_entries_all max ttl before [] in
      let c = serve_all before (create max ttl nodes) in
      let start : Refines max ttl c es =
        serve_all-Refines max ttl before (create max ttl nodes) [] (create-Refines max ttl nodes) in
      let held : Refines max ttl (set time key value c) (set_entry max ttl time key value es) =
        serve-Refines max ttl (Request.sets time key value) c es start in
      let after =
        serve_all-Refines max ttl rs (set time key value c) (set_entry max ttl time key value es)
          held in
      get_kept max ttl now e (serve_all rs (set time key value c))
        (serve_entries_all max ttl rs (set_entry max ttl time key value es)) after
        (serve_entries_all-IsAmong max ttl 1 e rs (set_entry max ttl time key value es)
          (omega arith) s (set_entry-IsAmong max ttl time key value es (omega arith)))
        n
