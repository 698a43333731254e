-- ===== src/Cache/Served.antt =====
-- Any sequence of calls of a cache.
use upstride_api.Base.{
  ℕ, suc, ◌+◌, ◌≤◌, ◌≡◌, refl, ap, subst, ◌∙◌, Option, none, some, List, [], ◌∷◌, inl, inr, arith,
  length, Option-cases,
}
use upstride_api.Cache.{Ptr, CacheNode, LruCache, delete, get, set, create}
use upstride_api.Cache.Spec.{Entry, lookup, remove, get_entry, set_entry}
use upstride_api.Cache.Chain.{Cells, entries}
use upstride_api.Cache.Moves.{Represents, delete-Represents}
use upstride_api.Cache.Refines.{Holds, Answers, get-Answers, set-Holds, length-take, length-entries}

pub data Request {ℓ} (V : Type ℓ) : Type ℓ where
  gets : (now key : ℕ) → Request V
  sets : (now key : ℕ) → V → Request V
  deletes : (key : ℕ) → Request V

module _ {ℓ} {V : Type ℓ} where
  abbrev pub serve : Request V → LruCache V → Option V × LruCache V
  serve (gets now key) c = get now key c
  serve (sets now key value) c = (none, set now key value c)
  serve (deletes key) c = (none, delete key c)

  abbrev pub answers : List (Request V) → LruCache V → List (Option V)
  answers [] c = []
  answers (r ∷ rs) c = (serve r c).0 ∷ answers rs (serve r c).1

  abbrev pub serve_all : List (Request V) → LruCache V → LruCache V
  serve_all [] c = c
  serve_all (r ∷ rs) c = serve_all rs (serve r c).1

  -- The same of the list of entries.
  abbrev pub serve_entries : (max ttl : ℕ) → Request V → List (Entry V) → Option V × List (Entry V)
  serve_entries max ttl (gets now key) es = get_entry now key es
  serve_entries max ttl (sets now key value) es = (none, set_entry max ttl now key value es)
  serve_entries max ttl (deletes key) es = (none, remove key es)

  abbrev pub promised : (max ttl : ℕ) → List (Request V) → List (Entry V) → List (Option V)
  promised max ttl [] es = []
  promised max ttl (r ∷ rs) es =
      (serve_entries max ttl r es).0 ∷ promised max ttl rs (serve_entries max ttl r es).1

  abbrev pub serve_entries_all : (max ttl : ℕ) → List (Request V) → List (Entry V) → List (Entry V)
  serve_entries_all max ttl [] es = es
  serve_entries_all max ttl (r ∷ rs) es =
      serve_entries_all max ttl rs (serve_entries max ttl r es).1

  length-remove : (key : ℕ) (es : List (Entry V)) → length (remove key es) ≤ length es
  length-remove key [] = omega arith
  length-remove key (e ∷ es) = ground (arith, length-remove key es)

  length-remove-some :
      (key : ℕ) (e : Entry V) (es : List (Entry V))
      → lookup key es ≡ some e
      → suc (length (remove key es)) ≡ length es
  length-remove-some key e [] h = absurd (ground arith)
  length-remove-some key e (f ∷ es) h = ground (arith, length-remove-some key e es)

  length-serve_entries :
      (max ttl : ℕ) (r : Request V) (es : List (Entry V))
      → length es ≤ max
      → length (serve_entries max ttl r es).1 ≤ max
  length-serve_entries max ttl (gets now key) es h = elim (Option-cases (lookup key es)) [
    | inl n ↦ ground arith
    | inr (e, s) ↦ ground (arith, length-remove-some key e es, length-remove key es)
  ]
  length-serve_entries max ttl (sets now key value) es h =
      length-take max (record { key = key; value = value; expiry = now + ttl } ∷ remove key es)
  length-serve_entries max ttl (deletes key) es h = omega (arith, length-remove key es)

  -- The cache is one with these bounds that holds the entries, and no more than `max`.
  pub record Refines (max ttl : ℕ) (c : LruCache V) (es : List (Entry V)) : Type ℓ where
    pub cells : Cells V
    pub represents : Represents c cells
    pub same : entries cells ≡ es
    pub max_is : c.max ≡ max
    pub ttl_is : c.ttl ≡ ttl
    pub bounded : length es ≤ max

  Refines-Holds :
      (max ttl : ℕ) (c d : LruCache V) (es fs : List (Entry V))
      → Refines max ttl c es
      → Holds c d fs
      → length fs ≤ max
      → Refines max ttl d fs
  Refines-Holds max ttl c d es fs h (xs, (r, (same, (m, t)))) b = record {
    cells = xs;
    represents = r;
    same = same;
    max_is = m ∙ h.max_is;
    ttl_is = t ∙ h.ttl_is;
    bounded = b;
  }

  pub serve-Answers :
      (max ttl : ℕ) (r : Request V) (c : LruCache V) (es : List (Entry V))
      → Refines max ttl c es
      → Answers c (serve r c) (serve_entries max ttl r es)
  serve-Answers max ttl (gets now key) c es h =
      subst (λ fs. Answers c (get now key c) (get_entry now key fs)) h.same
        (get-Answers now key c h.cells h.represents)
  serve-Answers max ttl (sets now key value) c es h =
      let n : length h.cells ≤ c.max =
        omega (arith, h.bounded, h.max_is, ap length h.same, length-entries h.cells) in
      (
        refl,
        rw (← h.same, ← h.max_is, ← h.ttl_is) (set-Holds now key value c h.cells h.represents n),
      )
  serve-Answers max ttl (deletes key) c es h = (
    refl,
    subst (λ fs. Holds c (delete key c) (remove key fs)) h.same
        (delete-Represents key c h.cells h.represents),
  )

  pub serve-Refines :
      (max ttl : ℕ) (r : Request V) (c : LruCache V) (es : List (Entry V))
      → Refines max ttl c es
      → Refines max ttl (serve r c).1 (serve_entries max ttl r es).1
  serve-Refines max ttl r c es h =
      Refines-Holds max ttl c (serve r c).1 es (serve_entries max ttl r es).1 h
        (serve-Answers max ttl r c es h).1 (length-serve_entries max ttl r es h.bounded)

  answers-Refines :
      (max ttl : ℕ) (rs : List (Request V)) (c : LruCache V) (es : List (Entry V))
      → Refines max ttl c es
      → answers rs c ≡ promised max ttl rs es
  answers-Refines max ttl [] c es h = refl
  answers-Refines max ttl (r ∷ rs) c es h =
      rw
        (
          (serve-Answers max ttl r c es h).0,
          answers-Refines max ttl rs (serve r c).1 (serve_entries max ttl r es).1
              (serve-Refines max ttl r c es h),
        )
        refl

  pub serve_all-Refines :
      (max ttl : ℕ) (rs : List (Request V)) (c : LruCache V) (es : List (Entry V))
      → Refines max ttl c es
      → Refines max ttl (serve_all rs c) (serve_entries_all max ttl rs es)
  serve_all-Refines max ttl [] c es h = h
  serve_all-Refines max ttl (r ∷ rs) c es h =
      serve_all-Refines max ttl rs (serve r c).1 (serve_entries max ttl r es).1
        (serve-Refines max ttl r c es h)

  pub create-Refines :
      (max ttl : ℕ) (nodes : Ptr → CacheNode V) → Refines max ttl (create max ttl nodes) []
  unfolding create
  create-Refines max ttl nodes = record {
    cells = [];
    represents = record {
      linked = record { chain = tt; head = refl; tail = refl; distinct = tt };
      at = λ k. refl;
      size = refl;
      keys = tt;
      used = λ q i. absurd (ground arith);
    };
    same = refl;
    max_is = refl;
    ttl_is = refl;
    bounded = omega arith;
  }

  -- Whatever calls are made of a new cache, at whatever times and bounds, it answers each as the list
  -- of its entries does, the one used last first: an entry is answered until it has expired, is
  -- deleted or set anew, or is pushed beyond the bound by those used after it.
  pub answers-promised :
      (max ttl : ℕ) (nodes : Ptr → CacheNode V) (rs : List (Request V))
      → answers rs (create max ttl nodes) ≡ promised max ttl rs []
  answers-promised max ttl nodes rs =
      answers-Refines max ttl rs (create max ttl nodes) [] (create-Refines max ttl nodes)
