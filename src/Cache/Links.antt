-- ===== src/Cache/Links.antt =====
-- What `removeNode` and `addToHead` do to a chain.
use upstride_api.Base.{
  ◌≡◌, refl, sym, subst, ◌∙◌, Bool, true, false, ◌||◌, Option, none, some, [], ◌∷◌, ◌++◌, ◌==◌,
  ==_iff, inl, inr, arith, if◌then◌else◌, is_some, Bool-cases,
}
use upstride_api.Cache.{
  Ptr, CacheNode, LruCache, write, set_next, set_prev, remove_before, remove_after, remove_node,
  add_to_head,
}
use upstride_api.Cache.Spec.{Entry}
use upstride_api.Cache.Chain.{
  Cells, has, AreDistinct, first_or, last_or, node, IsChain, has-append, last_or-append,
  IsChain-write, IsChain-split, IsChain-join, last_or-some, ne_of_has, IsChain-set_next,
  IsChain-set_prev,
}

or_true : (a b : Bool) → b ≡ true → (a || b) ≡ true
or_true true b h = refl
or_true false b h = h

not_true : (b : Bool) → (b ≡ true → ⊥) → b ≡ false
not_true true h = absurd (h refl)
not_true false h = refl

module _ {ℓ} {V : Type ℓ} where
  -- The cache's nodes are a chain from its head to its tail.
  pub record IsLinked (c : LruCache V) (xs : Cells V) : Type ℓ where
    pub chain : IsChain c.nodes none none xs
    pub head : c.head ≡ first_or none xs
    pub tail : c.tail ≡ last_or none xs
    pub distinct : AreDistinct xs

  pub AreDistinct-split :
      (xs ys : Cells V) → AreDistinct (xs ++ ys) → AreDistinct xs × AreDistinct ys
  AreDistinct-split [] ys d = (tt, d)
  AreDistinct-split ((p, e) ∷ xs) ys d =
      let (a, b) = AreDistinct-split xs ys d.1 in ((ground (arith, has-append p xs ys), a), b)

  pub has-before :
      (p : Ptr) (e : Entry V) (xs ys : Cells V) → AreDistinct (xs ++ (p, e) ∷ ys) → has p xs ≡ false
  has-before p e [] ys d = refl
  has-before p e ((q, f) ∷ xs) ys d = ground (
    arith,
    has-append q xs ((p, e) ∷ ys),
    ==_iff p q,
    ==_iff q p,
    ==_iff p p,
    has-before p e xs ys d.1,
  )

  AreDistinct-without :
      (p : Ptr) (e : Entry V) (xs ys : Cells V)
      → AreDistinct (xs ++ (p, e) ∷ ys)
      → AreDistinct (xs ++ ys)
  AreDistinct-without p e [] ys d = d.1
  AreDistinct-without p e ((q, f) ∷ xs) ys d = (
    ground (arith, has-append q xs ((p, e) ∷ ys), has-append q xs ys),
    AreDistinct-without p e xs ys d.1,
  )

  -- No node of a part is in the other.
  has-after :
      (q : Ptr) (xs ys : Cells V) → AreDistinct (xs ++ ys) → has q xs ≡ true → has q ys ≡ false
  has-after q [] ys d h = ground arith
  has-after q ((p, e) ∷ xs) ys d h = elim (Bool-cases (q == p)) [
    | inl e ↦
        subst (λ y. has y ys ≡ false) (sym ((==_iff q p).0 e)) (ground (arith, has-append p xs ys))
    | inr n ↦ ground (arith, has-after q xs ys d.1)
  ]

  IsChain-frame :
      (nodes new : Ptr → CacheNode V) (prev next : Option Ptr) (xs : Cells V)
      → ((q : Ptr) → has q xs ≡ true → new q ≡ nodes q)
      → IsChain nodes prev next xs
      → IsChain new prev next xs
  IsChain-frame nodes new prev next [] same h = tt
  IsChain-frame nodes new prev next ((p, e) ∷ xs) same h =
      let at : has p ((p, e) ∷ xs) ≡ true = ground (arith, ==_iff p p) in
      (
        same p at ∙ h.0,
        IsChain-frame nodes new (some p) next xs (λ q i. same q (or_true (q == p) (has q xs) i))
            h.1,
      )

  -- The writes of a removal are at the nodes beside it.
  set_next-out :
      (nodes : Ptr → CacheNode V) (q : Option Ptr) (xs : Cells V) (r : Ptr)
      → has r xs ≡ false
      → set_next (last_or none xs) q nodes r ≡ nodes r
  unfolding write
  set_next-out nodes q [] r out = refl
  set_next-out nodes q ((p, e) ∷ xs) r out =
      let (z, (a, b)) = last_or-some p xs in rw a (ground (arith, ne_of_has r z ((p, e) ∷ xs)))

  set_prev-out :
      (nodes : Ptr → CacheNode V) (q : Option Ptr) (xs : Cells V) (r : Ptr)
      → has r xs ≡ false
      → set_prev (first_or none xs) q nodes r ≡ nodes r
  unfolding write
  set_prev-out nodes q [] r out = refl
  set_prev-out nodes q ((p, e) ∷ xs) r out = ground arith

  remove_node_lem :
      (c : LruCache V) (p : Ptr) (e : Entry V) (prev next : Option Ptr)
      → c.nodes p ≡ node e prev next
      → set_next prev next c.nodes p ≡ c.nodes p
      → remove_node p c ≡ record c {
        nodes = set_prev next prev (set_next prev next c.nodes);
        head = if is_some prev then c.head else next;
        tail = if is_some next then c.tail else prev;
      }
  unfolding remove_node remove_before remove_after
  remove_node_lem c p e prev next h k = ground (arith)

  -- The part of a chain that a removal takes out, with the links that close the gap.
  pub record IsRemoved (c : LruCache V) (p : Ptr) (e : Entry V) (xs ys : Cells V) (d : LruCache V)
      : Type ℓ where
    pub linked : IsLinked d (xs ++ ys)
    pub content : d.nodes p ≡ node e (last_or none xs) (first_or none ys)
    pub map : d.map ≡ c.map
    pub max : d.max ≡ c.max
    pub ttl : d.ttl ≡ c.ttl
    pub fresh : d.fresh ≡ c.fresh

  head_without :
      (p : Ptr) (e : Entry V) (xs ys : Cells V) (head : Option Ptr)
      → head ≡ first_or none (xs ++ (p, e) ∷ ys)
      → (if is_some (last_or none xs) then head else first_or none ys) ≡ first_or none (xs ++ ys)
  head_without p e [] ys head h = refl
  head_without p e ((q, f) ∷ xs) ys head h = let (z, (a, b)) = last_or-some q xs in rw a h

  tail_without :
      (p : Ptr) (e : Entry V) (xs ys : Cells V) (tail : Option Ptr)
      → tail ≡ last_or none (xs ++ (p, e) ∷ ys)
      → (if is_some (first_or none ys) then tail else last_or none xs) ≡ last_or none (xs ++ ys)
  tail_without p e xs [] tail h = sym (last_or-append none xs [])
  tail_without p e xs ((q, f) ∷ ys) tail h =
      h
      ∙ (last_or-append none xs ((p, e) ∷ (q, f) ∷ ys) ∙ sym (last_or-append none xs ((q, f) ∷ ys)))

  removed-IsChain :
      (nodes : Ptr → CacheNode V) (p : Ptr) (e : Entry V) (xs ys : Cells V)
      → AreDistinct (xs ++ (p, e) ∷ ys)
      → IsChain nodes none none (xs ++ (p, e) ∷ ys)
      → let prev = last_or none xs in
        let next = first_or none ys in
        IsChain (set_prev next prev (set_next prev next nodes)) none none (xs ++ ys)
  removed-IsChain nodes p e xs ys d h =
      let prev = last_or none xs in
      let next = first_or none ys in
      let (before, after) = IsChain-split nodes none none xs ((p, e) ∷ ys) h in
      let (dx, dy) = AreDistinct-split xs ((p, e) ∷ ys) d in
      let apart : (q : Ptr) → has q xs ≡ true → has q ys ≡ false =
        λ q i. ground (arith, has-after q xs ((p, e) ∷ ys) d i) in
      let linked = set_next prev next nodes in
      let xs_before : IsChain linked none next xs =
        IsChain-set_next nodes none (some p) next xs dx before in
      let ys_before : IsChain linked (some p) none ys =
        IsChain-frame nodes linked (some p) none ys
          (λ q i. set_next-out nodes next xs q (not_true (has q xs) (λ t. cc (apart q t))))
          after.1 in
      IsChain-join (set_prev next prev linked) none none xs ys
        (IsChain-frame linked (set_prev next prev linked) none next xs
          (λ q i. set_prev-out linked prev ys q (apart q i)) xs_before)
        (IsChain-set_prev linked (some p) none prev ys dy.1 ys_before)

  pub remove_node-IsRemoved :
      (c : LruCache V) (p : Ptr) (e : Entry V) (xs ys : Cells V)
      → IsLinked c (xs ++ (p, e) ∷ ys)
      → IsRemoved c p e xs ys (remove_node p c)
  remove_node-IsRemoved c p e xs ys h =
      let prev = last_or none xs in
      let next = first_or none ys in
      let held : c.nodes p ≡ node e prev next =
        (IsChain-split c.nodes none none xs ((p, e) ∷ ys) h.chain).1.0 in
      let before : has p xs ≡ false = has-before p e xs ys h.distinct in
      let after : has p ys ≡ false = (AreDistinct-split xs ((p, e) ∷ ys) h.distinct).1.0 in
      let kept : set_next prev next c.nodes p ≡ c.nodes p = set_next-out c.nodes next xs p before in
      let content : set_prev next prev (set_next prev next c.nodes) p ≡ node e prev next =
        set_prev-out (set_next prev next c.nodes) prev ys p after ∙ (kept ∙ held) in
      rw (remove_node_lem c p e prev next held kept) (record {
        linked = record {
          chain = removed-IsChain c.nodes p e xs ys h.distinct h.chain;
          head = head_without p e xs ys c.head h.head;
          tail = tail_without p e xs ys c.tail h.tail;
          distinct = AreDistinct-without p e xs ys h.distinct;
        };
        content = content;
        map = refl;
        max = refl;
        ttl = refl;
        fresh = refl;
      })

  -- A node that is not in the chain becomes its head.
  pub record IsAdded (c : LruCache V) (p : Ptr) (e : Entry V) (xs : Cells V) (d : LruCache V)
      : Type ℓ where
    pub linked : IsLinked d ((p, e) ∷ xs)
    pub map : d.map ≡ c.map
    pub max : d.max ≡ c.max
    pub ttl : d.ttl ≡ c.ttl
    pub fresh : d.fresh ≡ c.fresh

  new_head :
      (nodes : Ptr → CacheNode V) (p : Ptr) (e : Entry V) (prev next head first : Option Ptr)
      → head ≡ first
      → nodes p ≡ node e prev next
      → write p (record (nodes p) { next = head; prev = none }) nodes p ≡ node e none first
  unfolding write
  new_head nodes p e prev next head first h held = ground (arith, ==_iff p p)

  tail_added :
      (p : Ptr) (xs : Cells V) (tail : Option Ptr)
      → tail ≡ last_or none xs
      → (if is_some tail then tail else some p) ≡ last_or (some p) xs
  tail_added p [] tail h = rw h refl
  tail_added p ((q, f) ∷ ys) tail h = let (z, (a, b)) = last_or-some q ys in rw h (rw a refl)

  pub add_to_head-IsAdded :
      (c : LruCache V) (p : Ptr) (e : Entry V) (prev next : Option Ptr) (xs : Cells V)
      → IsLinked c xs
      → has p xs ≡ false
      → c.nodes p ≡ node e prev next
      → IsAdded c p e xs (add_to_head p c)
  unfolding add_to_head
  add_to_head-IsAdded c p e prev next xs h out held =
      let n = record (c.nodes p) { next = c.head; prev = none } in
      let nodes = write p n c.nodes in
      let first : set_prev c.head (some p) nodes p ≡ node e none (first_or none xs) =
        subst (λ o. set_prev o (some p) nodes p ≡ node e none (first_or none xs)) (sym h.head)
          (set_prev-out nodes (some p) xs p out
            ∙ new_head c.nodes p e prev next c.head (first_or none xs) h.head held) in
      let rest : IsChain (set_prev c.head (some p) nodes) (some p) none xs =
        subst (λ o. IsChain (set_prev o (some p) nodes) (some p) none xs) (sym h.head)
          (IsChain-set_prev nodes none none (some p) xs h.distinct
            (IsChain-write c.nodes p n none none xs out h.chain)) in
      record {
        linked = record {
          chain = (first, rest);
          head = refl;
          tail = tail_added p xs c.tail h.tail;
          distinct = (out, h.distinct);
        };
        map = refl;
        max = refl;
        ttl = refl;
        fresh = refl;
      }
