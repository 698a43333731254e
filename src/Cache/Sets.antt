-- ===== src/Cache/Sets.antt =====
-- What `set` does to a cache that holds some entries.
use upstride_api.Base.{
  ℕ, suc, ◌+◌, ◌<◌, ◌≡◌, sym, ap, subst, ◌∙◌, true, false, ◌||◌, Option, none, some, [], ◌∷◌, ◌++◌,
  ◌==◌, ==_iff, inl, inr, arith, if◌then◌else◌, length, Bool-cases,
}
use upstride_api.Cache.{Ptr, CacheNode, LruCache, NodeMap, map_set, write, add_to_head, insert}
use upstride_api.Cache.Spec.{Entry}
use upstride_api.Cache.Chain.{
  Cells, has, first_or, last_or, node, has-append, first_or-append, last_or-append, IsChain-write,
  IsChain-split, IsChain-join, AreDistinct,
}
use upstride_api.Cache.Links.{IsLinked, IsAdded, add_to_head-IsAdded, has-before, AreDistinct-split}
use upstride_api.Cache.Keys.{address, length-insert_at, address-replace, AreKeysDistinct-replace}
use upstride_api.Cache.Moves.{Represents, IsMoved}

at-set :
    (k p j : ℕ) (m : NodeMap) (a : Option Ptr)
    → m.at j ≡ a
    → (map_set k p m).at j ≡ (if k == j then some p else a)
unfolding map_set
at-set k p j m a h = ground (arith, ==_iff k j, ==_iff j k)

size-set : (k p n : ℕ) (m : NodeMap) → m.at k ≡ none → m.size ≡ n → (map_set k p m).size ≡ suc n
unfolding map_set
size-set k p n m h s = ground arith

module _ {ℓ} {V : Type ℓ} where
  not_used : (c : LruCache V) (xs : Cells V) → Represents c xs → has c.fresh xs ≡ false
  not_used c xs h = elim (Bool-cases (has c.fresh xs)) [
    | inl t ↦ absurd (omega (arith, h.used c.fresh t))
    | inr n ↦ n
  ]

  written : (nodes : Ptr → CacheNode V) (p : Ptr) (n : CacheNode V) → write p n nodes p ≡ n
  unfolding write
  written nodes p n = ground (arith, ==_iff p p)

  -- A new key gets a node of its own at the head.
  pub insert-IsMoved :
      (now key : ℕ) (value : V) (c : LruCache V) (xs : Cells V)
      → Represents c xs
      → c.map.at key ≡ none
      → IsMoved c
          (insert now key value c)
          ((c.fresh, record { key = key; value = value; expiry = now + c.ttl }) ∷ xs)
  unfolding insert
  insert-IsMoved now key value c xs h n =
      let e : Entry V = record { key = key; value = value; expiry = now + c.ttl } in
      let c' : LruCache V = record c {
        nodes = write c.fresh (node e none none) c.nodes;
        map = map_set key c.fresh c.map;
        fresh = suc c.fresh;
      } in
      let out : has c.fresh xs ≡ false = not_used c xs h in
      let linked : IsLinked c' xs = record {
        chain = IsChain-write c.nodes c.fresh (node e none none) none none xs out h.linked.chain;
        head = h.linked.head;
        tail = h.linked.tail;
        distinct = h.linked.distinct;
      } in
      let a : IsAdded c' c.fresh e xs (add_to_head c.fresh c') =
        add_to_head-IsAdded c' c.fresh e none none xs linked out
          (written c.nodes c.fresh (node e none none)) in
      record {
        represents = record {
          linked = a.linked;
          at = λ k.
              ap (λ (m : NodeMap). m.at k) a.map
              ∙ at-set key c.fresh k c.map (address k xs) (h.at k);
          size =
              ap (λ (m : NodeMap). m.size) a.map ∙ size-set key c.fresh (length xs) c.map n h.size;
          keys = (sym (h.at key) ∙ n, h.keys);
          used = λ q i. subst (λ m. q < m) (sym a.fresh) (below q i);
        };
        max = a.max;
        ttl = a.ttl;
      }
    where
      below : (q : Ptr) → (q == c.fresh || has q xs) ≡ true → q < suc c.fresh
      below q i = elim (Bool-cases (has q xs)) [
        | inl t ↦ omega (arith, h.used q t)
        | inr f ↦ ground (arith, ==_iff q c.fresh)
      ]

  written_value :
      (nodes : Ptr → CacheNode V) (p : Ptr) (e f : Entry V) (prev next : Option Ptr)
      → e.key ≡ f.key
      → nodes p ≡ node e prev next
      → write p (record (nodes p) { value = f.value; expiry = f.expiry }) nodes p ≡ node f prev next
  unfolding write
  written_value nodes p e f prev next k h = ground (arith, ==_iff p p)

  has-replace :
      (q p : Ptr) (e f : Entry V) (xs ys : Cells V)
      → has q (xs ++ (p, e) ∷ ys) ≡ has q (xs ++ (p, f) ∷ ys)
  has-replace q p e f xs ys = has-append q xs ((p, e) ∷ ys) ∙ sym (has-append q xs ((p, f) ∷ ys))

  AreDistinct-replace :
      (p : Ptr) (e f : Entry V) (xs ys : Cells V)
      → AreDistinct (xs ++ (p, e) ∷ ys)
      → AreDistinct (xs ++ (p, f) ∷ ys)
  AreDistinct-replace p e f [] ys d = d
  AreDistinct-replace p e f ((q, g) ∷ xs) ys d =
      (sym (has-replace q p e f xs ys) ∙ d.0, AreDistinct-replace p e f xs ys d.1)

  -- The entry of a cell is written over by one of the same key.
  pub write-Represents :
      (c : LruCache V) (p : Ptr) (e f : Entry V) (xs ys : Cells V)
      → e.key ≡ f.key
      → Represents c (xs ++ (p, e) ∷ ys)
      → Represents
          (record c {
            nodes = write p (record (c.nodes p) { value = f.value; expiry = f.expiry }) c.nodes;
          })
          (xs ++ (p, f) ∷ ys)
  write-Represents c p e f xs ys key h =
      let n = record (c.nodes p) { value = f.value; expiry = f.expiry } in
      let (before, after) = IsChain-split c.nodes none none xs ((p, e) ∷ ys) h.linked.chain in
      let (dx, dy) = AreDistinct-split xs ((p, e) ∷ ys) h.linked.distinct in
      record {
        linked = record {
          chain =
              IsChain-join (write p n c.nodes) none none xs ((p, f) ∷ ys)
                (IsChain-write c.nodes p n none (some p) xs (has-before p e xs ys h.linked.distinct)
                  before)
                (
                  written_value c.nodes p e f (last_or none xs) (first_or none ys) key after.0,
                  IsChain-write c.nodes p n (some p) none ys dy.0 after.1,
                );
          head =
              h.linked.head
              ∙ (first_or-append none xs ((p, e) ∷ ys)
                  ∙ sym (first_or-append none xs ((p, f) ∷ ys)));
          tail =
              h.linked.tail
              ∙ (last_or-append none xs ((p, e) ∷ ys) ∙ sym (last_or-append none xs ((p, f) ∷ ys)));
          distinct = AreDistinct-replace p e f xs ys h.linked.distinct;
        };
        at = λ k. h.at k ∙ address-replace k p e f xs ys key;
        size = h.size ∙ (length-insert_at p e xs ys ∙ sym (length-insert_at p f xs ys));
        keys = AreKeysDistinct-replace p e f xs ys key h.keys;
        used = λ q i. h.used q (has-replace q p e f xs ys ∙ i);
      }
