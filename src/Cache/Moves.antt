-- ===== src/Cache/Moves.antt =====
-- A cache in memory that holds some entries, and what each private method does to them.
use upstride_api.Base.{
  ℕ, suc, ◌<◌, ◌≡◌, refl, sym, ap, subst, ◌∙◌, true, false, none, some, ◌∷◌, ◌++◌, ==_iff, inl, inr,
  arith, length, Option-cases,
}
use upstride_api.Cache.{
  Ptr, LruCache, NodeMap, map_delete, remove_node, add_to_head, move_to_head, delete,
}
use upstride_api.Cache.Spec.{Entry, remove}
use upstride_api.Cache.Chain.{Cells, has, entries, first_or, last_or, has-append, AreDistinct}
use upstride_api.Cache.Links.{
  IsLinked, IsRemoved, IsAdded, remove_node-IsRemoved, add_to_head-IsAdded, has-before,
  AreDistinct-split,
}
use upstride_api.Cache.Keys.{
  address, AreKeysDistinct, IsAt, address-some, address-none, length-insert_at,
  AreKeysDistinct-without, address-without, AreKeysDistinct-front, address-front,
}

size-delete :
    (k p : ℕ) (m : NodeMap) (n : ℕ) → m.at k ≡ some p → m.size ≡ suc n → (map_delete k m).size ≡ n
unfolding map_delete
size-delete k p m n h s = ground arith

module _ {ℓ} {V : Type ℓ} where
  -- The chain holds the cells, the map has their addresses, and no other node is in use.
  pub record Represents (c : LruCache V) (xs : Cells V) : Type ℓ where
    pub linked : IsLinked c xs
    pub at : (k : ℕ) → c.map.at k ≡ address k xs
    pub size : c.map.size ≡ length xs
    pub keys : AreKeysDistinct xs
    pub used : (q : Ptr) → has q xs ≡ true → q < c.fresh

  has-without :
      (q p : Ptr) (e : Entry V) (xs ys : Cells V)
      → has q (xs ++ ys) ≡ true
      → has q (xs ++ (p, e) ∷ ys) ≡ true
  has-without q p e xs ys h = ground (arith, has-append q xs ys, has-append q xs ((p, e) ∷ ys))

  has-at : (p : Ptr) (e : Entry V) (xs ys : Cells V) → has p (xs ++ (p, e) ∷ ys) ≡ true
  has-at p e xs ys = ground (arith, has-append p xs ((p, e) ∷ ys), ==_iff p p)

  at-delete :
      (k j : ℕ) (p : Ptr) (e : Entry V) (xs ys : Cells V) (m : NodeMap)
      → e.key ≡ k
      → AreKeysDistinct (xs ++ (p, e) ∷ ys)
      → m.at j ≡ address j (xs ++ (p, e) ∷ ys)
      → (map_delete k m).at j ≡ address j (xs ++ ys)
  unfolding map_delete
  at-delete k j p e xs ys m h d a = rw (address-without j p e xs ys d, a, h) refl

  delete_miss : (k : ℕ) (c : LruCache V) → c.map.at k ≡ none → delete k c ≡ c
  unfolding delete
  delete_miss k c n = ground arith

  delete_hit :
      (k p : ℕ) (c : LruCache V)
      → c.map.at k ≡ some p
      → delete k c ≡ record (remove_node p c) { map = map_delete k (remove_node p c).map }
  unfolding delete
  delete_hit k p c s = ground arith

  removed-Represents :
      (k p : ℕ) (c d : LruCache V) (e : Entry V) (xs ys : Cells V)
      → Represents c (xs ++ (p, e) ∷ ys)
      → c.map.at k ≡ some p
      → e.key ≡ k
      → IsRemoved c p e xs ys d
      → Represents (record d { map = map_delete k d.map }) (xs ++ ys)
  removed-Represents k p c d e xs ys h s key r = record {
    linked = record {
      chain = r.linked.chain;
      head = r.linked.head;
      tail = r.linked.tail;
      distinct = r.linked.distinct;
    };
    at = λ j. rw r.map (at-delete k j p e xs ys c.map key h.keys (h.at j));
    size =
        rw r.map
          (size-delete k p c.map (length (xs ++ ys)) s (h.size ∙ length-insert_at p e xs ys));
    keys = AreKeysDistinct-without p e xs ys h.keys;
    used = λ q i. subst (λ n. q < n) (sym r.fresh) (h.used q (has-without q p e xs ys i));
  }

  -- `delete` takes the key's entry out, if there is one.
  pub delete-Represents :
      (k : ℕ) (c : LruCache V) (xs : Cells V)
      → Represents c xs
      → (ys : Cells V) × (Represents (delete k c) ys
          × ((entries ys ≡ remove k (entries xs))
              × (((delete k c).max ≡ c.max) × ((delete k c).ttl ≡ c.ttl))))
  delete-Represents k c xs h = elim (Option-cases (c.map.at k)) [
    | inl n ↦ (
      xs,
      rw (delete_miss k c n) (h, (sym (address-none k xs (sym (h.at k) ∙ n)).1, (refl, refl))),
    )
    | inr (p, s) ↦
        let a : IsAt k p xs = address-some k p xs (sym (h.at k) ∙ s) in
        let whole : Represents c (a.before ++ (p, a.entry) ∷ a.after) =
          subst (Represents c) a.whole h in
        let r : IsRemoved c p a.entry a.before a.after (remove_node p c) =
          remove_node-IsRemoved c p a.entry a.before a.after whole.linked in
        (
          a.before ++ a.after,
          rw (delete_hit k p c s) (
            removed-Represents k p c (remove_node p c) a.entry a.before a.after whole s a.key r,
            (sym a.removed, (r.max, r.ttl)),
          ),
        )
  ]

  has-front :
      (q p : Ptr) (e : Entry V) (xs ys : Cells V)
      → has q ((p, e) ∷ (xs ++ ys)) ≡ true
      → has q (xs ++ (p, e) ∷ ys) ≡ true
  has-front q p e xs ys h = ground (arith, has-append q xs ys, has-append q xs ((p, e) ∷ ys))

  -- `moveToHead` puts a cell before the others.
  pub record IsMoved (c d : LruCache V) (xs : Cells V) : Type ℓ where
    pub represents : Represents d xs
    pub max : d.max ≡ c.max
    pub ttl : d.ttl ≡ c.ttl

  has-not-without :
      (q p : Ptr) (e : Entry V) (xs ys : Cells V)
      → AreDistinct (xs ++ (p, e) ∷ ys)
      → has p (xs ++ ys) ≡ false
  has-not-without q p e xs ys d =
      ground
        (arith, has-append p xs ys, has-before p e xs ys d, AreDistinct-split xs ((p, e) ∷ ys) d)

  pub move_to_head-IsMoved :
      (c : LruCache V) (p : Ptr) (e : Entry V) (xs ys : Cells V)
      → Represents c (xs ++ (p, e) ∷ ys)
      → IsMoved c (move_to_head p c) ((p, e) ∷ (xs ++ ys))
  unfolding move_to_head
  move_to_head-IsMoved c p e xs ys h =
      let d = remove_node p c in
      let r : IsRemoved c p e xs ys d = remove_node-IsRemoved c p e xs ys h.linked in
      let a : IsAdded d p e (xs ++ ys) (add_to_head p d) =
        add_to_head-IsAdded d p e (last_or none xs) (first_or none ys) (xs ++ ys) r.linked
          (has-not-without p p e xs ys h.linked.distinct) r.content in
      record {
        represents = record {
          linked = a.linked;
          at = λ k.
              ap (λ (m : NodeMap). m.at k) (a.map ∙ r.map)
              ∙ (h.at k ∙ address-front k p e xs ys h.keys);
          size =
              ap (λ (m : NodeMap). m.size) (a.map ∙ r.map) ∙ (h.size ∙ length-insert_at p e xs ys);
          keys = AreKeysDistinct-front p e xs ys h.keys;
          used = λ q i.
              subst (λ n. q < n) (sym (a.fresh ∙ r.fresh)) (h.used q (has-front q p e xs ys i));
        };
        max = a.max ∙ r.max;
        ttl = a.ttl ∙ r.ttl;
      }
