-- ===== src/Cache.antt =====
-- src/infrastructure/cache/lru-cache.ts: nodes are at addresses, and a reference is an address or null.
-- Keys are numbered. The `Map` of the nodes is what it answers and its size.
pub mod Spec
pub mod Chain
pub mod Links
pub mod Keys
pub mod Moves
pub mod Sets
pub mod Evicts
pub mod Refines
pub mod Served
pub mod Kept
use upstride_api.Base.{
  ℕ, suc, ◌+◌, ◌-◌, Bool, Option, none, some, List, [], ◌∷◌, ltb, ◌==◌, is_some, if◌then◌else◌,
}

abbrev pub Ptr : Type 0
Ptr = ℕ

pub record CacheNode {ℓ} (V : Type ℓ) : Type ℓ where
  pub key : ℕ
  pub value : V
  pub expiry : ℕ
  pub prev : Option Ptr
  pub next : Option Ptr

pub record NodeMap : Type 0 where
  pub at : ℕ → Option Ptr
  pub size : ℕ

pub record LruCache {ℓ} (V : Type ℓ) : Type ℓ where
  pub max : ℕ
  pub ttl : ℕ
  pub map : NodeMap
  pub head : Option Ptr
  pub tail : Option Ptr
  pub nodes : Ptr → CacheNode V
  -- The address that the next node gets.
  pub fresh : Ptr

unfoldable pub map_set : ℕ → Ptr → NodeMap → NodeMap
map_set key p m = record {
  at = λ k. if k == key then some p else m.at k;
  size = if is_some (m.at key) then m.size else m.size + 1;
}

unfoldable pub map_delete : ℕ → NodeMap → NodeMap
map_delete key m = record {
  at = λ k. if k == key then none else m.at k;
  size = if is_some (m.at key) then m.size - 1 else m.size;
}

module _ {ℓ} {V : Type ℓ} where
  unfoldable pub write : Ptr → CacheNode V → (Ptr → CacheNode V) → Ptr → CacheNode V
  write p n nodes q = if q == p then n else nodes q

  -- `p.next = q` and `p.prev = q`, where `p` is not null.
  abbrev pub set_next : Option Ptr → Option Ptr → (Ptr → CacheNode V) → Ptr → CacheNode V
  set_next none q nodes = nodes
  set_next (some p) q nodes = write p (record (nodes p) { next = q }) nodes

  abbrev pub set_prev : Option Ptr → Option Ptr → (Ptr → CacheNode V) → Ptr → CacheNode V
  set_prev none q nodes = nodes
  set_prev (some p) q nodes = write p (record (nodes p) { prev = q }) nodes

  -- `new LRUCache(max, ttl)`; `nodes` is what no node is written over yet.
  unfoldable pub create : (max ttl : ℕ) → (Ptr → CacheNode V) → LruCache V
  create max ttl nodes = record {
    max = max;
    ttl = ttl;
    map = record { at = λ k. none; size = 0 };
    head = none;
    tail = none;
    nodes = nodes;
    fresh = 0;
  }

  -- The two halves of `removeNode`.
  unfoldable pub remove_before : Ptr → LruCache V → LruCache V
  remove_before p c =
      let n = c.nodes p in
      record c {
        nodes = set_next n.prev n.next c.nodes;
        head = if is_some n.prev then c.head else n.next;
      }

  unfoldable pub remove_after : Ptr → LruCache V → LruCache V
  remove_after p c =
      let n = c.nodes p in
      record c {
        nodes = set_prev n.next n.prev c.nodes;
        tail = if is_some n.next then c.tail else n.prev;
      }

  unfoldable pub remove_node : Ptr → LruCache V → LruCache V
  remove_node p c = remove_after p (remove_before p c)

  unfoldable pub add_to_head : Ptr → LruCache V → LruCache V
  add_to_head p c =
      let nodes = write p (record (c.nodes p) { next = c.head; prev = none }) c.nodes in
      record c {
        nodes = set_prev c.head (some p) nodes;
        head = some p;
        tail = if is_some c.tail then c.tail else some p;
      }

  unfoldable pub move_to_head : Ptr → LruCache V → LruCache V
  move_to_head p c = add_to_head p (remove_node p c)

  unfoldable pub delete : ℕ → LruCache V → LruCache V
  delete key c = elim (c.map.at key) [
    | none ↦ c
    | some p ↦ let c' = remove_node p c in record c' { map = map_delete key c'.map }
  ]

  unfoldable pub evict_lru : LruCache V → LruCache V
  evict_lru c = elim c.tail [ none ↦ c | some p ↦ delete (c.nodes p).key c ]

  unfoldable pub get : (now key : ℕ) → LruCache V → Option V × LruCache V
  get now key c = elim (c.map.at key) [
    | none ↦ (none, c)
    | some p ↦
        if ltb (c.nodes p).expiry now
        then (none, delete key c)
        else let c' = move_to_head p c in (some (c'.nodes p).value, c')
  ]

  -- A new node, that is in the map and at the head.
  unfoldable pub insert : (now key : ℕ) → V → LruCache V → LruCache V
  insert now key value c =
      let n : CacheNode V = record {
        key = key;
        value = value;
        expiry = now + c.ttl;
        prev = none;
        next = none;
      } in
      add_to_head c.fresh (record c {
        nodes = write c.fresh n c.nodes;
        map = map_set key c.fresh c.map;
        fresh = suc c.fresh;
      })

  unfoldable pub set : (now key : ℕ) → V → LruCache V → LruCache V
  set now key value c = elim (c.map.at key) [
    | some p ↦
        let n = record (c.nodes p) { value = value; expiry = now + c.ttl } in
        move_to_head p (record c { nodes = write p n c.nodes })
    | none ↦ let c' = insert now key value c in if ltb c'.max c'.map.size then evict_lru c' else c'
  ]
