-- ===== src/Cache/Spec.antt =====
-- What a cache promises: a list of its entries, the one that was used last first.
use upstride_api.Base.{
  ℕ, zero, suc, ◌+◌, Option, none, some, List, [], ◌∷◌, ltb, ◌==◌, if◌then◌else◌,
}

pub record Entry {ℓ} (V : Type ℓ) : Type ℓ where
  pub key : ℕ
  pub value : V
  pub expiry : ℕ

module _ {ℓ} {V : Type ℓ} where
  abbrev pub lookup : ℕ → List (Entry V) → Option (Entry V)
  lookup key [] = none
  lookup key (e ∷ es) = if e.key == key then some e else lookup key es

  abbrev pub remove : ℕ → List (Entry V) → List (Entry V)
  remove key [] = []
  remove key (e ∷ es) = if e.key == key then es else e ∷ remove key es

  abbrev pub take : ℕ → List (Entry V) → List (Entry V)
  take zero es = []
  take (suc n) [] = []
  take (suc n) (e ∷ es) = e ∷ take n es

  -- An entry that has expired is dropped, any other that is asked for comes first.
  abbrev pub get_entry : (now key : ℕ) → List (Entry V) → Option V × List (Entry V)
  get_entry now key es = elim (lookup key es) [
    | none ↦ (none, es)
    | some e ↦ if ltb e.expiry now then (none, remove key es) else (some e.value, e ∷ remove key es)
  ]

  -- The new entry comes first, and those beyond the first `max` are dropped.
  abbrev pub set_entry : (max ttl now key : ℕ) → V → List (Entry V) → List (Entry V)
  set_entry max ttl now key value es =
      take max (record { key = key; value = value; expiry = now + ttl } ∷ remove key es)
