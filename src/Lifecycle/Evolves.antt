-- ===== src/Lifecycle/Evolves.antt =====
-- When the bookings of one state come from those of another: each is still there, one to an id, and its
-- life went by the moves.
use upstride_api.Base.{
  ℕ, ◌≡◌, refl, ◌≢◌, ◌==◌, ==_iff, Bool, false, none, some, List, [], ◌∷◌, arith, Bool-cases, inl,
  inr, sym, ◌∙◌, subst,
}
use upstride_api.Store.{
  find_key-update_self, key-find_key, Booking, find_key, update_key, booking_key,
}
use upstride_api.Payment.Confirm.Slots.{IsUnique}
use upstride_api.Lifecycle.{Life, life, Lives, here, next}

pub Lives-trans : {x : Bool} {s t u : Life} → Lives x s t → Lives x t u → Lives x s u
Lives-trans p here = p
Lives-trans p (next q m) = next (Lives-trans p q) m

abbrev pub Evolves : Bool → List Booking → List Booking → Type 0
Evolves x bs cs =
    IsUnique bs
    → IsUnique cs
      × ((j : ℕ) (b : Booking)
          → find_key booking_key j bs ≡ some b
          → (c : Booking) × ((find_key booking_key j cs ≡ some c) × Lives x (life b) (life c)))

module _ (x : Bool) where
  pub Evolves-same : (bs cs : List Booking) → cs ≡ bs → Evolves x bs cs
  Evolves-same bs cs e u = (subst (λ l. IsUnique l) (sym e) u, λ j b f. (b, (rw e f, here)))

  pub Evolves-trans :
      (bs cs ds : List Booking) → Evolves x bs cs → Evolves x cs ds → Evolves x bs ds
  Evolves-trans bs cs ds p q u =
      let (uc, pc) = p u in
      let (ud, qd) = q uc in
      (
        ud,
        λ j b f.
            let (c, (fc, lc)) = pc j b f in
            let (d, (fd, ld)) = qd j c fc in (d, (fd, Lives-trans lc ld)),
      )

-- The update keeps the id of the booking that it is made on.
abbrev KeepsId : ℕ → (Booking → Booking) → List Booking → Type 0
KeepsId i f bs = (b : Booking) → find_key booking_key i bs ≡ some b → (f b).id ≡ i

KeepsId-tail :
    (i : ℕ) (f : Booking → Booking) (b : Booking) (bs : List Booking)
    → (b.id == i) ≡ false
    → KeepsId i f (b ∷ bs)
    → KeepsId i f bs
KeepsId-tail i f b bs n k c e = k c (rw n e)

update_key-none :
    (i j : ℕ) (f : Booking → Booking) (bs : List Booking)
    → KeepsId i f bs
    → find_key booking_key j bs ≡ none
    → find_key booking_key j (update_key booking_key i f bs) ≡ none
unfolding update_key
update_key-none i j f [] k e = refl
update_key-none i j f (b ∷ bs) k e = elim (Bool-cases (b.id == i)) [
  | inl at ↦ ground (arith, k b)
  | inr off ↦ ground (arith, update_key-none i j f bs (KeepsId-tail i f b bs off k))
]

update_key-IsUnique :
    (i : ℕ) (f : Booking → Booking) (bs : List Booking)
    → KeepsId i f bs
    → IsUnique bs
    → IsUnique (update_key booking_key i f bs)
unfolding update_key
update_key-IsUnique i f [] k u = tt
update_key-IsUnique i f (b ∷ bs) k u = elim (Bool-cases (b.id == i)) [
  | inl at ↦ ground (arith, k b)
  | inr off ↦
      let tail = KeepsId-tail i f b bs off k in
      ground (arith, update_key-none i b.id f bs tail, update_key-IsUnique i f bs tail)
]

find_key-update_other :
    (i j : ℕ) (f : Booking → Booking) (bs : List Booking)
    → KeepsId i f bs
    → i ≢ j
    → find_key booking_key j (update_key booking_key i f bs) ≡ find_key booking_key j bs
unfolding update_key
find_key-update_other i j f [] k n = refl
find_key-update_other i j f (b ∷ bs) k n = elim (Bool-cases (b.id == i)) [
  | inl at ↦ ground (arith, k b)
  | inr off ↦ ground (arith, find_key-update_other i j f bs (KeepsId-tail i f b bs off k) n)
]

pub Evolves-update :
    (x : Bool) (i : ℕ) (f : Booking → Booking) (bs : List Booking)
    → KeepsId i f bs
    → ((b : Booking) → find_key booking_key i bs ≡ some b → Lives x (life b) (life (f b)))
    → Evolves x bs (update_key booking_key i f bs)
Evolves-update x i f bs k h u = (
  update_key-IsUnique i f bs k u,
  λ j b e. elim (Bool-cases (i == j)) [
    | inl same ↦
        let ij : j ≡ i = sym ((==_iff i j).0 same) in
        let e' : find_key booking_key i bs ≡ some b =
          subst (λ l. find_key booking_key l bs ≡ some b) ij e in
        (
          f b,
          (
            subst (λ l. find_key booking_key l (update_key booking_key i f bs) ≡ some (f b))
                (sym ij) (find_key-update_self booking_key i f bs b e' (k b e')),
            h b e',
          ),
        )
    | inr other ↦ (b, (find_key-update_other i j f bs k (ground (arith, ==_iff i j)) ∙ e, here))
  ],
)

module _ (x : Bool) (i : ℕ) (f : Booking → Booking) (bs : List Booking) (b : Booking)
    (e : find_key booking_key i bs ≡ some b) where
  -- An update of a booking that was found, by the id that was asked for or by its own.
  pub Evolves-update_found :
      (f b).id ≡ b.id → Lives x (life b) (life (f b)) → Evolves x bs (update_key booking_key i f bs)
  Evolves-update_found k h =
      let found : (c : Booking) → find_key booking_key i bs ≡ some c → b ≡ c =
        λ c e'. ground arith in
      Evolves-update x i f bs
        (λ c e'. subst (λ d. (f d).id ≡ i) (found c e') (k ∙ key-find_key booking_key i bs b e))
        (λ c e'. subst (λ d. Lives x (life d) (life (f d))) (found c e') h)

  pub Evolves-update_own :
      (f b).id ≡ b.id
      → Lives x (life b) (life (f b))
      → Evolves x bs (update_key booking_key b.id f bs)
  Evolves-update_own k h =
      subst (λ j. Evolves x bs (update_key booking_key j f bs))
        (sym (key-find_key booking_key i bs b e)) (Evolves-update_found k h)
