-- ===== src/Lifecycle/Forward.antt =====
-- What the moves keep, and so the requests: a settlement is for good, and a paid booking goes forward.
use upstride_api.Base.{
  ℕ, ◌≡◌, refl, ap, subst, ◌∙◌, ◌<◌, ◌⊎◌, inl, Bool, true, false, List, some, arith,
}
use upstride_api.Store.{World, Booking, BookingStatus, ok, is_err, find_booking, is_paid}
use upstride_api.Payment.Confirm.Slots.{IsUnique}
use upstride_api.Booking.Settle.{settle_ended_session}
use upstride_api.Booking.Settle.Once.{settled-refuses, settle-IsSettled}
use upstride_api.Lifecycle.{Life, life, Move, Lives, here, next, Request, serve_all, has_failure}
use upstride_api.Lifecycle.Settles.{settle-IsEvolving}
use upstride_api.Lifecycle.Served.{serve_all-Lives}

Move-settled : {x : Bool} {s t : Life} → Move x s t → s.settled ≡ true → t.settled ≡ true
Move-settled (Move.pay p q) h = ap (λ (l : Life). l.settled) q ∙ h
Move-settled (Move.fail p q) h = ap (λ (l : Life). l.settled) q ∙ h
Move-settled (Move.lose_slot p q) h = ap (λ (l : Life). l.settled) q ∙ h
Move-settled (Move.cancel_as_mentee p q) h = ap (λ (l : Life). l.settled) q ∙ h
Move-settled (Move.cancel_as_mentor p q) h = ap (λ (l : Life). l.settled) q ∙ h
Move-settled (Move.start p q) h = ap (λ (l : Life). l.settled) q ∙ h
Move-settled (Move.finish p q) h = ap (λ (l : Life). l.settled) q ∙ h
Move-settled (Move.settle p q) h = ap (λ (l : Life). l.settled) q

Lives-settled : {x : Bool} {s t : Life} → Lives x s t → s.settled ≡ true → t.settled ≡ true
Lives-settled here h = h
Lives-settled (next r m) h = Move-settled m (Lives-settled r h)

-- A session is settled once: after a settlement that returned, whatever requests and payment events come,
-- settling it again returns and changes nothing.
pub settle-serve_all-settle :
    (rs : List Request) (i : ℕ) (w : World) (b : Booking)
    → IsUnique w.bookings
    → find_booking i w ≡ some b
    → is_err (settle_ended_session i w).0 ≡ false
    → let w' = serve_all rs (settle_ended_session i w).1 in settle_ended_session i w' ≡ (ok tt, w')
settle-serve_all-settle rs i w b u e h =
    let w1 = (settle_ended_session i w).1 in
    let (c, at, s) = settle-IsSettled i w b e h in
    let (d, (found, l)) = serve_all-Lives rs w1 i c (settle-IsEvolving false i w u).0 at in
    settled-refuses i (serve_all rs w1) (d, found, Lives-settled l s)

-- How far a booking has come.
abbrev pub stage : BookingStatus → ℕ
stage BookingStatus.pending = 0
stage BookingStatus.slot_taken_by_another_user = 0
stage BookingStatus.confirmed = 1
stage BookingStatus.started = 2
stage BookingStatus.cancelled_by_mentee = 2
stage BookingStatus.cancelled_by_mentor = 2
stage BookingStatus.completed = 3

-- It is paid, and as far as before or further.
abbrev pub IsForward : Life → Life → Type 0
IsForward s t =
    (is_paid t.payment ≡ true) × ((t.status ≡ s.status) ⊎ (stage s.status < stage t.status))

Move-IsForward : {s t : Life} → Move false s t → is_paid s.payment ≡ true → IsForward s t
Move-IsForward {s} {t} (Move.pay p q) h = ground arith
Move-IsForward {s} {t} (Move.fail p q) h = ground arith
Move-IsForward {s} {t} (Move.lose_slot p q) h = ground arith
Move-IsForward {s} {t} (Move.cancel_as_mentee p q) h = ground arith
Move-IsForward {s} {t} (Move.cancel_as_mentor p q) h = ground arith
Move-IsForward {s} {t} (Move.start p q) h = ground arith
Move-IsForward {s} {t} (Move.finish p q) h = ground arith
Move-IsForward {s} {t} (Move.settle p q) h = ground arith

IsForward-trans : (s t u : Life) → IsForward s t → IsForward t u → IsForward s u
IsForward-trans s t u p q = ground arith

Lives-IsForward : {s t : Life} → Lives false s t → is_paid s.payment ≡ true → IsForward s t
Lives-IsForward here h = (h, inl refl)
Lives-IsForward {s} {t} (next {t = v} r m) h =
    let p = Lives-IsForward r h in IsForward-trans s v t p (Move-IsForward m p.0)

-- While no checkout ends without a payment, a booking that is paid for stays so and only goes forward:
-- it keeps its status or reaches a later one of pending, confirmed, started or cancelled, and completed.
-- In particular it does not lose its slot.
pub serve_all-IsForward :
    (rs : List Request) (w : World) (i : ℕ) (b : Booking)
    → IsUnique w.bookings
    → find_booking i w ≡ some b
    → is_paid b.payment_status ≡ true
    → has_failure rs ≡ false
    → (c : Booking) × ((find_booking i (serve_all rs w) ≡ some c) × IsForward (life b) (life c))
serve_all-IsForward rs w i b u e paid quiet =
    let (c, (found, l)) = serve_all-Lives rs w i b u e in
    (c, (found, Lives-IsForward (subst (λ x. Lives x (life b) (life c)) quiet l) paid))
