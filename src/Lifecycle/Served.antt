-- ===== src/Lifecycle/Served.antt =====
-- Over any requests, the bookings' lives go by the moves.
use upstride_api.Base.{ℕ, ◌≡◌, refl, Bool, true, false, List, [], ◌∷◌, some, arith}
use upstride_api.Store.{World, Booking, find_booking}
use upstride_api.Payment.Confirm.Slots.{IsUnique}
use upstride_api.Lifecycle.{
  Life, life, Move, Lives, here, next, Request, serve, serve_all, is_failure, has_failure,
}
use upstride_api.Lifecycle.Evolves.{Evolves, Evolves-same, Evolves-trans}
use upstride_api.Lifecycle.Operations.{
  join_session-IsEvolving, terminate_session-IsEvolving, create_feedback-IsEvolving,
}
use upstride_api.Lifecycle.Settles.{cancel-IsEvolving, settle-IsEvolving, reschedule-IsEvolving}
use upstride_api.Lifecycle.Payments.{payment-IsEvolving}

serve-Evolves : (r : Request) (w : World) → Evolves (is_failure r) w.bookings (serve r w).bookings
unfolding serve
serve-Evolves (Request.join i u) w = join_session-IsEvolving false i u w
serve-Evolves (Request.terminate i u feedback) w = terminate_session-IsEvolving false i u feedback w
serve-Evolves (Request.give_feedback i u text) w = create_feedback-IsEvolving false i u text w
serve-Evolves (Request.cancel_by c u i reason) w = cancel-IsEvolving false c u i reason w
serve-Evolves (Request.reschedule i u from until) w = reschedule-IsEvolving false i u from until w
serve-Evolves (Request.settle_session i) w = settle-IsEvolving false i w
serve-Evolves (Request.payment type e) w = payment-IsEvolving type e w
serve-Evolves (Request.wait ms) w = Evolves-same false w.bookings _ refl

-- Where no payment may fail, none does where it may.
Move-weaken : {x y : Bool} {s t : Life} → (x ≡ true → y ≡ true) → Move x s t → Move y s t
Move-weaken h (Move.pay p q) = Move.pay p q
Move-weaken h (Move.fail p q) = Move.fail (h p) q
Move-weaken h (Move.lose_slot p q) = Move.lose_slot p q
Move-weaken h (Move.cancel_as_mentee p q) = Move.cancel_as_mentee p q
Move-weaken h (Move.cancel_as_mentor p q) = Move.cancel_as_mentor p q
Move-weaken h (Move.start p q) = Move.start p q
Move-weaken h (Move.finish p q) = Move.finish p q
Move-weaken h (Move.settle p q) = Move.settle p q

Lives-weaken : {x y : Bool} {s t : Life} → (x ≡ true → y ≡ true) → Lives x s t → Lives y s t
Lives-weaken h here = here
Lives-weaken h (next r m) = next (Lives-weaken h r) (Move-weaken h m)

Evolves-weaken :
    (x y : Bool) (bs cs : List Booking) → (x ≡ true → y ≡ true) → Evolves x bs cs → Evolves y bs cs
Evolves-weaken x y bs cs h p u =
    let (uc, pc) = p u in (uc, λ j b e. let (c, (f, l)) = pc j b e in (c, (f, Lives-weaken h l)))

serve_all-Evolves :
    (rs : List Request) (w : World) → Evolves (has_failure rs) w.bookings (serve_all rs w).bookings
unfolding serve_all
serve_all-Evolves [] w = Evolves-same false w.bookings _ refl
serve_all-Evolves (r ∷ rs) w =
    let fails = has_failure (r ∷ rs) in
    Evolves-trans fails w.bookings (serve r w).bookings _
      (Evolves-weaken (is_failure r) fails w.bookings _ (λ h. ground arith) (serve-Evolves r w))
      (Evolves-weaken (has_failure rs) fails (serve r w).bookings _ (λ h. ground arith)
        (serve_all-Evolves rs (serve r w)))

-- Whatever sequence of requests and payment events comes, in whichever order and whether they return
-- or throw, every booking is still there, one to its id, and its life went by the moves alone; a payment
-- fails only where one of them is the end of a checkout without a payment.
pub serve_all-Lives :
    (rs : List Request) (w : World) (i : ℕ) (b : Booking)
    → IsUnique w.bookings
    → find_booking i w ≡ some b
    → (c : Booking) × ((find_booking i (serve_all rs w) ≡ some c)
        × Lives (has_failure rs) (life b) (life c))
serve_all-Lives rs w i b u e = (serve_all-Evolves rs w u).1 i b e
