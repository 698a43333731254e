-- ===== src/Lifecycle/Operations.antt =====
-- What each use case does to the bookings, as moves of their lives.
use upstride_api.Base.{
  ℕ, ◌≡◌, refl, sym, ap, subst, Bool, inl, inr, Option, arith, Option-cases, Bool-cases,
}
use upstride_api.Store.{World, Action, Booking, find_booking, is_confirmed, is_completed}
use upstride_api.LiveCall.{
  join_session, joined, terminate_session, terminated, create_feedback, with_feedback,
}
use upstride_api.LiveCall.Cases.{
  join_session-none, join_session_cases, terminate_session-none, terminate_session_cases,
  create_feedback-none, create_feedback_cases, arrives,
}
use upstride_api.Lifecycle.{Life, life, Move, Lives, here, next}
use upstride_api.Lifecycle.Evolves.{Evolves, Evolves-same, Evolves-update_found, Evolves-update_own}

-- The call takes the bookings on, wherever it ends.
abbrev pub IsEvolving : Bool → {A : Type 0} → Action A → Type 0
IsEvolving x m = (w : World) → Evolves x w.bookings (m w).1.bookings

pub Lives-same : (x : Bool) (s t : Life) → t ≡ s → Lives x s t
Lives-same x s t e = subst (λ u. Lives x s u) (sym e) here

pub Lives-move : (x : Bool) (s t : Life) → Move x s t → Lives x s t
Lives-move x s t m = next here m

Lives-joined : (x : Bool) (b : Booking) (now : ℕ) → Lives x (life b) (life (joined b now b))
Lives-joined x b now = elim (Bool-cases (is_confirmed b.status)) [
  | inl due ↦ Lives-move x (life b) _ (Move.start due (ground arith))
  | inr not_due ↦ Lives-same x (life b) _ (ground arith)
]

pub join_session-IsEvolving : (x : Bool) (i u : ℕ) → IsEvolving x (join_session i u)
join_session-IsEvolving x i u w = elim (Option-cases (find_booking i w)) [
  | inl e ↦ rw (join_session-none i u w e) (Evolves-same x w.bookings _ refl)
  | inr (b, e) ↦ elim (join_session_cases i u w b e) [
    | inl (_, (_, same)) ↦ Evolves-same x w.bookings _ (ap (λ (v : World). v.bookings) same)
    | inr (_, (_, bs)) ↦ elim (Bool-cases (arrives u b w)) [
      | inl due ↦
          rw (bs, due)
            (Evolves-update_own x i (joined b w.now) w.bookings b e refl (Lives-joined x b w.now))
      | inr not_due ↦ rw (bs, not_due) (Evolves-same x w.bookings _ refl)
    ]
  ]
]

pub terminate_session-IsEvolving :
    (x : Bool) (i u : ℕ) (feedback : Option ℕ) → IsEvolving x (terminate_session i u feedback)
terminate_session-IsEvolving x i u feedback w = elim (Option-cases (find_booking i w)) [
  | inl e ↦ rw (terminate_session-none i u w feedback e) (Evolves-same x w.bookings _ refl)
  | inr (b, e) ↦ elim (terminate_session_cases i u w b e feedback) [
    | inl (_, (_, same)) ↦ Evolves-same x w.bookings _ (ap (λ (v : World). v.bookings) same)
    | inr (_, (_, bs)) ↦ elim (Bool-cases (is_completed b.status)) [
      | inl over ↦ rw (bs, over) (Evolves-same x w.bookings _ refl)
      | inr not_over ↦
          rw (bs, not_over)
            (Evolves-update_own x i (terminated feedback) w.bookings b e refl
              (Lives-move x (life b) _ (Move.finish not_over refl)))
    ]
  ]
]

pub create_feedback-IsEvolving : (x : Bool) (i u text : ℕ) → IsEvolving x (create_feedback i u text)
create_feedback-IsEvolving x i u text w = elim (Option-cases (find_booking i w)) [
  | inl e ↦ rw (create_feedback-none i u w text e) (Evolves-same x w.bookings _ refl)
  | inr (b, e) ↦ elim (create_feedback_cases i u w b e text) [
    | inl (_, (_, same)) ↦ Evolves-same x w.bookings _ (ap (λ (v : World). v.bookings) same)
    | inr (_, (_, bs)) ↦
        rw bs (Evolves-update_found x i (with_feedback text) w.bookings b e refl here)
  ]
]
