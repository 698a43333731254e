-- ===== src/Lifecycle/Payments.antt =====
-- What a payment provider's event does to the bookings, as moves of their lives.
use upstride_api.Base.{
  ℕ, ◌≡◌, refl, ◌∙◌, ◌⊎◌, Bool, true, false, inl, inr, Option, none, some, List, [], ◌∷◌, arith,
  Option-cases, Bool-cases, ◌==◌, ==_iff, filter, filter-filter,
}
use upstride_api.Store.{
  World, Booking, find_booking, find_key, update_key, booking_key, is_paid, mentor_user_id,
  find_key-update_self, find_key-update_ne, key-find_key, update_booking, find_by_mentor_and_date,
  increment_balance, create_coin_transaction, create_payment, update_payment_status,
}
use upstride_api.Wallet.{credit}
use upstride_api.Payment.Confirm.{
  ConfirmBookingPaymentParams, confirm, confirm_found, paid_update, lose_slot,
}
use upstride_api.Payment.Confirm.Slots.{lost, find_key-lost, has_id-filter}
use upstride_api.Payment.Confirm.Once.{
  paid_bookings, confirm_found-bookings, confirm-unpaid, paid-confirm, none-confirm,
}
use upstride_api.Payment.Confirm.DoubleBooking.{IsUnique-lost}
use upstride_api.Payment.Topup.{PaymentEvent, process_wallet_topup, topup, upsert}
use upstride_api.Payment.Webhook.{
  PaymentEventType, process_payment_event, deliver, handle_completed, handle_expired, handle_failed,
  handle_failure, with_failed_payment,
}
use upstride_api.Lifecycle.{life, Move, here, Request, is_failure}
use upstride_api.Lifecycle.Evolves.{
  Evolves, Evolves-same, Evolves-trans, Evolves-update, Evolves-update_own,
}
use upstride_api.Lifecycle.Operations.{IsEvolving, Lives-move}

-- A booking keeps its place or loses it, however often it is in the list.
find_key-lost_cases :
    (i : ℕ) (ss bs : List Booking) (b : Booking)
    → find_key booking_key i bs ≡ some b
    → (find_key booking_key i (lost ss bs) ≡ some b)
      ⊎ (find_key booking_key i (lost ss bs) ≡ some (lose_slot b))
unfolding lost
find_key-lost_cases i [] bs b e = inl e
find_key-lost_cases i (s ∷ ss) bs b e = elim (Bool-cases (s.id == i)) [
  | inl same ↦
      let e' : find_key booking_key i (update_key booking_key s.id lose_slot bs)
          ≡ some (lose_slot b) =
        ground (
          arith,
          ==_iff s.id i,
          key-find_key booking_key i bs b e,
          find_key-update_self booking_key s.id lose_slot bs b,
        ) in
      elim (find_key-lost_cases i ss (update_key booking_key s.id lose_slot bs) (lose_slot b) e') [
        | inl p ↦ inr p
        | inr p ↦ inr p
      ]
  | inr other ↦ find_key-lost_cases i ss (update_key booking_key s.id lose_slot bs) b (
      ground (arith, ==_iff s.id i, find_key-update_ne booking_key s.id i lose_slot bs (λ c. refl)))
]

-- Only unpaid bookings lose their place.
lost-Evolves :
    (x : Bool) (q : Booking → Bool) (bs : List Booking)
    → ((b : Booking) → q b ≡ true → is_paid b.payment_status ≡ false)
    → Evolves x bs (lost (filter q bs) bs)
lost-Evolves x q bs h u = (
  IsUnique-lost (filter q bs) bs u,
  λ j b e. elim (Bool-cases (q b)) [
    | inl among ↦ elim (find_key-lost_cases j (filter q bs) bs b e) [
      | inl keeps ↦ (b, (keeps, here))
      | inr loses ↦
          (lose_slot b, (loses, Lives-move x (life b) _ (Move.lose_slot (h b among) refl)))
    ]
    | inr apart ↦
        (b, (find_key-lost j (filter q bs) bs (has_id-filter j q bs b u e apart) ∙ e, here))
  ],
)

confirm_found-Evolves :
    (x : Bool) (p : ConfirmBookingPaymentParams) (b : Booking) (m : Option ℕ) (w : World) (i : ℕ)
    → find_booking i w ≡ some b
    → is_paid b.payment_status ≡ false
    → Evolves x w.bookings (confirm_found p b m w).1.bookings
unfolding find_by_mentor_and_date
confirm_found-Evolves x p b m w i e unpaid = rw (confirm_found-bookings p b m w) (
    Evolves-trans x w.bookings (paid_bookings b w).bookings _
      (Evolves-update_own x i (paid_update b) w.bookings b e refl
        (Lives-move x (life b) _ (Move.pay unpaid refl)))
      (rw filter-filter (lost-Evolves x _ (paid_bookings b w).bookings (λ c stale. ground arith))))

confirm-IsEvolving : (x : Bool) (p : ConfirmBookingPaymentParams) → IsEvolving x (confirm p)
confirm-IsEvolving x p w = elim (Option-cases (find_booking p.booking_id w)) [
  | inl e ↦ rw (none-confirm p w e) (Evolves-same x w.bookings _ refl)
  | inr (b, e) ↦ elim (Bool-cases (is_paid b.payment_status)) [
    | inl paid ↦ rw (paid-confirm p w b e paid) (Evolves-same x w.bookings _ refl)
    | inr unpaid ↦
        rw (confirm-unpaid p w b e unpaid)
          (confirm_found-Evolves x p b (mentor_user_id w b) w p.booking_id e unpaid)
  ]
]

topup-bookings : (e : PaymentEvent) (w : World) → (process_wallet_topup e w).1.bookings ≡ w.bookings
unfolding process_wallet_topup topup upsert credit increment_balance create_coin_transaction
    create_payment update_payment_status
topup-bookings e w = ground arith

completed-none :
    (e : PaymentEvent) (w : World)
    → e.booking ≡ none
    → handle_completed e w ≡ process_wallet_topup e w
unfolding handle_completed
completed-none e w n = ground arith

abbrev confirmation : PaymentEvent → ℕ → ConfirmBookingPaymentParams
confirmation e i = record {
  booking_id = i;
  session_id = e.session_id;
  amount_minor = e.amount_minor;
  currency = e.currency;
}

completed-some :
    (e : PaymentEvent) (i : ℕ) (w : World)
    → e.booking ≡ some i
    → handle_completed e w ≡ confirm (confirmation e i) w
unfolding handle_completed
completed-some e i w n = ground arith

completed-IsEvolving : (x : Bool) (e : PaymentEvent) → IsEvolving x (handle_completed e)
completed-IsEvolving x e w = elim (Option-cases e.booking) [
  | inl n ↦ rw (completed-none e w n) (Evolves-same x w.bookings _ (topup-bookings e w))
  | inr (i, n) ↦ rw (completed-some e i w n) (confirm-IsEvolving x (confirmation e i) w)
]

failing-Evolves :
    (i : ℕ) (bs : List Booking) → Evolves true bs (update_key booking_key i with_failed_payment bs)
failing-Evolves i bs =
    Evolves-update true i with_failed_payment bs (key-find_key booking_key i bs)
      (λ b e. Lives-move true (life b) _ (Move.fail refl refl))

-- The bookings after the end of a checkout without a payment.
abbrev failed_bookings : Option ℕ → List Booking → List Booking
failed_bookings none bs = bs
failed_bookings (some i) bs = update_key booking_key i with_failed_payment bs

failed_bookings-Evolves :
    (o : Option ℕ) (bs : List Booking) → Evolves true bs (failed_bookings o bs)
failed_bookings-Evolves none bs = Evolves-same true bs bs refl
failed_bookings-Evolves (some i) bs = failing-Evolves i bs

handle_expired-bookings :
    (e : PaymentEvent) (w : World)
    → (handle_expired e w).1.bookings ≡ failed_bookings e.booking w.bookings
unfolding handle_expired update_booking handle_failure update_payment_status
handle_expired-bookings e w = ground arith

handle_failed-bookings :
    (e : PaymentEvent) (w : World)
    → (handle_failed e w).1.bookings ≡ failed_bookings e.booking w.bookings
unfolding handle_failed update_booking handle_failure update_payment_status
handle_failed-bookings e w = ground arith

pub payment-IsEvolving :
    (type : PaymentEventType) (e : PaymentEvent)
    → IsEvolving (is_failure (Request.payment type e)) (process_payment_event type e)
unfolding process_payment_event deliver
payment-IsEvolving PaymentEventType.completed e w = completed-IsEvolving false e w
payment-IsEvolving PaymentEventType.expired e w =
    rw (handle_expired-bookings e w) (failed_bookings-Evolves e.booking w.bookings)
payment-IsEvolving PaymentEventType.async_payment_failed e w =
    rw (handle_failed-bookings e w) (failed_bookings-Evolves e.booking w.bookings)
payment-IsEvolving PaymentEventType.other e w = Evolves-same false w.bookings _ refl
