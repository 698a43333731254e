-- ===== src/Tests/Lifecycle.antt =====
-- Runs of the live call and of sequences of requests.
use upstride_api.Base.{◌*◌, ◌≡◌, ◌⊎◌, refl, true, false, none, some, List, [], ◌∷◌, ◌+ℤ◌}
use upstride_api.Store.{
  World, Booking, BookingStatus, ok, is_err, unit, find_booking, find_user, update_booking,
  record_completed_session, update_mentor, update_key, increment_balance, create_coin_transaction,
  create_notification, increment_platform_balance, create_payment,
}
use upstride_api.Wallet.{credit}
use upstride_api.Money.{calculate}
use upstride_api.Wallet.Balance.{balance}
use upstride_api.Booking.Settle.{
  settle_ended_session, settle_found, settle_paid, settle_joined, credit_mentor,
}
use upstride_api.Booking.Settle.Balances.{share}
use upstride_api.LiveCall.{JoinSessionOutput, join_session, terminate_session}
use upstride_api.LiveCall.Cases.{MayJoin, IsHosted, IsVisited, join_session_lem}
use upstride_api.LiveCall.Payout.{balance-terminate_settle}
use upstride_api.Lifecycle.{Request, serve_all, Lives, life}
use upstride_api.Lifecycle.Served.{serve_all-Lives}
use upstride_api.Lifecycle.Forward.{settle-serve_all-settle, serve_all-IsForward, IsForward}
use upstride_api.Payment.Confirm.Slots.{IsUnique}
use upstride_api.Tests.Bookings.{settle_returns}
use upstride_api.Tests.{world, hour, paid_booking}

-- Five minutes before the session.
abbrev before : World
before = record world { now = 72 * hour }

join_session_lem_example :
    let r = join_session 100 2 before in
    (¬ MayJoin 2 paid_booking before × ((is_err r.0 ≡ true) × (r.1 ≡ before)))
    ⊎ (MayJoin 2 paid_booking before
        × ((o : JoinSessionOutput) × ((r.0 ≡ ok o)
              × ((o.room_id ≡ 100)
                  × (IsHosted (some 2) paid_booking (72 * hour) o (find_booking 100 r.1) 2
                      ⊎ IsVisited (some 2) paid_booking o (find_booking 100 r.1) 2)))))
join_session_lem_example = join_session_lem 100 2 before paid_booking refl

-- The mentee has cancelled the session; it would have ended by now.
abbrev cancelled : Booking
cancelled = record paid_booking { status = BookingStatus.cancelled_by_mentee }

abbrev after : World
after = record world { now = 73 * hour; bookings = cancelled ∷ [] }

settle_after : is_err (settle_ended_session 100 (terminate_session 100 2 none after).1).0 ≡ false
unfolding settle_ended_session terminate_session update_booking record_completed_session
    update_mentor update_key settle_found settle_paid settle_joined credit_mentor calculate credit
    increment_balance create_coin_transaction create_notification increment_platform_balance ◌+ℤ◌
    create_payment
settle_after = refl

balance-terminate_settle_example :
    let ended = terminate_session 100 2 none after in
    (ended.0 ≡ ok tt)
    × (balance (find_user 2 (settle_ended_session 100 ended.1).1)
        ≡ balance (find_user 2 after)
          +ℤ share 2 2
              ((calculate cancelled.payment_type cancelled.total_amount).mentor_coins * unit))
balance-terminate_settle_example =
    balance-terminate_settle 100 2 none after cancelled refl refl 2 refl refl settle_after

abbrev requests : List Request
requests =
    Request.wait (62 * hour)
    ∷ Request.join 100 2
    ∷ Request.wait hour
    ∷ Request.terminate 100 2 none
    ∷ Request.settle_session 100
    ∷ []

world-IsUnique : IsUnique world.bookings
world-IsUnique = (refl, (refl, (refl, tt)))

serve_all-Lives_example :
    (c : Booking) × ((find_booking 100 (serve_all requests world) ≡ some c)
      × Lives false (life paid_booking) (life c))
serve_all-Lives_example = serve_all-Lives requests world 100 paid_booking world-IsUnique refl

serve_all-IsForward_example :
    (c : Booking) × ((find_booking 100 (serve_all requests world) ≡ some c)
      × IsForward (life paid_booking) (life c))
serve_all-IsForward_example =
    serve_all-IsForward requests world 100 paid_booking world-IsUnique refl refl refl

settle-serve_all-settle_example :
    let w' = serve_all requests (settle_ended_session 100 world).1 in
    settle_ended_session 100 w' ≡ (ok tt, w')
settle-serve_all-settle_example =
    settle-serve_all-settle requests 100 world paid_booking world-IsUnique refl settle_returns
