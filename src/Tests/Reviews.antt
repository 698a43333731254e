-- ===== src/Tests/Reviews.antt =====
-- Runs of the reviews.
use upstride_api.Base.{ℕ, ◌≡◌, ◌*◌, refl, inl, some, List, [], ◌∷◌}
use upstride_api.Store.{BookingStatus}
use upstride_api.Review.{Reviews, CreateReviewInput, create_review, review_error, rate, average}
use upstride_api.Review.Sound.{IsSound, create_reviews, create_reviews-IsSound}
use upstride_api.Money.{round_div}
use upstride_api.Tests.{world, paid_booking, hour}

-- Two sessions with the mentor are over and settled.
abbrev reviewed : Reviews
reviewed = record {
  base = record world {
    now = 80 * hour;
    bookings =
        record paid_booking { status = BookingStatus.completed; settled_at = some (74 * hour) }
        ∷ record paid_booking {
          id = 103;
          status = BookingStatus.completed;
          settled_at = some (75 * hour);
        }
        ∷ [];
  };
  reviews = [];
  avg_rating = λ m. 0;
}

-- The second is by another user, and the fourth is of a booking that has a review.
abbrev requests : List (ℕ × CreateReviewInput)
requests =
    (1, record { user_id = 1; booking_id = 100; rating = 5 })
    ∷ (2, record { user_id = 2; booking_id = 103; rating = 1 })
    ∷ (3, record { user_id = 1; booking_id = 103; rating = 4 })
    ∷ (4, record { user_id = 1; booking_id = 100; rating = 1 })
    ∷ []

reviews_run : (create_reviews requests reviewed).avg_rating 10 ≡ 450
unfolding create_review review_error rate average round_div
reviews_run = refl

reviewed-IsSound : IsSound reviewed
unfolding average
reviewed-IsSound = (tt, (tt, λ m. inl refl))

create_reviews-IsSound_example : IsSound (create_reviews requests reviewed)
create_reviews-IsSound_example = create_reviews-IsSound requests reviewed reviewed-IsSound
