-- ===== src/Review/Sound.antt =====
-- What holds of the reviews and the ratings over any requests.
use upstride_api.Base.{
  ℕ, ◌+◌, ◌≤◌, ◌≡◌, ◌⊎◌, inl, inr, refl, sym, subst, ◌∙◌, true, false, none, some, List, [], ◌∷◌,
  ◌++◌, ◌==◌, ==_iff, All, All-++, arith, is_some, Option-cases, Bool-cases,
}
use upstride_api.Store.{
  World, Booking, BookingStatus, PaymentStatus, find_booking, find_mentor, key-find_key,
  booking_key,
}
use upstride_api.Review.{
  Review, Reviews, CreateReviewInput, find_by_booking_id, count, sum_ratings, average, rate,
  is_reviewable, new_review, review_error, add_review, create_review,
}

-- The review is of its booking's mentor by its mentee, its rating is in range, and the booking is
-- over, paid for, completed and settled.
abbrev pub IsOwn : World → Review → Type 0
IsOwn w r =
    (b : Booking) × ((find_booking r.booking_id w ≡ some b)
      × ((r.mentor_id ≡ b.mentor_id)
          × ((r.user_id ≡ b.mentee_id)
              × ((b.end_time ≤ w.now)
                  × (((b.payment_status ≡ PaymentStatus.completed)
                        × ((b.status ≡ BookingStatus.completed) × (is_some b.settled_at ≡ true)))
                      × ((1 ≤ r.rating) × (r.rating ≤ 5)))))))

-- No two reviews are of one booking.
abbrev pub AreOncePer : List Review → Type 0
AreOncePer [] = Unit
AreOncePer (r ∷ rs) = (find_by_booking_id r.booking_id rs ≡ none) × AreOncePer rs

-- Each mentor's rating is the average of the mentor's reviews.
abbrev pub AreRated : Reviews → Type 0
AreRated s = (m : ℕ) → (s.avg_rating m ≡ average m s.reviews) ⊎ (find_mentor m s.base ≡ none)

abbrev pub IsSound : Reviews → Type 0
IsSound s = All (IsOwn s.base) s.reviews × (AreOncePer s.reviews × AreRated s)

count-append :
    (m : ℕ) (rs : List Review) (r : Review) → count m (rs ++ r ∷ []) ≡ count m rs + count m (r ∷ [])
count-append m [] r = omega arith
count-append m (x ∷ rs) r = rw (count-append m rs r) (omega arith)

sum_ratings-append :
    (m : ℕ) (rs : List Review) (r : Review)
    → sum_ratings m (rs ++ r ∷ []) ≡ sum_ratings m rs + sum_ratings m (r ∷ [])
sum_ratings-append m [] r = omega arith
sum_ratings-append m (x ∷ rs) r = rw (sum_ratings-append m rs r) (omega arith)

-- Another mentor's review changes no average.
average-other :
    (m : ℕ) (rs : List Review) (r : Review)
    → (r.mentor_id == m) ≡ false
    → average m (rs ++ r ∷ []) ≡ average m rs
unfolding average
average-other m rs r h =
    let n : count m (rs ++ r ∷ []) ≡ count m rs = count-append m rs r ∙ rw h (omega arith) in
    let t : sum_ratings m (rs ++ r ∷ []) ≡ sum_ratings m rs =
      sum_ratings-append m rs r ∙ rw h (omega arith) in
    rw (n, t) refl

find-append_none :
    (i : ℕ) (rs : List Review) (r : Review)
    → find_by_booking_id i rs ≡ none
    → (r.booking_id == i) ≡ false
    → find_by_booking_id i (rs ++ r ∷ []) ≡ none
find-append_none i [] r h k = ground (arith)
find-append_none i (x ∷ rs) r h k = ground (arith, find-append_none i rs r)

AreOncePer-append :
    (rs : List Review) (r : Review)
    → find_by_booking_id r.booking_id rs ≡ none
    → AreOncePer rs
    → AreOncePer (rs ++ r ∷ [])
AreOncePer-append [] r h k = (refl, tt)
AreOncePer-append (x ∷ rs) r h k = elim (Bool-cases (x.booking_id == r.booking_id)) [
  | inl e ↦ ground arith
  | inr n ↦ (
    find-append_none x.booking_id rs r k.0
        (ground (arith, ==_iff x.booking_id r.booking_id, ==_iff r.booking_id x.booking_id)),
    AreOncePer-append rs r (ground arith) k.1,
  )
]

reviewable :
    (b : Booking)
    → is_reviewable b ≡ true
    → (b.payment_status ≡ PaymentStatus.completed)
      × ((b.status ≡ BookingStatus.completed) × (is_some b.settled_at ≡ true))
reviewable b h = (ground arith, (ground arith, ground arith))

-- What the guards have let through.
review_error-none :
    (id : ℕ) (input : CreateReviewInput) (b : Booking) (s : Reviews)
    → find_booking input.booking_id s.base ≡ some b
    → review_error input b s ≡ none
    → IsOwn s.base (new_review id input b) × (find_by_booking_id b.id s.reviews ≡ none)
unfolding review_error
review_error-none id input b s f h =
    let key : b.id ≡ input.booking_id =
      key-find_key booking_key input.booking_id s.base.bookings b f in
    let found : find_booking b.id s.base ≡ some b =
      subst (λ i. find_booking i s.base ≡ some b) (sym key) f in
    let facts : (input.user_id ≡ b.mentee_id)
        × ((b.end_time ≤ s.base.now)
            × (((b.payment_status ≡ PaymentStatus.completed)
                  × ((b.status ≡ BookingStatus.completed) × (is_some b.settled_at ≡ true)))
                × ((1 ≤ input.rating) × (input.rating ≤ 5)))) =
      (
        ground (arith, ==_iff b.mentee_id input.user_id),
        (ground arith, (reviewable b (ground arith), (ground arith, ground arith))),
      ) in
    let free : find_by_booking_id b.id s.reviews ≡ none =
      ground (arith, Option-cases (find_by_booking_id b.id s.reviews)) in
    ((b, (found, (refl, facts))), free)

base-rate : (m : ℕ) (s : Reviews) → (rate m s).base ≡ s.base
unfolding rate
base-rate m s = elim (Bool-cases (is_some (find_mentor m s.base))) [
  | inl e ↦ rw e refl
  | inr e ↦ rw e refl
]

reviews-rate : (m : ℕ) (s : Reviews) → (rate m s).reviews ≡ s.reviews
unfolding rate
reviews-rate m s = elim (Bool-cases (is_some (find_mentor m s.base))) [
  | inl e ↦ rw e refl
  | inr e ↦ rw e refl
]

-- The rating of a review's mentor is brought up to date, and no other has to be.
add_review-AreRated : (r : Review) (s : Reviews) → AreRated s → AreRated (add_review r s)
unfolding rate
add_review-AreRated r s h m = elim (Option-cases (find_mentor r.mentor_id s.base)) [
  | inl e ↦ elim (Bool-cases (r.mentor_id == m)) [
    | inl t ↦ ground (arith, ==_iff r.mentor_id m)
    | inr n ↦ ground (arith, average-other m s.reviews r n, h m)
  ]
  | inr (x, e) ↦ elim (Bool-cases (r.mentor_id == m)) [
    | inl t ↦ ground (arith, ==_iff r.mentor_id m, ==_iff m r.mentor_id)
    | inr n ↦
        ground
          (arith, ==_iff r.mentor_id m, ==_iff m r.mentor_id, average-other m s.reviews r n, h m)
  ]
]

add_review-IsSound :
    (r : Review) (s : Reviews)
    → IsOwn s.base r
    → find_by_booking_id r.booking_id s.reviews ≡ none
    → IsSound s
    → IsSound (add_review r s)
add_review-IsSound r s own free h =
    let t : Reviews = record s { reviews = s.reviews ++ r ∷ [] } in
    let all : All (IsOwn s.base) (s.reviews ++ r ∷ []) =
      All-++ (IsOwn s.base) s.reviews (r ∷ []) h.0 (own, tt) in
    (
      rw (base-rate r.mentor_id t, reviews-rate r.mentor_id t) all,
      (
        rw (reviews-rate r.mentor_id t) (AreOncePer-append s.reviews r free h.1.0),
        add_review-AreRated r s h.1.1,
      ),
    )

create_review-IsSound :
    (id : ℕ) (input : CreateReviewInput) (s : Reviews)
    → IsSound s
    → IsSound (create_review id input s).1
unfolding create_review
create_review-IsSound id input s h = elim (Option-cases (find_booking input.booking_id s.base)) [
  | inl e ↦ ground arith
  | inr (b, e) ↦ elim (Option-cases (review_error input b s)) [
    | inr (x, k) ↦ ground arith
    | inl k ↦
        let (own, free) = review_error-none id input b s e k in
        let sound : IsSound (add_review (new_review id input b) s) =
          add_review-IsSound (new_review id input b) s own free h in
        ground arith
  ]
]

-- Requests, each with the identifier that is drawn for it.
abbrev pub create_reviews : List (ℕ × CreateReviewInput) → Reviews → Reviews
create_reviews [] s = s
create_reviews (i ∷ is) s = create_reviews is (create_review i.0 i.1 s).1

-- Over any requests for a review, accepted or refused, where it holds before, no two reviews are of one
-- booking, each is of its booking's mentor by its mentee with a rating from 1 to 5, and of a session
-- that is over, paid for, completed and settled, and the rating of each mentor that is found is the
-- average of the mentor's reviews to the hundredth.
pub create_reviews-IsSound :
    (is : List (ℕ × CreateReviewInput)) (s : Reviews) → IsSound s → IsSound (create_reviews is s)
create_reviews-IsSound [] s h = h
create_reviews-IsSound (i ∷ is) s h =
    create_reviews-IsSound is (create_review i.0 i.1 s).1 (create_review-IsSound i.0 i.1 s h)
