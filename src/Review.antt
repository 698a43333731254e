-- ===== src/Review.antt =====
-- src/application/modules/review/use-cases/create-review.use-case.ts and what it uses of
-- src/infrastructure/database/mongodb/repositories/review.repository.ts. A comment's text is left out.
pub mod Sound
use upstride_api.Base.{
  ℕ, ◌+◌, ◌*◌, Bool, true, false, not, ◌&&◌, ◌||◌, Option, none, some, List, [], ◌∷◌, ◌++◌, ltb,
  leb, ◌==◌, find, filter, length, is_some, if◌then◌else◌,
}
use upstride_api.Store.{
  World, Booking, Error, Result, ok, err, find_booking, find_mentor, is_paid, is_completed,
}
use upstride_api.Money.{round_div}

pub record Review : Type 0 where
  pub id : ℕ
  pub mentor_id : ℕ
  pub user_id : ℕ
  pub booking_id : ℕ
  pub rating : ℕ

pub record CreateReviewInput : Type 0 where
  pub user_id : ℕ
  pub booking_id : ℕ
  pub rating : ℕ

-- The reviews and the average ratings of the mentors, in hundredths, beside the other collections.
pub record Reviews : Type 0 where
  pub base : World
  pub reviews : List Review
  pub avg_rating : ℕ → ℕ

abbrev pub of_booking : ℕ → Review → Bool
of_booking i r = r.booking_id == i

abbrev pub find_by_booking_id : ℕ → List Review → Option Review
find_by_booking_id i = find (of_booking i)

-- `getStatsByMentorId`: the count of a mentor's reviews and the sum of their ratings.
abbrev pub count : ℕ → List Review → ℕ
count m [] = 0
count m (r ∷ rs) = (if r.mentor_id == m then 1 else 0) + count m rs

abbrev pub sum_ratings : ℕ → List Review → ℕ
sum_ratings m [] = 0
sum_ratings m (r ∷ rs) = (if r.mentor_id == m then r.rating else 0) + sum_ratings m rs

-- The average in hundredths.
unfoldable pub average : ℕ → List Review → ℕ
average m rs = if ltb 0 (count m rs) then round_div (sum_ratings m rs * 100) (count m rs) else 0

-- `updateById` of the mentor.
unfoldable pub rate : ℕ → Reviews → Reviews
rate m s =
    if is_some (find_mentor m s.base)
    then record s { avg_rating = λ i. if i == m then average m s.reviews else s.avg_rating i }
    else s

abbrev pub is_reviewable : Booking → Bool
is_reviewable b = is_paid b.payment_status && (is_completed b.status && is_some b.settled_at)

abbrev pub new_review : (id : ℕ) → CreateReviewInput → Booking → Review
new_review id input b = record {
  id = id;
  mentor_id = b.mentor_id;
  user_id = input.user_id;
  booking_id = b.id;
  rating = input.rating;
}

-- The guards, in their order; the last is the collection's own on a rating.
unfoldable pub review_error : CreateReviewInput → Booking → Reviews → Option Error
review_error input b s =
    if not (b.mentee_id == input.user_id)
    then some Error.unauthorized
    else if ltb s.base.now b.end_time
    then some Error.validation
    else if not (is_reviewable b)
    then some Error.validation
    else if is_some (find_by_booking_id b.id s.reviews)
    then some Error.conflict
    else if leb 1 input.rating && leb input.rating 5
    then none
    else some Error.validation

abbrev pub add_review : Review → Reviews → Reviews
add_review r s = rate r.mentor_id (record s { reviews = s.reviews ++ r ∷ [] })

-- `CreateReviewUseCase.execute`; `id` is what the generator returns.
unfoldable pub create_review : (id : ℕ) → CreateReviewInput → Reviews → Result Review × Reviews
create_review id input s = elim (find_booking input.booking_id s.base) [
  | none ↦ (err Error.booking_not_found, s)
  | some b ↦ elim (review_error input b s) [
    | some e ↦ (err e, s)
    | none ↦ (ok (new_review id input b), add_review (new_review id input b) s)
  ]
]
