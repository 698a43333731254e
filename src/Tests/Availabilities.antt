-- ===== src/Tests/Availabilities.antt =====
-- Runs of the availabilities.
use upstride_api.Base.{◌≤◌, ◌≡◌, refl, true, List, [], ◌∷◌, any, All, length, ◌==◌, arith}
use upstride_api.Store.{BreakTime, Day, create_availability_doc, find_active_by_mentor}
use upstride_api.Availability.Breaks.{
  max_breaks, validate_breaks, insert_break, sort_onto, has_overlap, has_overlap_after,
}
use upstride_api.Availability.Breaks.Disjoint.{
  IsWithin, AreBreaksApart, validate_breaks-AreBreaksApart,
}
use upstride_api.Availability.Slots.{compute_slots_for_date, slots_from}
use upstride_api.Availability.Slots.Window.{
  AreBuffered, compute_slots_for_date-turn, slots_from-enough, compute_slots_for_date-AreBuffered,
}
use upstride_api.Availability.Conflict.{is_availability_conflict}
use upstride_api.Availability.Entity.{can_create}
use upstride_api.Availability.Manage.{check_and_create_availability, create_availability}
use upstride_api.Availability.Manage.Disjoint.{ArePairwiseApart}
use upstride_api.Availability.Manage.Checked.{
  Request, serve_all, AreFresh, serve_all-ArePairwiseApart,
}
use upstride_api.Tests.{world, rule}

abbrev breaks : List BreakTime
breaks =
    record { start_time = 700; end_time = 720 } ∷ record { start_time = 620; end_time = 630 } ∷ []

breaks_are_valid : validate_breaks breaks 600 780 ≡ true
unfolding validate_breaks insert_break sort_onto has_overlap has_overlap_after
breaks_are_valid = refl

validate_breaks-AreBreaksApart_example :
    (length breaks ≤ max_breaks) × (All (IsWithin 600 780) breaks × AreBreaksApart breaks)
validate_breaks-AreBreaksApart_example =
    validate_breaks-AreBreaksApart breaks 600 780 breaks_are_valid

-- Of the two turns, neither meets the break from 11:05 to 11:10.
slots_run :
    compute_slots_for_date rule 3 0
    ≡ record { start_time = 600; end_time = 660 } ∷ record { start_time = 670; end_time = 730 } ∷ []
unfolding compute_slots_for_date slots_from
slots_run = refl

compute_slots_for_date-turn_example :
    any (λ s. s.start_time == 670) (compute_slots_for_date rule 3 0) ≡ true
compute_slots_for_date-turn_example =
    compute_slots_for_date-turn rule 3 0 1 refl (omega arith) (omega arith) refl

slots_from-enough_example : slots_from rule 3 0 181 600 ≡ slots_from rule 3 0 1000 600
slots_from-enough_example =
    slots_from-enough rule 3 0 181 1000 600 (omega arith) (omega arith) (omega arith)

compute_slots_for_date-AreBuffered_example : AreBuffered rule 600 (compute_slots_for_date rule 3 0)
compute_slots_for_date-AreBuffered_example = compute_slots_for_date-AreBuffered rule 3 0

-- A rule in conflict, one that is not, and the removal of the first.
abbrev requests : List Request
requests =
    Request.create 2 (record rule { id = 8 })
    ∷ Request.create 2 (record rule { id = 9; days = Day.friday ∷ [] })
    ∷ Request.delete 2 7
    ∷ []

requests-AreFresh : AreFresh requests world
unfolding check_and_create_availability create_availability create_availability_doc
    find_active_by_mentor is_availability_conflict can_create validate_breaks insert_break sort_onto
    has_overlap has_overlap_after
requests-AreFresh = ((refl, tt), ((refl, tt), (tt, tt)))

serve_all-ArePairwiseApart_example : ArePairwiseApart (serve_all requests world).availabilities
serve_all-ArePairwiseApart_example =
    serve_all-ArePairwiseApart requests world requests-AreFresh (tt, tt)
