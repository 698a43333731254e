-- ===== src/Availability/Entity.antt =====
-- `Availability.create` of src/domain/entities/availability.entity.ts.
use upstride_api.Base.{◌+◌, Bool, true, false, not, ◌||◌, List, [], ◌∷◌, ltb, leb, if◌then◌else◌}
use upstride_api.Store.{Availability, Day}
use upstride_api.Availability.Breaks.{validate_breaks}

abbrev pub is_empty : List Day → Bool
is_empty [] = true
is_empty (d ∷ ds) = false

-- Whether `create` returns the data, which it does as it got them. A time range of less than an
-- hour is refused after one that is not a range.
unfoldable pub can_create : Availability → Bool
can_create a =
    if is_empty a.days
    then false
    else if not (ltb a.start_time a.end_time)
    then false
    else if ltb a.end_time (a.start_time + 60)
    then false
    else if leb a.end_date a.start_date
    then false
    else if ltb a.buffer_time 5 || ltb 60 a.buffer_time
    then false
    else if leb a.slot_duration a.buffer_time
    then false
    else validate_breaks a.break_times a.start_time a.end_time
