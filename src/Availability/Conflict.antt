-- ===== src/Availability/Conflict.antt =====
-- src/application/modules/availability/utils/availability-conflict.util.ts
use upstride_api.Base.{Bool, false, not, ◌&&◌, ltb, leb, any, if◌then◌else◌}
use upstride_api.Store.{Availability, day_number, has_day}

unfoldable pub is_availability_conflict : Availability → Availability → Bool
is_availability_conflict candidate existing =
    if not
      (leb candidate.start_date existing.end_date && leb existing.start_date candidate.end_date)
    then false
    else if not (any (λ d. has_day (day_number d) existing.days) candidate.days)
    then false
    else ltb candidate.start_time existing.end_time && ltb existing.start_time candidate.end_time
