-- ===== src/Availability/Manage.antt =====
-- The use cases of src/application/modules/availability/use-cases that change the availabilities of
-- a mentor.
pub mod Disjoint
pub mod Cases
pub mod Checked
use upstride_api.Base.{
  ℕ, Bool, true, false, not, ◌&&◌, Option, none, some, List, [], ◌∷◌, ◌==◌, filter, get_or,
  if◌then◌else◌,
}
use upstride_api.Store.{
  Action, World, Availability, BreakTime, Day, Mentor, Error, pure, gets, or_raise, raise_if, ◌>>=◌,
  ◌>>◌, find_mentor_by_user, find_availability, find_active_by_mentor, create_availability_doc,
  update_availability_doc,
}
use upstride_api.Availability.Entity.{can_create}
use upstride_api.Availability.Conflict.{is_availability_conflict}

-- `getMentorByUserIdOrThrow`
abbrev pub get_mentor : ℕ → Action Mentor
get_mentor user_id w = or_raise Error.mentor_not_found (find_mentor_by_user user_id w) w

abbrev pub conflicts_with : Availability → List Availability → List Availability
conflicts_with candidate = filter (is_availability_conflict candidate)

abbrev has_none : List Availability → Bool
has_none [] = true
has_none (a ∷ others) = false

-- The rule as it is asked for, with the id of its document.
abbrev pub of_mentor : Mentor → Availability → Availability
of_mentor mentor rule = record rule { mentor_id = mentor.id; status = true }

-- `CreateAvailabilityUseCase.execute`
unfoldable pub create_availability : ℕ → Availability → Action (Unit {0})
create_availability user_id input = do
  mentor ← get_mentor user_id
  raise_if (not (can_create (of_mentor mentor input))) Error.entity_validation
  create_availability_doc (of_mentor mentor input)

-- The response: whether it was done, and the rules in conflict.
abbrev pub Outcome : Type 0
Outcome = Bool × List Availability

abbrev pub unless_conflict : List Availability → Action (Unit {0}) → Action Outcome
unless_conflict [] m = m >> pure (true, [])
unless_conflict (a ∷ others) m = pure (false, a ∷ others)

-- `CheckAndCreateAvailabilityUseCase.execute`
unfoldable pub check_and_create_availability : ℕ → Availability → Action Outcome
check_and_create_availability user_id input = do
  mentor ← get_mentor user_id
  raise_if (not (can_create (of_mentor mentor input))) Error.entity_validation
  existing ← gets (find_active_by_mentor mentor.id)
  unless_conflict (conflicts_with (of_mentor mentor input) existing)
      (create_availability user_id input)

pub record AvailabilityUpdate : Type 0 where
  pub days : Option (List Day)
  pub start_time : Option ℕ
  pub end_time : Option ℕ
  pub start_date : Option ℕ
  pub end_date : Option ℕ
  pub break_times : Option (List BreakTime)
  pub slot_duration : Option ℕ
  pub buffer_time : Option ℕ
  pub status : Option Bool

abbrev pub updated_by : AvailabilityUpdate → Availability → Availability
updated_by u a = record a {
  days = get_or u.days a.days;
  start_time = get_or u.start_time a.start_time;
  end_time = get_or u.end_time a.end_time;
  start_date = get_or u.start_date a.start_date;
  end_date = get_or u.end_date a.end_date;
  break_times = get_or u.break_times a.break_times;
  slot_duration = get_or u.slot_duration a.slot_duration;
  buffer_time = get_or u.buffer_time a.buffer_time;
  status = get_or u.status a.status;
}

-- The rule of the id, if it is the mentor's.
abbrev pub get_own : Mentor → ℕ → Action Availability
get_own mentor i = do
  a ← or_raise Error.availability_not_found (← gets (find_availability i))
  raise_if (not (a.mentor_id == mentor.id)) Error.availability_not_found
  pure a

-- `UpdateAvailabilityUseCase.execute`
unfoldable pub update_availability : ℕ → ℕ → AvailabilityUpdate → Action (Unit {0})
update_availability user_id i u = do
  mentor ← get_mentor user_id
  existing ← get_own mentor i
  update_availability_doc i (updated_by u)

-- `CheckAndUpdateAvailabilityUseCase.execute`
unfoldable pub check_and_update_availability : ℕ → ℕ → AvailabilityUpdate → Action Outcome
check_and_update_availability user_id i u = do
  mentor ← get_mentor user_id
  existing ← get_own mentor i
  let candidate = updated_by u existing
  raise_if (not (can_create candidate)) Error.entity_validation
  active ← gets (find_active_by_mentor mentor.id)
  unless_conflict (conflicts_with candidate (filter (λ a. not (a.id == i)) active))
      (update_availability user_id i u)

abbrev pub set_status : Bool → Availability → Availability
set_status s a = record a { status = s }

-- The rule of the id, which is to be enabled again.
abbrev pub get_to_enable : Mentor → ℕ → Action Availability
get_to_enable mentor i = do
  a ← or_raise Error.availability_not_found (← gets (find_availability i))
  raise_if (not (a.mentor_id == mentor.id)) Error.unauthorized_availability_action
  pure a

-- `ReenableAvailabilityUseCase.execute`
unfoldable pub reenable_availability : ℕ → ℕ → Action (Unit {0})
reenable_availability user_id i = do
  mentor ← get_mentor user_id
  a ← get_to_enable mentor i
  update_availability_doc i (set_status true)

abbrev pub unless_enabled : Availability → Action Outcome → Action Outcome
unless_enabled a m = if a.status then pure (true, []) else m

-- `CheckAndReenableAvailabilityUseCase.execute`
unfoldable pub check_and_reenable_availability : ℕ → ℕ → Action Outcome
check_and_reenable_availability user_id i = do
  mentor ← get_mentor user_id
  a ← get_to_enable mentor i
  unless_enabled a do
    active ← gets (find_active_by_mentor mentor.id)
    unless_conflict (filter (λ b. not (b.id == a.id) && is_availability_conflict a b) active)
        (update_availability_doc i (set_status true))

-- `DeleteAvailabilityUseCase.execute`: the rule is disabled.
unfoldable pub delete_availability : ℕ → ℕ → Action (Unit {0})
delete_availability user_id i = do
  mentor ← get_mentor user_id
  existing ← get_own mentor i
  update_availability_doc i (set_status false)
