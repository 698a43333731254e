-- ===== src/Availability/Breaks.antt =====
-- src/domain/utilties/validate-availability-breaktime.ts
pub mod Disjoint
use upstride_api.Base.{
  ℕ, ◌+◌, Bool, true, false, ◌||◌, List, [], ◌∷◌, ltb, leb, any, length, if◌then◌else◌,
}
use upstride_api.Store.{BreakTime}

abbrev pub max_breaks : ℕ
max_breaks = 3

-- `parsed.sort((a, b) => a.start - b.start)`, which keeps the order of equal starts.
unfoldable pub insert_break : BreakTime → List BreakTime → List BreakTime
insert_break b [] = b ∷ []
insert_break b (c ∷ cs) =
    if ltb b.start_time c.start_time then b ∷ c ∷ cs else c ∷ insert_break b cs

unfoldable pub sort_onto : List BreakTime → List BreakTime → List BreakTime
sort_onto [] done = done
sort_onto (b ∷ bs) done = sort_onto bs (insert_break b done)

abbrev pub sort_breaks : List BreakTime → List BreakTime
sort_breaks bs = sort_onto bs []

-- Whether a break starts before the one ahead of it ends.
unfoldable pub has_overlap_after : BreakTime → List BreakTime → Bool
has_overlap_after b [] = false
has_overlap_after b (c ∷ cs) = ltb c.start_time b.end_time || has_overlap_after c cs

unfoldable pub has_overlap : List BreakTime → Bool
has_overlap [] = false
has_overlap (b ∷ bs) = has_overlap_after b bs

abbrev pub is_bad_break : ℕ → ℕ → BreakTime → Bool
is_bad_break from until b =
    leb b.end_time b.start_time || (ltb b.start_time from || ltb until b.end_time)

-- Whether `validateBreaks` returns no message.
unfoldable pub validate_breaks : List BreakTime → ℕ → ℕ → Bool
validate_breaks breaks from until =
    if ltb max_breaks (length breaks)
    then false
    else if any (is_bad_break from until) breaks
    then false
    else if has_overlap (sort_breaks breaks)
    then false
    else true
