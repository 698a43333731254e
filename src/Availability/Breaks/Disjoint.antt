-- ===== src/Availability/Breaks/Disjoint.antt =====
-- Breaks that are accepted do not meet.
use upstride_api.Base.{
  ℕ, ◌≤◌, ◌<◌, ◌≡◌, ◌⊎◌, inl, inr, true, false, List, [], ◌∷◌, any, length, All, arith,
}
use upstride_api.Store.{BreakTime}
use upstride_api.Availability.Breaks.{
  insert_break, sort_onto, sort_breaks, has_overlap_after, has_overlap, max_breaks, is_bad_break,
  validate_breaks,
}

-- One break ends by the time that the other starts.
abbrev pub IsApart : BreakTime → BreakTime → Type 0
IsApart b c = (b.end_time ≤ c.start_time) ⊎ (c.end_time ≤ b.start_time)

abbrev pub AreBreaksApart : List BreakTime → Type 0
AreBreaksApart [] = Unit
AreBreaksApart (b ∷ bs) = All (IsApart b) bs × AreBreaksApart bs

-- A break within the time, that starts before it ends.
abbrev pub IsWithin : ℕ → ℕ → BreakTime → Type 0
IsWithin from until b = (from ≤ b.start_time) × (b.start_time < b.end_time) × (b.end_time ≤ until)

any-is_bad_break :
    (from until : ℕ) (bs : List BreakTime)
    → any (is_bad_break from until) bs ≡ false
    → All (IsWithin from until) bs
any-is_bad_break from until [] h = tt
any-is_bad_break from until (b ∷ bs) h = ground (arith, any-is_bad_break from until bs)

module _ (P : BreakTime → Type 0) where
  All-insert_break :
      (b : BreakTime) (cs : List BreakTime) → P b → All P cs → All P (insert_break b cs)
  unfolding insert_break
  All-insert_break b [] pb ps = (pb, tt)
  All-insert_break b (c ∷ cs) pb ps = ground (arith, All-insert_break b cs pb)

  All-insert_break_conv :
      (b : BreakTime) (cs : List BreakTime) → All P (insert_break b cs) → P b × All P cs
  unfolding insert_break
  All-insert_break_conv b [] ps = ps
  All-insert_break_conv b (c ∷ cs) ps = ground (arith, All-insert_break_conv b cs)

  All-sort_onto : (bs cs : List BreakTime) → All P bs → All P cs → All P (sort_onto bs cs)
  unfolding sort_onto
  All-sort_onto [] cs ps qs = qs
  All-sort_onto (b ∷ bs) cs (p, ps) qs =
      All-sort_onto bs (insert_break b cs) ps (All-insert_break b cs p qs)

IsApart-sym : (b c : BreakTime) → IsApart b c → IsApart c b
IsApart-sym b c (inl h) = inr h
IsApart-sym b c (inr h) = inl h

-- What is apart after an insertion was apart before.
insert_break-AreBreaksApart :
    (b : BreakTime) (cs : List BreakTime)
    → AreBreaksApart (insert_break b cs)
    → All (IsApart b) cs × AreBreaksApart cs
unfolding insert_break
insert_break-AreBreaksApart b [] h = (tt, tt)
insert_break-AreBreaksApart b (c ∷ cs) h = ground (
  arith,
  insert_break-AreBreaksApart b cs,
  All-insert_break_conv (IsApart c) b cs,
  IsApart-sym c b,
)

-- The elements of the one list that are not of the other are apart from those of the other.
AreApart : List BreakTime → List BreakTime → Type 0
AreApart bs cs = All (λ b. All (IsApart b) cs) bs

AreApart-insert_break :
    (b : BreakTime) (cs bs : List BreakTime)
    → AreApart bs (insert_break b cs)
    → All (IsApart b) bs × AreApart bs cs
unfolding AreApart
AreApart-insert_break b cs [] h = (tt, tt)
AreApart-insert_break b cs (x ∷ bs) h =
    let (p, q) = All-insert_break_conv (IsApart x) b cs h.0 in
    let (ps, qs) = AreApart-insert_break b cs bs h.1 in ((IsApart-sym x b p, ps), (q, qs))

sort_onto-AreBreaksApart :
    (bs cs : List BreakTime)
    → AreBreaksApart (sort_onto bs cs)
    → AreBreaksApart bs × (AreApart bs cs × AreBreaksApart cs)
unfolding sort_onto AreApart
sort_onto-AreBreaksApart [] cs h = (tt, (tt, h))
sort_onto-AreBreaksApart (b ∷ bs) cs h =
    let all = sort_onto-AreBreaksApart bs (insert_break b cs) h in
    let (p, r) = AreApart-insert_break b cs bs all.1.0 in
    let (q, t) = insert_break-AreBreaksApart b cs all.1.1 in ((p, all.0), ((q, r), t))

All-after :
    (i j : ℕ) (cs : List BreakTime)
    → i ≤ j
    → All (λ c. j ≤ c.start_time) cs
    → All (λ c. i ≤ c.start_time) cs
All-after i j [] h ps = tt
All-after i j (c ∷ cs) h ps = (omega (arith, h, ps.0), All-after i j cs h ps.1)

All-IsApart :
    (b : BreakTime) (cs : List BreakTime)
    → All (λ c. b.end_time ≤ c.start_time) cs
    → All (IsApart b) cs
All-IsApart b [] ps = tt
All-IsApart b (c ∷ cs) ps = (inl ps.0, All-IsApart b cs ps.1)

-- Each of a list of ranges that starts where the one ahead ends, or later.
has_overlap_after-AreBreaksApart :
    (from until : ℕ) (b : BreakTime) (cs : List BreakTime)
    → All (IsWithin from until) cs
    → has_overlap_after b cs ≡ false
    → All (λ c. b.end_time ≤ c.start_time) cs × AreBreaksApart cs
unfolding has_overlap_after
has_overlap_after-AreBreaksApart from until b [] ws h = (tt, tt)
has_overlap_after-AreBreaksApart from until b (c ∷ cs) ws h =
    let (ps, qs) = has_overlap_after-AreBreaksApart from until c cs ws.1 (ground arith) in
    let start : b.end_time ≤ c.start_time = ground arith in
    ((start, All-after b.end_time c.end_time cs (ground arith) ps), (All-IsApart c cs ps, qs))

has_overlap-AreBreaksApart :
    (from until : ℕ) (bs : List BreakTime)
    → All (IsWithin from until) bs
    → has_overlap bs ≡ false
    → AreBreaksApart bs
unfolding has_overlap
has_overlap-AreBreaksApart from until [] ws h = tt
has_overlap-AreBreaksApart from until (b ∷ bs) ws h =
    let (ps, qs) = has_overlap_after-AreBreaksApart from until b bs ws.1 h in
    (All-IsApart b bs ps, qs)

-- Breaks that are accepted are at most three, lie within the time of the availability, start
-- before they end, and no two of them meet, in whichever order they are given.
pub validate_breaks-AreBreaksApart :
    (breaks : List BreakTime) (from until : ℕ)
    → validate_breaks breaks from until ≡ true
    → (length breaks ≤ max_breaks) × (All (IsWithin from until) breaks × AreBreaksApart breaks)
unfolding validate_breaks
validate_breaks-AreBreaksApart breaks from until h =
    let few : length breaks ≤ max_breaks = ground arith in
    let good : any (is_bad_break from until) breaks ≡ false = ground arith in
    let apart : has_overlap (sort_breaks breaks) ≡ false = ground arith in
    let within = any-is_bad_break from until breaks good in
    (
      few,
      (
        within,
        (sort_onto-AreBreaksApart breaks [] (
            has_overlap-AreBreaksApart from until (sort_breaks breaks)
              (All-sort_onto (IsWithin from until) breaks [] within tt) apart)).0,
      ),
    )
