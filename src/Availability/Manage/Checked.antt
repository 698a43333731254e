-- ===== src/Availability/Manage/Checked.antt =====
-- The rules of the mentors stay apart, whatever is asked of the use cases that check for a conflict.
use upstride_api.Base.{
  ℕ, ◌≡◌, refl, sym, ◌∙◌, subst, inl, inr, Bool, true, false, not, ◌&&◌, List, [], ◌∷◌, ◌==◌,
  filter, filter-filter, filter-none, All, All-ap, All-both, All-every, arith,
}
use upstride_api.Store.{World, Availability, Mentor, key-find_key, availability_key}
use upstride_api.Availability.Conflict.{is_availability_conflict}
use upstride_api.Availability.Manage.{
  AvailabilityUpdate, of_mentor, updated_by, set_status, check_and_create_availability,
  check_and_update_availability, check_and_reenable_availability, delete_availability,
}
use upstride_api.Availability.Manage.Disjoint.{
  clash, IsApart, ArePairwiseApart, ==_sym, IsApart-sym, ArePairwiseApart-append, IsOther,
  ArePairwiseApart-update_key,
}
use upstride_api.Availability.Manage.Cases.{
  of_active, check_and_create-cases, check_and_update-cases, check_and_reenable-cases, delete-cases,
}

-- The ids are made by the database, and new.
abbrev pub IsNew : ℕ → World → Type 0
IsNew i w = All (λ (x : Availability). (x.id == i) ≡ false) w.availabilities

IsApart-conflicts_with :
    (m : Mentor) (c x : Availability)
    → (of_active m.id x && is_availability_conflict (of_mentor m c) x) ≡ false
    → (x.id == c.id) ≡ false
    → IsApart x (of_mentor m c)
IsApart-conflicts_with m c x h n =
    IsApart-sym (of_mentor m c) x (==_sym c.id x.id ∙ n, ground (arith, ==_sym m.id x.mentor_id))

check_and_create-ArePairwiseApart :
    (u : ℕ) (c : Availability) (w : World)
    → IsNew c.id w
    → ArePairwiseApart w.availabilities
    → ArePairwiseApart (check_and_create_availability u c w).1.availabilities
check_and_create-ArePairwiseApart u c w n h = elim (check_and_create-cases u c w) [
  | inl e ↦ rw e h
  | inr (m, (e, k)) ↦ rw e (
      ArePairwiseApart-append w.availabilities (of_mentor m c)
        (All-ap _ _ w.availabilities (λ x p. IsApart-conflicts_with m c x p.0 p.1)
          (All-both _ _ w.availabilities
            (filter-none _ w.availabilities (
              sym (
                filter-filter (is_availability_conflict (of_mentor m c)) (of_active m.id)
                  w.availabilities)
              ∙ k))
            n))
        h)
]

clash-other :
    (m : Mentor) (i : ℕ) (c x : Availability)
    → (c.mentor_id == m.id) ≡ true
    → (x.id == i) ≡ false
    → (of_active m.id x && (not (x.id == i) && is_availability_conflict c x)) ≡ false
    → clash c x ≡ false
clash-other m i c x own other p = ground arith

check_and_update-ArePairwiseApart :
    (u i : ℕ) (c : AvailabilityUpdate) (w : World)
    → ArePairwiseApart w.availabilities
    → ArePairwiseApart (check_and_update_availability u i c w).1.availabilities
check_and_update-ArePairwiseApart u i c w h = elim (check_and_update-cases u i c w) [
  | inl e ↦ rw e h
  | inr (m, (a, (n, (own, (e, k))))) ↦
      let conflict : Availability → Bool = is_availability_conflict (updated_by c a) in
      let other : Availability → Bool = λ x. not (x.id == i) in
      rw e (
        ArePairwiseApart-update_key i (updated_by c) a w.availabilities (λ x. refl) n
          (All-ap _ (IsOther i (updated_by c) a) w.availabilities
            (λ x p ne. clash-other m i (updated_by c a) x own ne p)
            (filter-none (λ x. of_active m.id x && (other x && conflict x)) w.availabilities
              (sym (filter-filter (λ x. other x && conflict x) (of_active m.id) w.availabilities)
                ∙ (sym (filter-filter conflict other (filter (of_active m.id) w.availabilities))
                    ∙ k))))
          h)
]

check_and_reenable-ArePairwiseApart :
    (u i : ℕ) (w : World)
    → ArePairwiseApart w.availabilities
    → ArePairwiseApart (check_and_reenable_availability u i w).1.availabilities
unfolding is_availability_conflict
check_and_reenable-ArePairwiseApart u i w h = elim (check_and_reenable-cases u i w) [
  | inl e ↦ rw e h
  | inr (m, (a, (n, (own, (e, k))))) ↦
      let other : Availability → Bool = λ x. not (x.id == a.id) && is_availability_conflict a x in
      rw e (
        ArePairwiseApart-update_key i (set_status true) a w.availabilities (λ x. refl) n
          (All-ap _ (IsOther i (set_status true) a) w.availabilities
            (λ x p ne.
              clash-other m a.id (set_status true a) x own
                (subst (λ j. (x.id == j) ≡ false)
                  (sym (key-find_key availability_key i w.availabilities a n)) ne)
                p)
            (filter-none (λ x. of_active m.id x && other x) w.availabilities
              (sym (filter-filter other (of_active m.id) w.availabilities) ∙ k)))
          h)
]

delete-ArePairwiseApart :
    (u i : ℕ) (w : World)
    → ArePairwiseApart w.availabilities
    → ArePairwiseApart (delete_availability u i w).1.availabilities
delete-ArePairwiseApart u i w h = elim (delete-cases u i w) [
  | inl e ↦ rw e h
  | inr (a, (n, e)) ↦ rw e (
      ArePairwiseApart-update_key i (set_status false) a w.availabilities (λ x. refl) n
        (All-every _ w.availabilities (λ x ne. ground arith)) h)
]

-- The requests of the routes that check for a conflict first, and the removal of a rule.
pub data Request : Type 0 where
  create : (user_id : ℕ) → Availability → Request
  update : (user_id id : ℕ) → AvailabilityUpdate → Request
  reenable delete : (user_id id : ℕ) → Request

abbrev pub serve : Request → World → World
serve (create u c) w = (check_and_create_availability u c w).1
serve (update u i c) w = (check_and_update_availability u i c w).1
serve (reenable u i) w = (check_and_reenable_availability u i w).1
serve (delete u i) w = (delete_availability u i w).1

-- The id that a creation is given is new.
abbrev pub IsFresh : Request → World → Type 0
IsFresh (create u c) w = IsNew c.id w
IsFresh _ w = Unit

abbrev pub AreFresh : List Request → World → Type 0
AreFresh [] w = Unit
AreFresh (r ∷ rs) w = IsFresh r w × AreFresh rs (serve r w)

abbrev pub serve_all : List Request → World → World
serve_all [] w = w
serve_all (r ∷ rs) w = serve_all rs (serve r w)

serve-ArePairwiseApart :
    (r : Request) (w : World)
    → IsFresh r w
    → ArePairwiseApart w.availabilities
    → ArePairwiseApart (serve r w).availabilities
serve-ArePairwiseApart (create u c) w n h = check_and_create-ArePairwiseApart u c w n h
serve-ArePairwiseApart (update u i c) w n h = check_and_update-ArePairwiseApart u i c w h
serve-ArePairwiseApart (reenable u i) w n h = check_and_reenable-ArePairwiseApart u i w h
serve-ArePairwiseApart (delete u i) w n h = delete-ArePairwiseApart u i w h

-- After any sequence of checked creations, checked updates, checked re-enablings and removals, by any
-- users, no two active rules of one mentor are in conflict and no two rules have one id, if it was
-- so before and each created rule has a new id.
pub serve_all-ArePairwiseApart :
    (rs : List Request) (w : World)
    → AreFresh rs w
    → ArePairwiseApart w.availabilities
    → ArePairwiseApart (serve_all rs w).availabilities
serve_all-ArePairwiseApart [] w n h = h
serve_all-ArePairwiseApart (r ∷ rs) w n h =
    serve_all-ArePairwiseApart rs (serve r w) n.1 (serve-ArePairwiseApart r w n.0 h)
