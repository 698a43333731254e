-- ===== src/Availability/Manage/Cases.antt =====
-- What each of the use cases that check for a conflict does, on each of its branches.
use upstride_api.Base.{
  ℕ, ◌≡◌, ◌⊎◌, inl, inr, Bool, true, false, not, ◌&&◌, some, [], ◌∷◌, ◌++◌, ◌==◌, filter,
  List-cases, arith, Bool-cases, Option-cases,
}
use upstride_api.Store.{
  World, Availability, Mentor, update_key, availability_key, find_availability,
  find_active_by_mentor, create_availability_doc, update_availability_doc, find_mentor_by_user,
}
use upstride_api.Availability.Conflict.{is_availability_conflict}
use upstride_api.Availability.Entity.{can_create}
use upstride_api.Availability.Manage.{
  AvailabilityUpdate, conflicts_with, of_mentor, updated_by, set_status, create_availability,
  check_and_create_availability, update_availability, check_and_update_availability,
  check_and_reenable_availability, delete_availability,
}

abbrev pub of_active : ℕ → Availability → Bool
of_active m a = a.mentor_id == m && a.status

-- What a checked creation does: nothing, or a rule is added that is in conflict with no active one.
pub check_and_create-cases :
    (u : ℕ) (c : Availability) (w : World)
    → ((check_and_create_availability u c w).1 ≡ w)
      ⊎ ((m : Mentor) × (((check_and_create_availability u c w).1.availabilities
              ≡ w.availabilities ++ of_mentor m c ∷ [])
            × (conflicts_with (of_mentor m c) (filter (of_active m.id) w.availabilities) ≡ [])))
unfolding check_and_create_availability create_availability create_availability_doc
    find_active_by_mentor
check_and_create-cases u c w = elim (Option-cases (find_mentor_by_user u w)) [
  | inl e ↦ inl (ground arith)
  | inr (m, e) ↦ elim (Bool-cases (can_create (of_mentor m c))) [
    | inl good ↦
        elim (List-cases
          (conflicts_with (of_mentor m c) (filter (of_active m.id) w.availabilities))) [
            | inl n ↦ inr (m, (ground arith, n))
            | inr (x, (ys, n)) ↦ inl (ground arith)
          ]
    | inr bad ↦ inl (ground arith)
  ]
]

-- What a checked update does: nothing, or a rule of the mentor is replaced by one that is in
-- conflict with no other active one.
pub check_and_update-cases :
    (u i : ℕ) (c : AvailabilityUpdate) (w : World)
    → ((check_and_update_availability u i c w).1 ≡ w)
      ⊎ ((m : Mentor) × ((a : Availability) × ((find_availability i w ≡ some a)
              × (((a.mentor_id == m.id) ≡ true)
                  × (((check_and_update_availability u i c w).1.availabilities
                        ≡ update_key availability_key i (updated_by c) w.availabilities)
                      × (conflicts_with (updated_by c a) (
                            filter
                              (λ x. not (x.id == i))
                              (filter (of_active m.id) w.availabilities))
                          ≡ []))))))
unfolding check_and_update_availability update_availability update_availability_doc
    find_active_by_mentor
check_and_update-cases u i c w = elim (Option-cases (find_mentor_by_user u w)) [
  | inl e ↦ inl (ground arith)
  | inr (m, e) ↦ elim (Option-cases (find_availability i w)) [
    | inl n ↦ inl (ground arith)
    | inr (a, n) ↦ elim (Bool-cases (a.mentor_id == m.id)) [
      | inr other ↦ inl (ground arith)
      | inl own ↦ elim (Bool-cases (can_create (updated_by c a))) [
        | inr bad ↦ inl (ground arith)
        | inl good ↦
            elim (List-cases (
              conflicts_with (updated_by c a)
                (filter (λ x. not (x.id == i)) (filter (of_active m.id) w.availabilities)))) [
                  | inl k ↦ inr (m, (a, (n, (own, (ground arith, k)))))
                  | inr (x, (ys, k)) ↦ inl (ground arith)
                ]
      ]
    ]
  ]
]

pub check_and_reenable-cases :
    (u i : ℕ) (w : World)
    → ((check_and_reenable_availability u i w).1 ≡ w)
      ⊎ ((m : Mentor) × ((a : Availability) × ((find_availability i w ≡ some a)
              × (((a.mentor_id == m.id) ≡ true)
                  × (((check_and_reenable_availability u i w).1.availabilities
                        ≡ update_key availability_key i (set_status true) w.availabilities)
                      × (filter
                            (λ x. not (x.id == a.id) && is_availability_conflict a x)
                            (filter (of_active m.id) w.availabilities)
                          ≡ []))))))
unfolding check_and_reenable_availability update_availability_doc find_active_by_mentor
check_and_reenable-cases u i w = elim (Option-cases (find_mentor_by_user u w)) [
  | inl e ↦ inl (ground arith)
  | inr (m, e) ↦ elim (Option-cases (find_availability i w)) [
    | inl n ↦ inl (ground arith)
    | inr (a, n) ↦ elim (Bool-cases (a.mentor_id == m.id)) [
      | inr other ↦ inl (ground arith)
      | inl own ↦ elim (Bool-cases a.status) [
        | inl active ↦ inl (ground arith)
        | inr disabled ↦
            elim (List-cases (
              filter (λ x. not (x.id == a.id) && is_availability_conflict a x)
                (filter (of_active m.id) w.availabilities))) [
                  | inl k ↦ inr (m, (a, (n, (own, (ground arith, k)))))
                  | inr (x, (ys, k)) ↦ inl (ground arith)
                ]
      ]
    ]
  ]
]

pub delete-cases :
    (u i : ℕ) (w : World)
    → ((delete_availability u i w).1 ≡ w)
      ⊎ ((a : Availability) × ((find_availability i w ≡ some a)
            × ((delete_availability u i w).1.availabilities
                ≡ update_key availability_key i (set_status false) w.availabilities)))
unfolding delete_availability update_availability_doc
delete-cases u i w = elim (Option-cases (find_mentor_by_user u w)) [
  | inl e ↦ inl (ground arith)
  | inr (m, e) ↦ elim (Option-cases (find_availability i w)) [
    | inl n ↦ inl (ground arith)
    | inr (a, n) ↦ elim (Bool-cases (a.mentor_id == m.id)) [
      | inr other ↦ inl (ground arith)
      | inl own ↦ inr (a, (n, ground arith))
    ]
  ]
]
