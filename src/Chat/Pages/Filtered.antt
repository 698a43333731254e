-- ===== src/Chat/Pages/Filtered.antt =====
-- The sorted messages, of which some are left out.
use upstride_api.Base.{
  suc, ◌≤◌, ◌≡◌, refl, ap, Bool, true, false, List, [], ◌∷◌, ◌++◌, filter, All, All-ap, Bool-cases,
  inl, inr, length, arith,
}
use upstride_api.Chat.{ChatMessage}
use upstride_api.Chat.Pages.{cursor_of, is_before, insert_message, sort_messages}
use upstride_api.Chat.Pages.Sorted.{
  Follows, IsSorted, HaveDistinctIds, Follows-asym, is_before_irrefl, sort_messages-IsSorted,
  Differs,
}

-- A message before all others is put first.
insert_message_front :
    (m : ChatMessage) (xs : List ChatMessage)
    → All (λ y. is_before (cursor_of y) m ≡ false) xs
    → insert_message m xs ≡ m ∷ xs
unfolding insert_message
insert_message_front m [] h = refl
insert_message_front m (x ∷ xs) h = ground arith

pub All-filter :
    (P : ChatMessage → Type 0) (p : ChatMessage → Bool) (xs : List ChatMessage)
    → All P xs
    → All P (filter p xs)
All-filter P p [] h = tt
All-filter P p (x ∷ xs) h = let kept = All-filter P p xs h.1 in ground arith

filter-insert_message-true :
    (p : ChatMessage → Bool) (m : ChatMessage) (xs : List ChatMessage)
    → IsSorted xs
    → p m ≡ true
    → filter p (insert_message m xs) ≡ insert_message m (filter p xs)
unfolding insert_message
filter-insert_message-true p m [] h k = ground arith
filter-insert_message-true p m (x ∷ xs) h k = elim (Bool-cases (is_before (cursor_of x) m)) [
  | inl t ↦ let kept = filter-insert_message-true p m xs h.1 k in ground arith
  | inr t ↦
      let after : All (λ y. is_before (cursor_of y) m ≡ false) xs =
        All-ap (Follows x) (λ y. is_before (cursor_of y) m ≡ false) xs (λ y f. ground arith) h.0 in
      let kept =
        insert_message_front m (filter p xs)
          (All-filter (λ y. is_before (cursor_of y) m ≡ false) p xs after) in
      ground arith
]

filter-insert_message-false :
    (p : ChatMessage → Bool) (m : ChatMessage) (xs : List ChatMessage)
    → p m ≡ false
    → filter p (insert_message m xs) ≡ filter p xs
unfolding insert_message
filter-insert_message-false p m [] k = ground arith
filter-insert_message-false p m (x ∷ xs) k =
    let kept = filter-insert_message-false p m xs k in
    elim (Bool-cases (is_before (cursor_of x) m)) [ inl t ↦ ground arith | inr t ↦ ground arith ]

pub sort_messages-filter :
    (p : ChatMessage → Bool) (xs : List ChatMessage)
    → HaveDistinctIds xs
    → sort_messages (filter p xs) ≡ filter p (sort_messages xs)
unfolding sort_messages
sort_messages-filter p [] d = refl
sort_messages-filter p (x ∷ xs) d =
    let kept = sort_messages-filter p xs d.1 in
    let sorted = sort_messages-IsSorted xs d.1 in
    elim (Bool-cases (p x)) [
      | inl t ↦ let put = filter-insert_message-true p x (sort_messages xs) sorted t in ground arith
      | inr t ↦ let put = filter-insert_message-false p x (sort_messages xs) t in ground arith
    ]

pub HaveDistinctIds-filter :
    (p : ChatMessage → Bool) (xs : List ChatMessage)
    → HaveDistinctIds xs
    → HaveDistinctIds (filter p xs)
HaveDistinctIds-filter p [] d = tt
HaveDistinctIds-filter p (x ∷ xs) d =
    let kept = HaveDistinctIds-filter p xs d.1 in
    let apart = All-filter (Differs x) p xs d.0 in ground arith

pub filter-All :
    (p : ChatMessage → Bool) (xs : List ChatMessage) → All (λ y. p y ≡ true) xs → filter p xs ≡ xs
filter-All p [] h = refl
filter-All p (x ∷ xs) h = let kept = filter-All p xs h.1 in ground arith

pub All-middle :
    (P : ChatMessage → Type 0) (pre : List ChatMessage) (x : ChatMessage) (rest : List ChatMessage)
    → All P (pre ++ x ∷ rest)
    → P x
All-middle P [] x rest h = h.0
All-middle P (y ∷ pre) x rest h = All-middle P pre x rest h.1

-- What follows a message in the order is what its cursor leaves.
pub filter-is_before :
    (pre : List ChatMessage) (x : ChatMessage) (rest : List ChatMessage)
    → IsSorted (pre ++ x ∷ rest)
    → filter (is_before (cursor_of x)) (pre ++ x ∷ rest) ≡ rest
filter-is_before [] x rest h =
    let kept = filter-All (is_before (cursor_of x)) rest h.0 in
    let first = is_before_irrefl x in ground arith
filter-is_before (y ∷ pre) x rest h =
    let kept = filter-is_before pre x rest h.1 in
    let first = Follows-asym y x (All-middle (Follows y) pre x rest h.0) in ground arith

pub ++_assoc : (xs ys zs : List ChatMessage) → (xs ++ ys) ++ zs ≡ xs ++ (ys ++ zs)
++_assoc [] ys zs = refl
++_assoc (x ∷ xs) ys zs = ap (λ us. x ∷ us) (++_assoc xs ys zs)

length-insert_message :
    (m : ChatMessage) (xs : List ChatMessage) → length (insert_message m xs) ≡ suc (length xs)
unfolding insert_message
length-insert_message m [] = refl
length-insert_message m (x ∷ xs) = ground (arith, length-insert_message m xs)

pub length-sort_messages : (xs : List ChatMessage) → length (sort_messages xs) ≡ length xs
unfolding sort_messages
length-sort_messages [] = refl
length-sort_messages (x ∷ xs) =
    ground (arith, length-insert_message x (sort_messages xs), length-sort_messages xs)

pub length-filter :
    (p : ChatMessage → Bool) (xs : List ChatMessage) → length (filter p xs) ≤ length xs
length-filter p [] = omega arith
length-filter p (x ∷ xs) = ground (arith, length-filter p xs)
