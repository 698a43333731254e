-- ===== src/Chat/Pages/Sorted.antt =====
-- The order of a chat's messages, and the sort by it.
use upstride_api.Base.{
  ◌≡◌, true, false, List, [], ◌∷◌, ◌==◌, All, All-ap, Bool-cases, inl, inr, arith,
}
use upstride_api.Chat.{ChatMessage}
use upstride_api.Chat.Pages.{cursor_of, is_before, insert_message, sort_messages}

abbrev pub Follows : ChatMessage → ChatMessage → Type 0
Follows x y = is_before (cursor_of x) y ≡ true

abbrev pub IsSorted : List ChatMessage → Type 0
IsSorted [] = Unit
IsSorted (x ∷ xs) = All (Follows x) xs × IsSorted xs

abbrev pub Differs : ChatMessage → ChatMessage → Type 0
Differs x y = (y.id == x.id) ≡ false

abbrev pub HaveDistinctIds : List ChatMessage → Type 0
HaveDistinctIds [] = Unit
HaveDistinctIds (x ∷ xs) = All (Differs x) xs × HaveDistinctIds xs

Follows-trans : (x y z : ChatMessage) → Follows x y → Follows y z → Follows x z
Follows-trans x y z h k = ground arith

Follows-total : (x y : ChatMessage) → Differs y x → is_before (cursor_of x) y ≡ false → Follows y x
Follows-total x y d h = ground arith

pub Follows-asym : (x y : ChatMessage) → Follows x y → is_before (cursor_of y) x ≡ false
Follows-asym x y h = ground arith

pub is_before_irrefl : (x : ChatMessage) → is_before (cursor_of x) x ≡ false
is_before_irrefl x = ground arith

All-insert_message :
    (P : ChatMessage → Type 0) (m : ChatMessage) (xs : List ChatMessage)
    → P m
    → All P xs
    → All P (insert_message m xs)
unfolding insert_message
All-insert_message P m [] p h = (p, tt)
All-insert_message P m (x ∷ xs) p h = elim (Bool-cases (is_before (cursor_of x) m)) [
  | inl t ↦ let kept = All-insert_message P m xs p h.1 in ground arith
  | inr t ↦ ground arith
]

pub All-sort_messages :
    (P : ChatMessage → Type 0) (xs : List ChatMessage) → All P xs → All P (sort_messages xs)
unfolding sort_messages
All-sort_messages P [] h = tt
All-sort_messages P (x ∷ xs) h =
    All-insert_message P x (sort_messages xs) h.0 (All-sort_messages P xs h.1)

insert_message-IsSorted :
    (m : ChatMessage) (xs : List ChatMessage)
    → All (Differs m) xs
    → IsSorted xs
    → IsSorted (insert_message m xs)
unfolding insert_message
insert_message-IsSorted m [] d h = (tt, tt)
insert_message-IsSorted m (x ∷ xs) d h = elim (Bool-cases (is_before (cursor_of x) m)) [
  | inl t ↦
      let kept = insert_message-IsSorted m xs d.1 h.1 in
      let after = All-insert_message (Follows x) m xs t h.0 in ground arith
  | inr t ↦
      let f : Follows m x = Follows-total x m d.0 t in
      let after : All (Follows m) xs =
        All-ap (Follows x) (Follows m) xs (λ z k. Follows-trans m x z f k) h.0 in
      ground arith
]

pub sort_messages-IsSorted :
    (xs : List ChatMessage) → HaveDistinctIds xs → IsSorted (sort_messages xs)
unfolding sort_messages
sort_messages-IsSorted [] d = tt
sort_messages-IsSorted (x ∷ xs) d =
    insert_message-IsSorted x (sort_messages xs) (All-sort_messages (Differs x) xs d.0)
      (sort_messages-IsSorted xs d.1)
