-- ===== src/Chat/Kept.antt =====
-- The chats and the messages are in step.
pub mod Writes
pub mod Pairs
pub mod Steps
pub mod Served
use upstride_api.Base.{
  ℕ, ◌+◌, ◌≤◌, ◌≡◌, ◌≢◌, refl, sym, subst, ◌∙◌, Bool, true, false, Option, none, some, List, [],
  ◌∷◌, ◌++◌, find, ◌==◌, ==_iff, if◌then◌else◌, get_or, All, Bool-cases, Option-cases, inl, inr,
  arith,
}
use native.Mathlib.Decide.{ℕ_discrete}
use upstride_api.Store.{
  find_key, update_key, find_key-update_self, find_key-update_ne, key-find_key,
}
use upstride_api.Article.Counts.{tally, find_key-append, find_key-update_none}
use upstride_api.Chat.{Chat, ChatMessage, Chats, chat_key, are_participants, has_participant}
use upstride_api.Chat.Messages.{count_unread}

-- The identifier of the last message of a chat.
abbrev pub last_of : ℕ → List ChatMessage → Option ℕ
last_of i [] = none
last_of i (m ∷ ms) = elim (last_of i ms) [
  | some l ↦ some l
  | none ↦ if m.chat_id == i then some m.id else none
]

-- What a chat knows of its messages: it counts no more for a participant than the messages that the
-- participant has not read, and it knows the last one.
abbrev pub InStep : (i : ℕ) → List ChatMessage → Option Chat → Type 0
InStep i ms none = Unit
InStep i ms (some c) =
    ((user : ℕ)
      → has_participant user c ≡ true
      → get_or (c.unread_count user) 0 ≤ count_unread i user ms)
    × (c.last_message_id ≡ last_of i ms)

abbrev pub is_sender_in : ℕ → Option Chat → Bool
is_sender_in user none = false
is_sender_in user (some c) = has_participant user c

abbrev pub WasSentIn : List Chat → ChatMessage → Type 0
WasSentIn chats m = is_sender_in m.sender_id (find_key chat_key m.chat_id chats) ≡ true

abbrev pub HaveDistinctKeys : List Chat → Type 0
HaveDistinctKeys [] = Unit
HaveDistinctKeys (c ∷ cs) = (find_key chat_key c.id cs ≡ none) × HaveDistinctKeys cs

pub record AreKept (chats : List Chat) (messages : List ChatMessage) (next_id : ℕ) : Type 0 where
  pub in_step : (i : ℕ) → InStep i messages (find_key chat_key i chats)
  pub sent : All (WasSentIn chats) messages
  pub pairs : (a b : ℕ) → tally (are_participants a b) chats ≤ 1
  pub distinct : HaveDistinctKeys chats
  pub unused : (n : ℕ) → find_key chat_key (next_id + n) chats ≡ none

abbrev pub IsKept : Chats → Type 0
IsKept s = AreKept s.chats s.messages s.next_id

-- What holds at an identifier after the chat at another one, or at this one, is rewritten.
pub find_key-update_cases :
    (P : Option Chat → Type 0) (i j : ℕ) (f : Chat → Chat) (xs : List Chat) (c : Chat)
    → find_key chat_key j xs ≡ some c
    → ((x : Chat) → (f x).id ≡ x.id)
    → (i ≡ j → P (some (f c)))
    → (i ≢ j → P (find_key chat_key i xs))
    → P (find_key chat_key i (update_key chat_key j f xs))
find_key-update_cases P i j f xs c h k here there = elim (ℕ_discrete i j) [
  | yes p ↦
      subst (λ m. P (find_key chat_key m (update_key chat_key j f xs))) (sym p)
        (rw (find_key-update_self chat_key j f xs c h (k c ∙ key-find_key chat_key j xs c h))
          (here p))
  | no n ↦ rw (find_key-update_ne chat_key j i f xs k (λ e. n (sym e))) (there n)
]

pub HaveDistinctKeys-update :
    (j : ℕ) (f : Chat → Chat) (xs : List Chat)
    → ((x : Chat) → (f x).id ≡ x.id)
    → HaveDistinctKeys xs
    → HaveDistinctKeys (update_key chat_key j f xs)
unfolding update_key
HaveDistinctKeys-update j f [] k d = tt
HaveDistinctKeys-update j f (x ∷ xs) k d = elim (Bool-cases (x.id == j)) [
  | inl t ↦ rw t (rw (k x) d.0, d.1)
  | inr n ↦
      rw n (find_key-update_none chat_key x.id j f xs k d.0, HaveDistinctKeys-update j f xs k d.1)
]

pub HaveDistinctKeys-append :
    (xs : List Chat) (c : Chat)
    → find_key chat_key c.id xs ≡ none
    → HaveDistinctKeys xs
    → HaveDistinctKeys (xs ++ c ∷ [])
HaveDistinctKeys-append [] c n d = (refl, tt)
HaveDistinctKeys-append (x ∷ xs) c n d = (
  rw (find_key-append chat_key x.id xs c) (rw d.0 (ground arith)),
  HaveDistinctKeys-append xs c (ground arith) d.1,
)

-- A chat that a test finds is found by its identifier.
pub find_key-find :
    (p : Chat → Bool) (xs : List Chat) (c : Chat)
    → HaveDistinctKeys xs
    → find p xs ≡ some c
    → find_key chat_key c.id xs ≡ some c
find_key-find p [] c d h = ground arith
find_key-find p (x ∷ xs) c d h = elim (Bool-cases (p x)) [
  | inl t ↦ let e : x ≡ c = ground arith in ground arith
  | inr n ↦
      let kept = find_key-find p xs c d.1 (ground arith) in
      elim (Bool-cases (x.id == c.id)) [
        | inl t ↦
            let e : find_key chat_key c.id xs ≡ none =
              subst (λ m. find_key chat_key m xs ≡ none) ((==_iff x.id c.id).0 t) d.0 in
            absurd (ground arith)
        | inr q ↦ rw q kept
      ]
]

-- No message is of a chat that is not there.
pub last_of-none :
    (i : ℕ) (chats : List Chat) (ms : List ChatMessage)
    → find_key chat_key i chats ≡ none
    → All (WasSentIn chats) ms
    → last_of i ms ≡ none
last_of-none i chats [] n h = refl
last_of-none i chats (m ∷ ms) n h =
    let kept = last_of-none i chats ms n h.1 in
    elim (Bool-cases (m.chat_id == i)) [
      | inl t ↦
          let e : find_key chat_key m.chat_id chats ≡ none =
            subst (λ k. find_key chat_key k chats ≡ none) (sym ((==_iff m.chat_id i).0 t)) n in
          absurd (let s = h.0 in ground arith)
      | inr q ↦ rw (kept, q) refl
    ]
