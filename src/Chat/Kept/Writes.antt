-- ===== src/Chat/Kept/Writes.antt =====
-- Each kind of write keeps the chats and the messages in step.
use upstride_api.Base.{
  ℕ, suc, ◌+◌, ◌≡◌, ◌≢◌, refl, sym, subst, ◌∙◌, true, false, none, some, List, [], ◌∷◌, ◌++◌, ◌==◌,
  ==_iff, if◌then◌else◌, map, All, Bool-cases, Option-cases, inl, inr, arith,
}
use upstride_api.Store.{find_key, update_key}
use upstride_api.Article.Counts.{find_key-append}
use upstride_api.Chat.{Chat, ChatMessage, chat_key, has_participant}
use upstride_api.Chat.Messages.{count_unread, is_unread_by, as_read}
use upstride_api.Chat.Kept.{last_of, is_sender_in, WasSentIn, find_key-update_cases}

pub later :
    (chats : List Chat) (next n : ℕ)
    → ((m : ℕ) → find_key chat_key (next + m) chats ≡ none)
    → find_key chat_key (suc next + n) chats ≡ none
later chats next n h =
    let e : next + suc n ≡ suc next + n = omega arith in
    subst (λ i. find_key chat_key i chats ≡ none) e (h (suc n))

-- The messages of a chat that is there stay so.
pub WasSentIn-append :
    (chats : List Chat) (c : Chat) (m : ChatMessage)
    → WasSentIn chats m
    → WasSentIn (chats ++ c ∷ []) m
WasSentIn-append chats c m h = elim (Option-cases (find_key chat_key m.chat_id chats)) [
  | inl n ↦ absurd (ground arith)
  | inr (x, e) ↦ rw (find_key-append chat_key m.chat_id chats c) (ground arith)
]

pub WasSentIn-update :
    (chats : List Chat) (j : ℕ) (f : Chat → Chat) (c : Chat) (m : ChatMessage)
    → find_key chat_key j chats ≡ some c
    → ((x : Chat) → (f x).id ≡ x.id)
    → ((user : ℕ) → has_participant user (f c) ≡ has_participant user c)
    → WasSentIn chats m
    → WasSentIn (update_key chat_key j f chats) m
WasSentIn-update chats j f c m found k p h =
    find_key-update_cases (λ o. is_sender_in m.sender_id o ≡ true) m.chat_id j f chats c found k
      (λ e.
        let q : find_key chat_key m.chat_id chats ≡ some c =
          subst (λ i. find_key chat_key i chats ≡ some c) (sym e) found in
        p m.sender_id ∙ ground arith)
      (λ n. h)

pub count_unread-append :
    (i user : ℕ) (ms : List ChatMessage) (m : ChatMessage)
    → count_unread i user (ms ++ m ∷ [])
      ≡ count_unread i user ms + (if is_unread_by i user m then 1 else 0)
count_unread-append i user [] m = omega arith
count_unread-append i user (x ∷ ms) m = rw (count_unread-append i user ms m) (omega arith)

pub last_of-append :
    (i : ℕ) (ms : List ChatMessage) (m : ChatMessage)
    → last_of i (ms ++ m ∷ []) ≡ (if m.chat_id == i then some m.id else last_of i ms)
last_of-append i [] m = refl
last_of-append i (x ∷ ms) m =
    let kept = last_of-append i ms m in
    elim (Bool-cases (m.chat_id == i)) [ inl t ↦ ground arith | inr n ↦ ground arith ]

pub last_of-map :
    (j reader i : ℕ) (ms : List ChatMessage) → last_of i (map (as_read j reader) ms) ≡ last_of i ms
last_of-map j reader i [] = refl
last_of-map j reader i (x ∷ ms) =
    let kept = last_of-map j reader i ms in
    elim (Bool-cases (is_unread_by j reader x)) [ inl t ↦ ground arith | inr n ↦ ground arith ]

-- Two participants of a chat, of whom one did not send a message: the other did.
sender_cases :
    (c : Chat) (user reader sender : ℕ)
    → has_participant user c ≡ true
    → has_participant reader c ≡ true
    → has_participant sender c ≡ true
    → (user == reader) ≡ false
    → (sender == user) ≡ false
    → (sender == reader) ≡ true
sender_cases c user reader sender u r s n m = ground arith

-- What one participant reads is not what the other has to read.
pub count_unread-map :
    (chats : List Chat) (c : Chat) (j user reader : ℕ) (ms : List ChatMessage)
    → find_key chat_key j chats ≡ some c
    → has_participant user c ≡ true
    → has_participant reader c ≡ true
    → (user == reader) ≡ false
    → All (WasSentIn chats) ms
    → count_unread j user (map (as_read j reader) ms) ≡ count_unread j user ms
count_unread-map chats c j user reader [] found u r n h = refl
count_unread-map chats c j user reader (m ∷ ms) found u r n h =
    let kept = count_unread-map chats c j user reader ms found u r n h.1 in
    elim (Bool-cases (is_unread_by j reader m)) [
      | inl t ↦
          let e : m.chat_id ≡ j = (==_iff m.chat_id j).0 (ground arith) in
          let q : find_key chat_key m.chat_id chats ≡ some c =
            subst (λ i. find_key chat_key i chats ≡ some c) (sym e) found in
          let s : has_participant m.sender_id c ≡ true = let s0 = h.0 in ground arith in
          elim (Bool-cases (m.sender_id == user)) [
            | inl y ↦ ground arith
            | inr y ↦ let z = sender_cases c user reader m.sender_id u r s n y in ground arith
          ]
      | inr t ↦ ground arith
    ]

pub count_unread-map_ne :
    (i j user reader : ℕ) (ms : List ChatMessage)
    → i ≢ j
    → count_unread i user (map (as_read j reader) ms) ≡ count_unread i user ms
count_unread-map_ne i j user reader [] n = refl
count_unread-map_ne i j user reader (m ∷ ms) n =
    let kept = count_unread-map_ne i j user reader ms n in
    elim (Bool-cases (is_unread_by j reader m)) [
      | inl t ↦
          let e : m.chat_id ≡ j = (==_iff m.chat_id j).0 (ground arith) in
          let d : (m.chat_id == i) ≡ false = ground (arith, ==_iff m.chat_id i) in ground arith
      | inr t ↦ ground arith
    ]

pub WasSentIn-map :
    (chats : List Chat) (j reader : ℕ) (ms : List ChatMessage)
    → All (WasSentIn chats) ms
    → All (WasSentIn chats) (map (as_read j reader) ms)
WasSentIn-map chats j reader [] h = tt
WasSentIn-map chats j reader (m ∷ ms) h = (
  elim (Bool-cases (is_unread_by j reader m)) [ inl t ↦ rw t h.0 | inr n ↦ rw n h.0 ],
  WasSentIn-map chats j reader ms h.1,
)
