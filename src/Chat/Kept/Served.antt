-- ===== src/Chat/Kept/Served.antt =====
-- Any sequence of requests on chats keeps them in step with the messages.
use upstride_api.Base.{
  ℕ, ◌≡◌, refl, sym, subst, true, not, ◌&&◌, Option, some, List, [], ◌∷◌, find, map, Bool-cases,
  Option-cases, inl, inr, arith,
}
use upstride_api.Store.{Result, ok, err, key-find_key, update_key}
use upstride_api.Chat.{
  Chat, Chats, chat_key, create_chat, find_chat, mark_read, find_by_participants, are_participants,
  has_participant, can_start_between,
}
use upstride_api.Chat.Pages.{CursorCodec}
use upstride_api.Chat.Messages.{
  SendMessageInput, send_message, mark_messages_read, get_chat, resolve_chat, send_to, created_chat,
  send_found, as_read, set_unread_count,
}
use upstride_api.Chat.Kept.{IsKept, AreKept, find_key-find}
use upstride_api.Chat.Kept.Steps.{mark_as_read-AreKept, send_to-AreKept, new_chat-AreKept}

-- A participant, as the search by participants finds it.
find_by_participants-has_participant :
    (user other : ℕ) (xs : List Chat) (c : Chat)
    → find (are_participants user other) xs ≡ some c
    → has_participant user c ≡ true
find_by_participants-has_participant user other [] c h = ground arith
find_by_participants-has_participant user other (x ∷ xs) c h =
    elim (Bool-cases (are_participants user other x)) [
      | inl t ↦
          let e : x ≡ c = ground arith in
          subst (λ y. has_participant user y ≡ true) e (ground arith)
      | inr n ↦ find_by_participants-has_participant user other xs c (ground arith)
    ]

found_id : (i : ℕ) (s : Chats) (c : Chat) → find_chat i s ≡ some c → find_chat c.id s ≡ some c
found_id i s c h = subst (λ j. find_chat j s ≡ some c) (sym (key-find_key chat_key i s.chats c h)) h

create_chat-IsKept : (user other : ℕ) (s : Chats) → IsKept s → IsKept (create_chat user other s).1
unfolding create_chat
create_chat-IsKept user other s h = elim (Option-cases (s.roles user)) [
  | inl n ↦ ground arith
  | inr (a, e) ↦ elim (Option-cases (s.roles other)) [
    | inl n ↦ ground arith
    | inr (b, f) ↦ elim (Bool-cases (can_start_between a b)) [
      | inl t ↦ elim (Option-cases (find_by_participants user other s)) [
        | inl n ↦
            let kept = new_chat-AreKept s.chats s.messages s.next_id h user other n in ground arith
        | inr (c, g) ↦ ground arith
      ]
      | inr t ↦ ground arith
    ]
  ]
]

mark_messages_read-IsKept :
    (chat_id reader : ℕ) (s : Chats) → IsKept s → IsKept (mark_messages_read chat_id reader s).1
unfolding mark_messages_read
mark_messages_read-IsKept chat_id reader s h = elim (Option-cases (find_chat chat_id s)) [
  | inl n ↦ ground arith
  | inr (c, e) ↦ elim (Bool-cases (has_participant reader c)) [
    | inl t ↦
        let same : c.id ≡ chat_id = key-find_key chat_key chat_id s.chats c e in
        let kept =
          mark_as_read-AreKept s.chats s.messages s.next_id h c reader (found_id chat_id s c e) t in
        rw (mark_messages_read, e, t)
          (subst
            (λ j.
              AreKept
                (update_key chat_key c.id (set_unread_count (mark_read reader c).unread_count)
                  s.chats)
                (map (as_read j reader) s.messages) s.next_id)
            same kept)
    | inr t ↦ ground arith
  ]
]

get_chat-IsKept :
    (codec : CursorCodec) (user other : ℕ) (cursor : Option codec.Text) (s : Chats)
    → IsKept s
    → IsKept (get_chat codec user other cursor s).1
unfolding get_chat
get_chat-IsKept codec user other cursor s h =
    elim (Option-cases (find_by_participants user other s)) [
      | inl n ↦ ground arith
      | inr (c, e) ↦
          let kept =
            mark_as_read-AreKept s.chats s.messages s.next_id h c user
              (find_key-find (are_participants user other) s.chats c h.distinct e)
              (find_by_participants-has_participant user other s.chats c e) in
          ground arith
    ]

send_to-IsKept :
    (i : SendMessageInput) (c : Chat) (s : Chats)
    → find_chat c.id s ≡ some c
    → IsKept s
    → IsKept (send_to i c s).1
send_to-IsKept i c s found h = elim (Bool-cases (has_participant i.sender_id c)) [
  | inl t ↦
      let kept = send_to-AreKept s.chats s.messages s.next_id h i c s.now found t in ground arith
  | inr t ↦ ground arith
]

-- The state is in step, and a chat that is returned is there.
abbrev IsThere : Result Chat × Chats → Type 0
IsThere r = IsKept r.1 × ((c : Chat) → r.0 ≡ ok c → find_chat c.id r.1 ≡ some c)

is_there : (c : Chat) (s : Chats) → find_chat c.id s ≡ some c → IsKept s → IsThere (ok c, s)
is_there c s found h =
    (h, λ d e. let same : c ≡ d = ground arith in subst (λ y. find_chat y.id s ≡ some y) same found)

created_chat-IsThere : (r : Result Chat × Chats) → IsKept r.1 → IsThere (created_chat r)
created_chat-IsThere (err e, s) h = (h, λ c k. absurd (ground arith))
created_chat-IsThere (ok x, s) h = elim (Option-cases (find_chat x.id s)) [
  | inl n ↦ rw (created_chat, n) (h, λ c k. absurd (ground arith))
  | inr (c, e) ↦ rw (created_chat, e) (is_there c s (found_id x.id s c e) h)
]

resolve_chat-IsThere : (i : SendMessageInput) (s : Chats) → IsKept s → IsThere (resolve_chat i s)
resolve_chat-IsThere i s h = elim (Option-cases (find_chat i.chat_id s)) [
  | inl n ↦ elim (Option-cases (find_by_participants i.sender_id i.chat_id s)) [
    | inl m ↦
        rw (resolve_chat, n, m)
          (created_chat-IsThere (create_chat i.sender_id i.chat_id s)
            (create_chat-IsKept i.sender_id i.chat_id s h))
    | inr (c, e) ↦
        rw (resolve_chat, n, e)
          (is_there c s
            (find_key-find (are_participants i.sender_id i.chat_id) s.chats c h.distinct e) h)
  ]
  | inr (c, e) ↦ rw (resolve_chat, e) (is_there c s (found_id i.chat_id s c e) h)
]

send_found-IsKept :
    (i : SendMessageInput) (r : Result Chat × Chats) → IsThere r → IsKept (send_found i r).1
send_found-IsKept i (err e, s) h = h.0
send_found-IsKept i (ok c, s) h = send_to-IsKept i c s (h.1 c refl) h.0

send_message-IsKept : (i : SendMessageInput) (s : Chats) → IsKept s → IsKept (send_message i s).1
unfolding send_message
send_message-IsKept i s h = elim (Bool-cases (not i.has_content && not i.has_media)) [
  | inl t ↦ rw t h
  | inr n ↦ rw n (send_found-IsKept i (resolve_chat i s) (resolve_chat-IsThere i s h))
]

-- What users ask for, and the time that passes.
pub data Request (codec : CursorCodec) : Type 0 where
  ticks : ℕ → Request codec
  creates : (user other : ℕ) → Request codec
  sends : SendMessageInput → Request codec
  reads : (chat_id reader : ℕ) → Request codec
  gets : (user other : ℕ) → Option codec.Text → Request codec

module _ (codec : CursorCodec) where
  abbrev pub serve : Request codec → Chats → Chats
  serve (Request.ticks now) s = record s { now = now }
  serve (Request.creates user other) s = (create_chat user other s).1
  serve (Request.sends i) s = (send_message i s).1
  serve (Request.reads chat_id reader) s = (mark_messages_read chat_id reader s).1
  serve (Request.gets user other cursor) s = (get_chat codec user other cursor s).1

  abbrev pub serve_all : List (Request codec) → Chats → Chats
  serve_all [] s = s
  serve_all (r ∷ rs) s = serve_all rs (serve r s)

  serve-IsKept : (r : Request codec) (s : Chats) → IsKept s → IsKept (serve r s)
  serve-IsKept (Request.ticks now) s h = h
  serve-IsKept (Request.creates user other) s h = create_chat-IsKept user other s h
  serve-IsKept (Request.sends i) s h = send_message-IsKept i s h
  serve-IsKept (Request.reads chat_id reader) s h = mark_messages_read-IsKept chat_id reader s h
  serve-IsKept (Request.gets user other cursor) s h = get_chat-IsKept codec user other cursor s h

-- Over any requests on chats, accepted or refused, where it holds before, two users have at most one
-- chat, every message was sent by a participant of its chat, every chat knows its last message, and
-- counts no more for a participant than the messages of it that the participant did not send and has
-- not read; no chat has an identifier that is to come or another chat's.
pub chats-IsKept :
    (codec : CursorCodec) (rs : List (Request codec)) (s : Chats)
    → IsKept s
    → IsKept (serve_all codec rs s)
chats-IsKept codec [] s h = h
chats-IsKept codec (r ∷ rs) s h = chats-IsKept codec rs (serve codec r s) (serve-IsKept codec r s h)
