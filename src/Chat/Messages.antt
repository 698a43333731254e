-- ===== src/Chat/Messages.antt =====
-- The use cases send-message, mark-messages-read and get-chat of src/application/modules/chat, and
-- `markAsRead` of the repository of messages.
use upstride_api.Base.{
  ℕ, suc, ◌+◌, Bool, true, false, not, ◌&&◌, Option, none, some, List, [], ◌∷◌, ◌++◌, ◌==◌,
  if◌then◌else◌, get_or, map,
}
use upstride_api.Store.{Error, Result, ok, err}
use upstride_api.Chat.{
  Chat, ChatMessage, Chats, MessageStatus, MessageType, find_chat, update_chat,
  find_by_participants, has_participant, mark_read, increment_unread_for, create_chat,
}
use upstride_api.Chat.Pages.{CursorCodec, Page, list_by_chat_id}

abbrev pub is_sent : MessageStatus → Bool
is_sent MessageStatus.send = true
is_sent MessageStatus.read = false

-- The filter of `markAsRead`.
abbrev pub is_unread_by : (chat_id reader : ℕ) → ChatMessage → Bool
is_unread_by chat_id reader m =
    m.chat_id == chat_id && (not (m.sender_id == reader) && is_sent m.status)

abbrev pub as_read : (chat_id reader : ℕ) → ChatMessage → ChatMessage
as_read chat_id reader m =
    if is_unread_by chat_id reader m then record m { status = MessageStatus.read } else m

abbrev pub count_unread : (chat_id reader : ℕ) → List ChatMessage → ℕ
count_unread chat_id reader [] = 0
count_unread chat_id reader (m ∷ ms) =
    (if is_unread_by chat_id reader m then 1 else 0) + count_unread chat_id reader ms

-- `markAsRead`, which returns how many messages it changes.
abbrev pub mark_as_read : (chat_id reader : ℕ) → Chats → ℕ × Chats
mark_as_read chat_id reader s = (
  count_unread chat_id reader s.messages,
  record s { messages = map (as_read chat_id reader) s.messages },
)

-- `updateById` with the counts of a chat that was found.
abbrev pub set_unread_count : (unread_count : ℕ → Option ℕ) → Chat → Chat
set_unread_count counts x = record x { unread_count = counts }

-- `MarkMessagesReadUseCase.execute`
unfoldable pub mark_messages_read : (chat_id reader : ℕ) → Chats → Result ℕ × Chats
mark_messages_read chat_id reader s = elim (find_chat chat_id s) [
  | none ↦ (err Error.not_found, s)
  | some c ↦
      if not (has_participant reader c)
      then (err Error.validation, s)
      else (let marked = mark_as_read chat_id reader s in
          (
            ok marked.0,
            update_chat c.id (set_unread_count (mark_read reader c).unread_count) marked.1,
          ))
]

pub record SendMessageInput : Type 0 where
  pub chat_id : ℕ
  pub sender_id : ℕ
  pub has_content : Bool
  pub has_media : Bool
  pub message_type : Option MessageType

-- A chat that was created is looked up again.
abbrev pub created_chat : Result Chat × Chats → Result Chat × Chats
created_chat (err e, s) = (err e, s)
created_chat (ok x, s) = elim (find_chat x.id s) [
  | none ↦ (err Error.not_found, s)
  | some c ↦ (ok c, s)
]

-- The chat of an input whose `chatId` is a chat's, or a user's with whom a chat is started.
abbrev pub resolve_chat : SendMessageInput → Chats → Result Chat × Chats
resolve_chat i s = elim (find_chat i.chat_id s) [
  | some c ↦ (ok c, s)
  | none ↦ elim (find_by_participants i.sender_id i.chat_id s) [
    | some c ↦ (ok c, s)
    | none ↦ created_chat (create_chat i.sender_id i.chat_id s)
  ]
]

abbrev pub receiver_of : (sender : ℕ) → Chat → ℕ
receiver_of sender c = if c.user1_id == sender then c.user2_id else c.user1_id

abbrev pub new_message : SendMessageInput → Chat → (now id : ℕ) → ChatMessage
new_message i c now id = record {
  id = id;
  chat_id = c.id;
  sender_id = i.sender_id;
  message_type = if i.has_media then get_or i.message_type MessageType.file else MessageType.text;
  status = MessageStatus.send;
  created_at = now;
}

abbrev pub set_last : (last : ℕ) → (unread_count : ℕ → Option ℕ) → Chat → Chat
set_last last counts x = record x { last_message_id = some last; unread_count = counts }

-- What `execute` does with the chat.
abbrev pub send_to : SendMessageInput → Chat → Chats → Result ChatMessage × Chats
send_to i c s =
    if not (has_participant i.sender_id c)
    then (err Error.validation, s)
    else (let receiver = receiver_of i.sender_id c in
        let m = new_message i c s.now s.next_id in
        let stored = record s { messages = s.messages ++ m ∷ []; next_id = suc s.next_id } in
        let updated =
          update_chat c.id
            (set_last m.id (increment_unread_for receiver i.sender_id c).unread_count) stored in
        (
          ok m,
          record updated {
            events =
                updated.events
                ++ record { chat_id = c.id; receiver_id = receiver; message_id = m.id } ∷ [];
          },
        ))

abbrev pub send_found : SendMessageInput → Result Chat × Chats → Result ChatMessage × Chats
send_found i (err e, s) = (err e, s)
send_found i (ok c, s) = send_to i c s

-- `SendMessageUseCase.execute`
unfoldable pub send_message : SendMessageInput → Chats → Result ChatMessage × Chats
send_message i s =
    if not i.has_content && not i.has_media
    then (err Error.validation, s)
    else send_found i (resolve_chat i s)

abbrev pub chat_messages_page_size : ℕ
chat_messages_page_size = 10

-- `GetChatUseCase.execute`: a page of the messages as they were, which are then marked as read.
unfoldable pub get_chat :
    (codec : CursorCodec)
    → (user other : ℕ) → Option codec.Text
    → Chats
    → Result (Page codec) × Chats
get_chat codec user other cursor s = elim (find_by_participants user other s) [
  | none ↦ (err Error.not_found, s)
  | some c ↦
      let page = list_by_chat_id codec c.id cursor chat_messages_page_size s.messages in
      let marked = mark_as_read c.id user s in
      (ok page, update_chat c.id (set_unread_count (mark_read user c).unread_count) marked.1)
]
