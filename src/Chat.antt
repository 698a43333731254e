-- ===== src/Chat.antt =====
-- src/domain/entities/chat.entity.ts and chat-message.entity.ts, their collections, and the use cases of
-- src/application/modules/chat. Texts and attachments are left out but for whether there are any.
pub mod Messages
pub mod Pages
pub mod Kept
use upstride_api.Base.{
  ℕ, suc, ◌+◌, Bool, true, false, not, ◌&&◌, ◌||◌, Option, none, some, List, [], ◌∷◌, ◌++◌, find,
  ◌==◌, if◌then◌else◌, get_or, any,
}
use upstride_api.Store.{Error, Result, ok, err, find_key, update_key}
use upstride_api.Article.{UserRole}

pub data MessageStatus : Type 0 where
  send read : MessageStatus

pub data MessageType : Type 0 where
  text image file : MessageType

pub record ChatMessage : Type 0 where
  pub id : ℕ
  pub chat_id : ℕ
  pub sender_id : ℕ
  pub message_type : MessageType
  pub status : MessageStatus
  pub created_at : ℕ

pub record Chat : Type 0 where
  pub id : ℕ
  pub user1_id : ℕ
  pub user2_id : ℕ
  pub last_message_id : Option ℕ
  pub unread_count : ℕ → Option ℕ

pub record MessageSent : Type 0 where
  pub chat_id : ℕ
  pub receiver_id : ℕ
  pub message_id : ℕ

-- The collections; identifiers are drawn in order.
pub record Chats : Type 0 where
  pub now : ℕ
  pub roles : ℕ → Option UserRole
  pub chats : List Chat
  pub messages : List ChatMessage
  pub events : List MessageSent
  pub next_id : ℕ

abbrev pub chat_key : Chat → ℕ
chat_key c = c.id

abbrev pub find_chat : ℕ → Chats → Option Chat
find_chat i s = find_key chat_key i s.chats

abbrev pub update_chat : ℕ → (Chat → Chat) → Chats → Chats
update_chat i f s = record s { chats = update_key chat_key i f s.chats }

abbrev pub are_participants : (user1 user2 : ℕ) → Chat → Bool
are_participants user1 user2 c =
    (c.user1_id == user1 && c.user2_id == user2) || (c.user1_id == user2 && c.user2_id == user1)

abbrev pub find_by_participants : (user1 user2 : ℕ) → Chats → Option Chat
find_by_participants user1 user2 s = find (are_participants user1 user2) s.chats

-- `Chat.canStartBetween`
abbrev pub is_allowed : UserRole → Bool
is_allowed UserRole.user = true
is_allowed UserRole.mentor = true
is_allowed _ = false

abbrev pub is_user : UserRole → Bool
is_user UserRole.user = true
is_user _ = false

abbrev pub can_start_between : UserRole → UserRole → Bool
can_start_between a b = is_allowed a && (is_allowed b && not (is_user a && is_user b))

abbrev pub has_participant : ℕ → Chat → Bool
has_participant user c = c.user1_id == user || c.user2_id == user

-- `unreadCount.set`
abbrev pub set_count : (user n : ℕ) → (ℕ → Option ℕ) → ℕ → Option ℕ
set_count user n counts i = if i == user then some n else counts i

abbrev pub mark_read : ℕ → Chat → Chat
mark_read user c = record c { unread_count = set_count user 0 c.unread_count }

abbrev pub increment_unread_for : (receiver sender : ℕ) → Chat → Chat
increment_unread_for receiver sender c = record c {
  unread_count =
      set_count sender 0
        (set_count receiver (get_or (c.unread_count receiver) 0 + 1) c.unread_count);
}

abbrev pub new_chat : (user other id : ℕ) → Chat
new_chat user other id = record {
  id = id;
  user1_id = user;
  user2_id = other;
  last_message_id = none;
  unread_count = set_count other 0 (set_count user 0 (λ i. none));
}

-- `CreateChatUseCase.execute`
unfoldable pub create_chat : (user other : ℕ) → Chats → Result Chat × Chats
create_chat user other s = elim (s.roles user) [
  | none ↦ (err Error.user_not_found, s)
  | some a ↦ elim (s.roles other) [
    | none ↦ (err Error.user_not_found, s)
    | some b ↦
        if not (can_start_between a b)
        then (err Error.validation, s)
        else elim (find_by_participants user other s) [
          | some c ↦ (ok c, s)
          | none ↦
              let c = new_chat user other s.next_id in
              (ok c, record s { chats = s.chats ++ c ∷ []; next_id = suc s.next_id })
        ]
  ]
]
