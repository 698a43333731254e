-- ===== src/Tests/Chats.antt =====
-- Runs of the chats: messages in pages, and requests of two users.
use upstride_api.Base.{
  ℕ, ◌≡◌, refl, true, false, Option, none, some, List, [], ◌∷◌, filter, if◌then◌else◌, ◌==◌, arith,
}
use upstride_api.Store.{update_key}
use upstride_api.Article.{UserRole}
use upstride_api.Chat.{Chat, ChatMessage, Chats, MessageStatus, MessageType, create_chat}
use upstride_api.Chat.Messages.{SendMessageInput, send_message, mark_messages_read, get_chat}
use upstride_api.Chat.Pages.{
  CursorFields, CursorCodec, insert_message, sort_messages, list_by_chat_id, list_all, of_chat,
  encode_cursor, decode_cursor,
}
use upstride_api.Chat.Pages.Whole.{list_all-sort_messages}
use upstride_api.Chat.Kept.{IsKept}
use upstride_api.Chat.Kept.Served.{Request, serve_all, chats-IsKept}

-- Texts that are the fields themselves.
abbrev codec : CursorCodec
codec = record {
  Text = CursorFields ℕ;
  Iso = ℕ;
  stringify = λ f. f;
  parse = λ f. some f;
  to_iso = λ t. t;
  get_time = λ t. some t;
  is_valid_id = λ i. true;
  parse-stringify = λ f. refl;
  get_time-to_iso = λ t. refl;
}

abbrev message : (id chat_id sender created_at : ℕ) → ChatMessage
message id chat_id sender created_at = record {
  id = id;
  chat_id = chat_id;
  sender_id = sender;
  message_type = MessageType.text;
  status = MessageStatus.send;
  created_at = created_at;
}

-- Two messages of the same time, and one of another chat.
abbrev stored : List ChatMessage
stored = message 1 7 20 100 ∷ message 2 7 21 100 ∷ message 3 8 20 90 ∷ message 4 7 20 120 ∷ []

pages_run :
    list_all codec 5 7 none 2 stored
    ≡ message 4 7 20 120 ∷ message 2 7 21 100 ∷ message 1 7 20 100 ∷ []
unfolding list_all list_by_chat_id encode_cursor decode_cursor sort_messages insert_message
pages_run = refl

list_all-sort_messages_example :
    list_all codec 5 7 none 2 stored ≡ sort_messages (filter (of_chat 7) stored)
list_all-sort_messages_example =
    list_all-sort_messages codec 5 7 1 stored
      ((refl, (refl, (refl, tt))), ((refl, (refl, tt)), ((refl, tt), (tt, tt))))
      (refl, (refl, (refl, (refl, tt)))) (omega arith)

-- Two mentors, a user and an administrator.
abbrev roles : ℕ → Option UserRole
roles i =
    if i == 20
    then some UserRole.mentor
    else if i == 21
    then some UserRole.user
    else (if i == 22 then some UserRole.mentor else if i == 23 then some UserRole.admin else none)

abbrev nothing : Chats
nothing = record { now = 0; roles = roles; chats = []; messages = []; events = []; next_id = 1 }

nothing-IsKept : IsKept nothing
nothing-IsKept = record {
  in_step = λ i. tt;
  sent = tt;
  pairs = λ a b. omega arith;
  distinct = tt;
  unused = λ n. refl;
}

abbrev note : (sender chat : ℕ) → SendMessageInput
note sender chat = record {
  chat_id = chat;
  sender_id = sender;
  has_content = true;
  has_media = false;
  message_type = none;
}

-- The user 21 writes twice to the mentor 20, who answers without reading; two mentors start a chat.
abbrev requests : List (Request codec)
requests =
    Request.sends (note 21 20)
    ∷ Request.ticks 5
    ∷ Request.sends (note 21 1)
    ∷ Request.sends (note 20 1)
    ∷ Request.creates 20 22
    ∷ Request.gets 21 20 none
    ∷ []

abbrev counts_of : List Chat → List (Option ℕ × Option ℕ)
counts_of [] = []
counts_of (c ∷ cs) = (c.unread_count c.user1_id, c.unread_count c.user2_id) ∷ counts_of cs

chats_run :
    counts_of (serve_all codec requests nothing).chats ≡ (some 0, some 0) ∷ (some 0, some 0) ∷ []
unfolding create_chat send_message mark_messages_read get_chat update_key list_by_chat_id
    encode_cursor decode_cursor sort_messages insert_message
chats_run = refl

chats-IsKept_example : IsKept (serve_all codec requests nothing)
chats-IsKept_example = chats-IsKept codec requests nothing nothing-IsKept
