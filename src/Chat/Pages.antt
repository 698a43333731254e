-- ===== src/Chat/Pages.antt =====
-- `listByChatId` of src/infrastructure/database/mongodb/repositories/chat-message.repository.ts: a page
-- of a chat's messages, the newest first, from a cursor on.
pub mod Cut
pub mod Sorted
pub mod Filtered
pub mod Whole
use upstride_api.Base.{
  ℕ, zero, suc, ◌+◌, ◌≡◌, Bool, true, false, ◌&&◌, ◌||◌, Option, none, some, List, [], ◌∷◌, ◌++◌,
  filter, ltb, ◌==◌, if◌then◌else◌, length, not,
}
use mathlib.Core.Option
use upstride_api.Chat.{ChatMessage}

pub record Cursor : Type 0 where
  pub timestamp : ℕ
  pub id : ℕ

-- The fields that a cursor's JSON may have; `timestamp` is a text in the ISO format.
pub record CursorFields (Iso : Type 0) : Type 0 where
  pub timestamp : Option Iso
  pub id : Option ℕ

-- What `encodeCursor` and `decodeCursor` use: JSON in base64, of which other texts than those that
-- were written may not be read; the ISO format of dates; and the test on identifiers.
pub record CursorCodec : Type 1 where
  pub Text : Type 0
  pub Iso : Type 0
  pub stringify : CursorFields Iso → Text
  pub parse : Text → Option (CursorFields Iso)
  pub to_iso : ℕ → Iso
  pub get_time : Iso → Option ℕ
  pub is_valid_id : ℕ → Bool
  pub parse-stringify : (f : CursorFields Iso) → parse (stringify f) ≡ some f
  pub get_time-to_iso : (t : ℕ) → get_time (to_iso t) ≡ some t

abbrev pub cursor_of : ChatMessage → Cursor
cursor_of m = record { timestamp = m.created_at; id = m.id }

-- The filter that a cursor adds.
abbrev pub is_before : Cursor → ChatMessage → Bool
is_before c m = ltb m.created_at c.timestamp || (m.created_at == c.timestamp && ltb m.id c.id)

-- `sort({ createdAt: -1, _id: -1 })`
unfoldable pub insert_message : ChatMessage → List ChatMessage → List ChatMessage
insert_message m [] = m ∷ []
insert_message m (x ∷ xs) =
    if is_before (cursor_of x) m then x ∷ insert_message m xs else m ∷ x ∷ xs

unfoldable pub sort_messages : List ChatMessage → List ChatMessage
sort_messages [] = []
sort_messages (m ∷ ms) = insert_message m (sort_messages ms)

module _ {ℓ} {A : Type ℓ} where
  -- `limit` and `slice`
  abbrev pub take : ℕ → List A → List A
  take zero xs = []
  take (suc n) [] = []
  take (suc n) (x ∷ xs) = x ∷ take n xs

  abbrev pub get_elem? : List A → ℕ → Option A
  get_elem? [] i = none
  get_elem? (x ∷ xs) zero = some x
  get_elem? (x ∷ xs) (suc i) = get_elem? xs i

abbrev pub of_chat : ℕ → ChatMessage → Bool
of_chat chat_id m = m.chat_id == chat_id

-- What a cursor leaves; one that cannot be read is none.
abbrev pub from_cursor : Option Cursor → List ChatMessage → List ChatMessage
from_cursor none ms = ms
from_cursor (some c) ms = filter (is_before c) ms

module _ (codec : CursorCodec) where
  open codec use {Text, Iso, stringify, parse, to_iso, get_time, is_valid_id}

  pub record Page : Type 0 where
    pub items : List ChatMessage
    pub has_more : Bool
    pub next_cursor : Option Text

  unfoldable pub encode_cursor : Cursor → Text
  encode_cursor c = stringify (record { timestamp = some (to_iso c.timestamp); id = some c.id })

  abbrev pub fields_cursor : Option Iso → Option ℕ → Option Cursor
  fields_cursor (some t) (some i) =
      if not (is_valid_id i)
      then none
      else Option.map (λ n. record { timestamp = n; id = i }) (get_time t)
  fields_cursor _ _ = none

  unfoldable pub decode_cursor : Option Text → Option Cursor
  decode_cursor none = none
  decode_cursor (some t) = elim (parse t) [ none ↦ none | some f ↦ fields_cursor f.timestamp f.id ]

  -- `docs[limit - 1]`
  abbrev pub last_doc : ℕ → List ChatMessage → Option ChatMessage
  last_doc zero docs = none
  last_doc (suc n) docs = get_elem? docs n

  unfoldable pub list_by_chat_id :
      (chat_id : ℕ) → Option Text → (limit : ℕ) → List ChatMessage → Page
  list_by_chat_id chat_id cursor limit messages =
      let found = from_cursor (decode_cursor cursor) (filter (of_chat chat_id) messages) in
      let docs = take (limit + 1) (sort_messages found) in
      let has_more = ltb limit (length docs) in
      record {
        items = take limit docs;
        has_more = has_more;
        next_cursor =
            if has_more
            then Option.map (λ m. encode_cursor (cursor_of m)) (last_doc limit docs)
            else none;
      }

  -- What a client sees that asks for page after page.
  unfoldable pub list_all :
      (fuel chat_id : ℕ) → Option Text → (limit : ℕ) → List ChatMessage → List ChatMessage
  list_all zero chat_id cursor limit messages = []
  list_all (suc fuel) chat_id cursor limit messages =
      let page = list_by_chat_id chat_id cursor limit messages in
      elim page.next_cursor [
        | none ↦ page.items
        | some t ↦ page.items ++ list_all fuel chat_id (some t) limit messages
      ]
