-- ===== src/Chat/Pages/Whole.antt =====
-- The pages of a chat's messages, put together.
use Prim.Native.Nat.{ℕ}
use upstride_api.Base.{
  zero, suc, ◌<◌, ◌≡◌, refl, sym, ap, ◌∙◌, subst, true, false, Option, none, some, List, [], ◌∷◌,
  ◌++◌, filter, ltb, All, Bool-cases, inl, inr, length, arith,
}
use upstride_api.Chat.{ChatMessage}
use upstride_api.Chat.Pages.{
  Cursor, CursorCodec, cursor_of, is_before, sort_messages, of_chat, from_cursor, encode_cursor,
  decode_cursor, list_by_chat_id, list_all,
}
use upstride_api.Chat.Pages.Filtered.{
  All-filter, sort_messages-filter, HaveDistinctIds-filter, All-middle, filter-is_before, ++_assoc,
  length-sort_messages, length-filter,
}
use upstride_api.Chat.Pages.Cut.{Cut, cut, take_all, take-take, ltb-length-take}
use upstride_api.Chat.Pages.Sorted.{
  IsSorted, HaveDistinctIds, sort_messages-IsSorted, All-sort_messages,
}

module _ (codec : CursorCodec) where
  open codec use {is_valid_id, parse-stringify, get_time-to_iso, to_iso, stringify}

  decode_cursor-encode_cursor :
      (c : Cursor)
      → is_valid_id c.id ≡ true
      → decode_cursor codec (some (encode_cursor codec c)) ≡ some c
  unfolding decode_cursor encode_cursor
  decode_cursor-encode_cursor c v = ground (
    arith,
    get_time-to_iso c.timestamp,
    parse-stringify (record { timestamp = some (to_iso c.timestamp); id = some c.id }),
  )

  module _ (chat_id n : ℕ) (messages : List ChatMessage) where
    abbrev chat_messages : List ChatMessage
    chat_messages = sort_messages (filter (of_chat chat_id) messages)

    abbrev found : Option codec.Text → List ChatMessage
    found cursor =
        sort_messages (from_cursor (decode_cursor codec cursor) (filter (of_chat chat_id) messages))

    page_last :
        (cursor : Option codec.Text)
        → ltb (suc n) (length (found cursor)) ≡ false
        → ((list_by_chat_id codec chat_id cursor (suc n) messages).items ≡ found cursor)
          × ((list_by_chat_id codec chat_id cursor (suc n) messages).next_cursor ≡ none)
    unfolding list_by_chat_id
    page_last cursor h =
        let more = ltb-length-take (suc n) (found cursor) in
        let same = take-take (suc n) (found cursor) in
        let all = take_all (suc n) (found cursor) h in ground arith

    page_more :
        (cursor : Option codec.Text)
        → ltb (suc n) (length (found cursor)) ≡ true
        → (c : Cut n (found cursor))
        → ((list_by_chat_id codec chat_id cursor (suc n) messages).items ≡ c.before ++ c.last ∷ [])
          × ((list_by_chat_id codec chat_id cursor (suc n) messages).next_cursor
              ≡ some (encode_cursor codec (cursor_of c.last)))
    unfolding list_by_chat_id
    page_more cursor h c =
        let more = ltb-length-take (suc n) (found cursor) in
        let same = take-take (suc n) (found cursor) in
        let page = c.page in let e = c.at in ground arith

    -- The cursor of the last message of a page finds what follows that page.
    found-encode_cursor :
        (pre : List ChatMessage)
        → (x : ChatMessage) → (post : List ChatMessage) → HaveDistinctIds messages
        → All (λ m. is_valid_id m.id ≡ true) messages
        → chat_messages ≡ pre ++ x ∷ post
        → found (some (encode_cursor codec (cursor_of x))) ≡ post
    found-encode_cursor pre x post d v e =
        let chosen = filter (of_chat chat_id) messages in
        let distinct : HaveDistinctIds chosen =
          HaveDistinctIds-filter (of_chat chat_id) messages d in
        let valid : All (λ m. is_valid_id m.id ≡ true) (sort_messages chosen) =
          All-sort_messages (λ m. is_valid_id m.id ≡ true) chosen
            (All-filter (λ m. is_valid_id m.id ≡ true) (of_chat chat_id) messages v) in
        let read = decode_cursor-encode_cursor (cursor_of x) (
          All-middle (λ m. is_valid_id m.id ≡ true) pre x post
            (subst (λ ms. All (λ m. is_valid_id m.id ≡ true) ms) e valid)) in
        let sorted : IsSorted (pre ++ x ∷ post) =
          subst IsSorted e (sort_messages-IsSorted chosen distinct) in
        ap (λ c. sort_messages (from_cursor c chosen)) read
        ∙ sort_messages-filter (is_before (cursor_of x)) chosen distinct
        ∙ ap (filter (is_before (cursor_of x))) e
        ∙ filter-is_before pre x post sorted

    list_all_left :
        (fuel : ℕ) (cursor : Option codec.Text) (pre : List ChatMessage)
        → HaveDistinctIds messages
        → All (λ m. is_valid_id m.id ≡ true) messages
        → chat_messages ≡ pre ++ found cursor
        → length (found cursor) < fuel
        → list_all codec fuel chat_id cursor (suc n) messages ≡ found cursor
    unfolding list_all
    list_all_left zero cursor pre d v e l = ground arith
    list_all_left (suc fuel) cursor pre d v e l =
        elim (Bool-cases (ltb (suc n) (length (found cursor)))) [
          | inl t ↦
              let c = cut n (found cursor) t in
              let page = page_more cursor t c in
              let whole =
                e ∙ ap (λ ms. pre ++ ms) c.whole ∙ sym (++_assoc pre c.before (c.last ∷ c.left)) in
              let next = found-encode_cursor (pre ++ c.before) c.last c.left d v whole in
              let kept =
                list_all_left fuel (some (encode_cursor codec (cursor_of c.last)))
                  ((pre ++ c.before) ++ c.last ∷ []) d v
                  (whole
                    ∙ sym (++_assoc (pre ++ c.before) (c.last ∷ []) c.left)
                    ∙ ap (λ ms. ((pre ++ c.before) ++ c.last ∷ []) ++ ms) (sym next))
                  (let s = c.shorter in ground arith) in
              let all = c.whole in
              let split = ++_assoc c.before (c.last ∷ []) c.left in ground arith
          | inr t ↦ let page = page_last cursor t in ground arith
        ]

-- A client that asks for page after page, from the first on, gets every message of the chat once and
-- the newest first, if messages have distinct identifiers that `isValid` takes, a page has at least
-- one message and the client may ask more often than there are messages.
pub list_all-sort_messages :
    (codec : CursorCodec) (fuel chat_id n : ℕ) (messages : List ChatMessage)
    → HaveDistinctIds messages
    → All (λ m. codec.is_valid_id m.id ≡ true) messages
    → length messages < fuel
    → list_all codec fuel chat_id none (suc n) messages
      ≡ sort_messages (filter (of_chat chat_id) messages)
unfolding decode_cursor
list_all-sort_messages codec fuel chat_id n messages d v l =
    let chosen = filter (of_chat chat_id) messages in
    let a = length-sort_messages chosen in
    let b = length-filter (of_chat chat_id) messages in
    list_all_left codec chat_id n messages fuel none [] d v refl (omega arith)
