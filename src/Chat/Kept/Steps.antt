-- ===== src/Chat/Kept/Steps.antt =====
-- A chat that is started, a message that is stored, and messages that are read.
use upstride_api.Base.{
  ℕ, suc, ◌+◌, ◌≤◌, ◌≡◌, refl, sym, ap, subst, ◌∙◌, true, Option, none, some, List, [], ◌∷◌, ◌++◌,
  find, ◌==◌, ==_iff, get_or, map, All-ap, All-++, Bool-cases, Option-cases, inl, inr, arith,
}
use upstride_api.Store.{find_key, update_key}
use upstride_api.Article.Counts.{
  tally-append, tally-update_same, find_key-append, find_key-update_none,
}
use upstride_api.Chat.{
  Chat, ChatMessage, chat_key, are_participants, has_participant, mark_read, increment_unread_for,
  new_chat,
}
use upstride_api.Chat.Messages.{
  count_unread, is_unread_by, as_read, set_unread_count, set_last, receiver_of, SendMessageInput,
  new_message,
}
use upstride_api.Chat.Kept.{
  last_of, InStep, WasSentIn, AreKept, find_key-update_cases, HaveDistinctKeys-update,
  HaveDistinctKeys-append, last_of-none,
}
use upstride_api.Chat.Kept.Pairs.{tally-are_participants}
use upstride_api.Chat.Kept.Writes.{
  later, WasSentIn-append, WasSentIn-update, count_unread-append, last_of-append, last_of-map,
  count_unread-map, count_unread-map_ne, WasSentIn-map,
}

InStep-other :
    (i : ℕ) (ms ns : List ChatMessage) (o : Option Chat)
    → ((user : ℕ) → count_unread i user ms ≤ count_unread i user ns)
    → last_of i ns ≡ last_of i ms
    → InStep i ms o
    → InStep i ns o
InStep-other i ms ns none k l h = tt
InStep-other i ms ns (some c) k l h =
    (λ user p. let a = k user in let b = h.0 user p in omega arith, h.1 ∙ sym l)

module _ (chats : List Chat) (ms : List ChatMessage) (next : ℕ) (h : AreKept chats ms next) where
  at_found : (c : Chat) → find_key chat_key c.id chats ≡ some c → InStep c.id ms (some c)
  at_found c found = subst (InStep c.id ms) found (h.in_step c.id)

  read-InStep :
      (c : Chat) (reader : ℕ)
      → find_key chat_key c.id chats ≡ some c
      → has_participant reader c ≡ true
      → InStep c.id
          (map (as_read c.id reader) ms)
          (some (set_unread_count (mark_read reader c).unread_count c))
  read-InStep c reader found r =
      let k = at_found c found in
      (
        λ user p. elim (Bool-cases (user == reader)) [
          | inl t ↦ rw t (omega arith)
          | inr n ↦
              let same = count_unread-map chats c c.id user reader ms found p r n h.sent in
              let b = k.0 user p in rw n (omega arith)
        ],
        k.1 ∙ sym (last_of-map c.id reader c.id ms),
      )

  sent-InStep :
      (i : SendMessageInput) (c : Chat) (now : ℕ)
      → find_key chat_key c.id chats ≡ some c
      → InStep c.id (ms ++ new_message i c now next ∷ []) (
          some (
            set_last next
              (increment_unread_for (receiver_of i.sender_id c) i.sender_id c).unread_count
              c))
  sent-InStep i c now found =
      let k = at_found c found in
      let m = new_message i c now next in
      (
        λ user p.
            let b = k.0 user p in
            let a = count_unread-append c.id user ms m in
            elim (Bool-cases (user == i.sender_id)) [
              | inl t ↦ rw t (omega arith)
              | inr n ↦ elim (Bool-cases (user == receiver_of i.sender_id c)) [
                | inl t ↦
                    let e : user ≡ receiver_of i.sender_id c =
                      (==_iff user (receiver_of i.sender_id c)).0 t in
                    let unread : is_unread_by c.id user m ≡ true = ground arith in
                    let same : get_or (c.unread_count user) 0
                        ≡ get_or (c.unread_count (receiver_of i.sender_id c)) 0 =
                      ap (λ v. get_or (c.unread_count v) 0) e in
                    let a1 : count_unread c.id user (ms ++ m ∷ []) ≡ count_unread c.id user ms + 1 =
                      a ∙ rw unread refl in
                    rw (n, t) (omega arith)
                | inr q ↦ rw (n, q) (omega arith)
              ]
            ],
        let l = last_of-append c.id ms m in sym (l ∙ rw ((==_iff c.id c.id).1 refl) refl),
      )

  pub mark_as_read-AreKept :
      (c : Chat) (reader : ℕ)
      → find_key chat_key c.id chats ≡ some c
      → has_participant reader c ≡ true
      → AreKept
          (update_key chat_key c.id (set_unread_count (mark_read reader c).unread_count) chats)
          (map (as_read c.id reader) ms)
          next
  mark_as_read-AreKept c reader found r =
      let f = set_unread_count (mark_read reader c).unread_count in
      record {
        in_step = λ i.
            find_key-update_cases (InStep i (map (as_read c.id reader) ms)) i c.id f chats c found
              (λ x. refl)
              (λ e.
                subst (λ k. InStep k (map (as_read c.id reader) ms) (some (f c))) (sym e)
                  (read-InStep c reader found r))
              (λ n.
                InStep-other i ms (map (as_read c.id reader) ms) (find_key chat_key i chats)
                  (λ u. let q = count_unread-map_ne i c.id u reader ms n in omega arith)
                  (last_of-map c.id reader i ms) (h.in_step i));
        sent = WasSentIn-map (update_key chat_key c.id f chats) c.id reader ms (
            All-ap (WasSentIn chats) (WasSentIn (update_key chat_key c.id f chats)) ms
              (λ m. WasSentIn-update chats c.id f c m found (λ x. refl) (λ u. refl)) h.sent);
        pairs = λ a b.
            rw (tally-update_same chat_key (are_participants a b) c.id f chats (λ x. refl))
              (h.pairs a b);
        distinct = HaveDistinctKeys-update c.id f chats (λ x. refl) h.distinct;
        unused =
            λ n. find_key-update_none chat_key (next + n) c.id f chats (λ x. refl) (h.unused n);
      }

  pub send_to-AreKept :
      (i : SendMessageInput) (c : Chat) (now : ℕ)
      → find_key chat_key c.id chats ≡ some c
      → has_participant i.sender_id c ≡ true
      → AreKept
          (update_key chat_key c.id
            (set_last next
              (increment_unread_for (receiver_of i.sender_id c) i.sender_id c).unread_count)
            chats)
          (ms ++ new_message i c now next ∷ [])
          (suc next)
  send_to-AreKept i c now found p =
      let m = new_message i c now next in
      let f =
        set_last next
          (increment_unread_for (receiver_of i.sender_id c) i.sender_id c).unread_count in
      let kept =
        All-ap (WasSentIn chats) (WasSentIn (update_key chat_key c.id f chats)) ms
          (λ x. WasSentIn-update chats c.id f c x found (λ x. refl) (λ u. refl)) h.sent in
      let mine = WasSentIn-update chats c.id f c m found (λ x. refl) (λ u. refl) (rw found p) in
      record {
        in_step = λ j.
            find_key-update_cases (InStep j (ms ++ m ∷ [])) j c.id f chats c found (λ x. refl)
              (λ e.
                subst (λ k. InStep k (ms ++ m ∷ []) (some (f c))) (sym e)
                  (sent-InStep i c now found))
              (λ n.
                InStep-other j ms (ms ++ m ∷ []) (find_key chat_key j chats)
                  (λ u. let q = count_unread-append j u ms m in omega arith)
                  (let q = last_of-append j ms m in ground (arith, ==_iff c.id j)) (h.in_step j));
        sent = All-++ (WasSentIn (update_key chat_key c.id f chats)) ms (m ∷ []) kept (mine, tt);
        pairs = λ a b.
            rw (tally-update_same chat_key (are_participants a b) c.id f chats (λ x. refl))
              (h.pairs a b);
        distinct = HaveDistinctKeys-update c.id f chats (λ x. refl) h.distinct;
        unused = λ n.
            find_key-update_none chat_key (suc next + n) c.id f chats (λ x. refl)
              (later chats next n h.unused);
      }

  pub new_chat-AreKept :
      (user other : ℕ)
      → find (are_participants user other) chats ≡ none
      → AreKept (chats ++ new_chat user other next ∷ []) ms (suc next)
  new_chat-AreKept user other n =
      let c = new_chat user other next in
      let free : find_key chat_key next chats ≡ none =
        subst (λ i. find_key chat_key i chats ≡ none) (omega arith) (h.unused 0) in
      record {
        in_step = λ i. rw (find_key-append chat_key i chats c) (
            let k = h.in_step i in
            elim (Option-cases (find_key chat_key i chats)) [
              | inl q ↦ elim (Bool-cases (next == i)) [
                | inl t ↦
                    let l = last_of-none i chats ms q h.sent in
                    rw (q, t)
                      (
                        λ u p. elim (Bool-cases (u == other)) [
                          | inl a ↦ rw a (omega arith)
                          | inr a ↦ elim (Bool-cases (u == user)) [
                            | inl b ↦ rw (a, b) (omega arith)
                            | inr b ↦ rw (a, b) (omega arith)
                          ]
                        ],
                        sym l,
                      )
                | inr t ↦ rw (q, t) tt
              ]
              | inr (y, q) ↦ rw q (subst (InStep i ms) q k)
            ]);
        sent =
            All-ap (WasSentIn chats) (WasSentIn (chats ++ c ∷ [])) ms (WasSentIn-append chats c)
              h.sent;
        pairs = λ a b.
            rw (tally-append (are_participants a b) chats c)
              (elim (Bool-cases (are_participants a b c)) [
                | inl t ↦
                    let z = tally-are_participants a b user other c chats refl refl t n in
                    rw (t, z) (omega arith)
                | inr t ↦ let z = h.pairs a b in rw t (omega arith)
              ]);
        distinct = HaveDistinctKeys-append chats c free h.distinct;
        unused = λ k.
            rw (find_key-append chat_key (suc next + k) chats c)
              (let l = later chats next k h.unused in ground arith);
      }
