-- ===== src/Chat/Kept/Pairs.antt =====
-- The chats of two users.
use upstride_api.Base.{
  ℕ, ◌≡◌, refl, Bool, true, false, none, List, [], ◌∷◌, find, Bool-cases, inl, inr, arith,
}
use upstride_api.Article.Counts.{tally}
use upstride_api.Chat.{Chat, are_participants}

tally-find : (p : Chat → Bool) (xs : List Chat) → find p xs ≡ none → tally p xs ≡ 0
tally-find p [] h = refl
tally-find p (x ∷ xs) h = elim (Bool-cases (p x)) [
  | inl t ↦ absurd (ground arith)
  | inr n ↦ let kept = tally-find p xs (ground arith) in ground arith
]

-- Who takes part in a chat with two users is these two.
are_participants_same :
    (a b user other : ℕ) (c x : Chat)
    → c.user1_id ≡ user
    → c.user2_id ≡ other
    → are_participants a b c ≡ true
    → are_participants user other x ≡ false
    → are_participants a b x ≡ false
are_participants_same a b user other c x e f h k = ground arith

pub tally-are_participants :
    (a b user other : ℕ) (c : Chat) (xs : List Chat)
    → c.user1_id ≡ user
    → c.user2_id ≡ other
    → are_participants a b c ≡ true
    → find (are_participants user other) xs ≡ none
    → tally (are_participants a b) xs ≡ 0
tally-are_participants a b user other c [] e f h n = refl
tally-are_participants a b user other c (x ∷ xs) e f h n =
    elim (Bool-cases (are_participants user other x)) [
      | inl t ↦ absurd (ground arith)
      | inr k ↦
          let kept = tally-are_participants a b user other c xs e f h (ground arith) in
          let s = are_participants_same a b user other c x e f h k in rw (s, kept) refl
    ]
