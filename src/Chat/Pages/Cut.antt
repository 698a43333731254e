-- ===== src/Chat/Pages/Cut.antt =====
-- A page of a list, and what is left after it.
use upstride_api.Base.{
  ℕ, zero, suc, ◌<◌, ◌≡◌, refl, ap, true, false, some, List, [], ◌∷◌, ◌++◌, ltb, length, arith,
}
use upstride_api.Chat.Pages.{take, get_elem?}

module _ {ℓ} {A : Type ℓ} where
  pub take_all : (n : ℕ) (xs : List A) → ltb n (length xs) ≡ false → take n xs ≡ xs
  take_all zero [] h = refl
  take_all (suc n) [] h = refl
  take_all zero (x ∷ xs) h = ground arith
  take_all (suc n) (x ∷ xs) h = let kept = take_all n xs (ground arith) in ground arith

  pub take-take : (n : ℕ) (xs : List A) → take n (take (suc n) xs) ≡ take n xs
  take-take zero xs = refl
  take-take (suc n) [] = refl
  take-take (suc n) (x ∷ xs) = ap (λ ys. x ∷ ys) (take-take n xs)

  pub ltb-length-take : (n : ℕ) (xs : List A) → ltb n (length (take (suc n) xs)) ≡ ltb n (length xs)
  ltb-length-take n [] = refl
  ltb-length-take zero (x ∷ xs) = ground arith
  ltb-length-take (suc n) (x ∷ xs) = let kept = ltb-length-take n xs in ground arith

  -- The last element of a page of `n + 1`, what stands before it and what is left.
  pub record Cut (n : ℕ) (xs : List A) : Type ℓ where
    pub before : List A
    pub last : A
    pub left : List A
    pub whole : xs ≡ before ++ last ∷ left
    pub page : take (suc n) xs ≡ before ++ last ∷ []
    pub at : get_elem? (take (suc (suc n)) xs) n ≡ some last
    pub shorter : length left < length xs

  pub cut : (n : ℕ) (xs : List A) → ltb (suc n) (length xs) ≡ true → Cut n xs
  cut n [] h = ground arith
  cut zero (x ∷ xs) h = record {
    before = [];
    last = x;
    left = xs;
    whole = refl;
    page = refl;
    at = refl;
    shorter = omega arith;
  }
  cut (suc n) (x ∷ xs) h =
      let c = cut n xs (ground arith) in
      record {
        before = x ∷ c.before;
        last = c.last;
        left = c.left;
        whole = ap (λ ys. x ∷ ys) c.whole;
        page = ap (λ ys. x ∷ ys) c.page;
        at = c.at;
        shorter = let s = c.shorter in omega arith;
      }
