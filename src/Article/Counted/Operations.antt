-- ===== src/Article/Counted/Operations.antt =====
-- Each operation on articles keeps the counters in step.
use upstride_api.Base.{
  ℕ, ◌≡◌, ◌⊎◌, refl, Bool, true, false, ◌&&◌, Option, none, some, inl, inr, Bool-cases,
  Option-cases, arith,
}
use upstride_api.Store.{Error, Result, ok, err}
use upstride_api.Article.{Site, Article, ArticleEvent, find_article, update_article, publish}
use upstride_api.Article.Moderation.{
  create_article, edit_article, delete_article, block_article, unblock_article, inactive,
  with_archived, block, unblock, resolve_report, can_update, can_delete, is_mentor, is_admin,
}
use upstride_api.Article.Counted.{CountedBy, IsCounted}
use upstride_api.Article.Counted.Steps.{rewrite-AreCounted}
use upstride_api.Article.Counted.Writes.{new_article-AreCounted}

-- An article is rewritten in its marks.
pub mark-IsCounted :
    (j : ℕ) (f : Article → Article) (s : Site) (a : Article)
    → find_article j s ≡ some a
    → ((x : Article) → (f x).id ≡ x.id)
    → ((l c v : ℕ) → CountedBy l c v (some a) → CountedBy l c v (some (f a)))
    → IsCounted s
    → IsCounted (update_article j f s)
mark-IsCounted j f s a found k keeps h =
    rewrite-AreCounted s.articles s.comments s.reactions s.views s.next_id h j f a found k keeps

pub Result-cases :
    {A : Type 0} (r : Result A) → ((a : A) × (r ≡ ok a)) ⊎ ((e : Error) × (r ≡ err e))
Result-cases (ok a) = inl (a, refl)
Result-cases (err e) = inr (e, refl)

pub and_false : (b : Bool) → (b && false) ≡ false
and_false true = refl
and_false false = refl

pub create_article-IsCounted :
    (user : ℕ) (s : Site) → IsCounted s → IsCounted (create_article user s).1
unfolding create_article
create_article-IsCounted user s h =
    let made = new_article-AreCounted s.articles s.comments s.reactions s.views s.next_id h user in
    elim (Option-cases (s.roles user)) [
      | inl n ↦ ground arith
      | inr (role, e) ↦ elim (Bool-cases (is_mentor role)) [
        | inl t ↦ ground arith
        | inr x ↦ ground arith
      ]
    ]

pub edit_article-IsCounted :
    (user j : ℕ) (archived : Option Bool) (s : Site)
    → IsCounted s
    → IsCounted (edit_article user j archived s).1
unfolding edit_article
edit_article-IsCounted user j archived s h = elim (Option-cases (s.roles user)) [
  | inl n ↦ ground arith
  | inr (role, e) ↦ elim (Option-cases (find_article j s)) [
    | inl n ↦ ground arith
    | inr (a, f) ↦
        let kept = mark-IsCounted j (with_archived archived) s a f (λ x. refl) (λ l c v k. k) h in
        elim (Bool-cases (can_update role user a)) [ inl t ↦ ground arith | inr x ↦ ground arith ]
  ]
]

pub delete_article-IsCounted :
    (user j : ℕ) (s : Site) → IsCounted s → IsCounted (delete_article user j s).1
unfolding delete_article
delete_article-IsCounted user j s h = elim (Option-cases (find_article j s)) [
  | inl n ↦ ground arith
  | inr (a, f) ↦
      let kept =
        mark-IsCounted j inactive s a f (λ x. refl)
          (λ l c v k. (k.0, (k.1.0, (k.1.1.0, and_false a.is_blocked_by_admin)))) h in
      elim (Bool-cases (can_delete user a)) [ inl t ↦ ground arith | inr x ↦ ground arith ]
]

pub resolve_report-IsCounted :
    (report : Option ℕ) (s : Site) → IsCounted s → IsCounted (resolve_report report s)
resolve_report-IsCounted none s h = h
resolve_report-IsCounted (some i) s h = h

pub block_article-IsCounted :
    (admin j : ℕ) (report : Option ℕ) (s : Site)
    → IsCounted s
    → IsCounted (block_article admin j report s).1
unfolding block_article
block_article-IsCounted admin j report s h = elim (Option-cases (s.roles admin)) [
  | inl n ↦ ground arith
  | inr (role, e) ↦ elim (Bool-cases (is_admin role)) [
    | inr x ↦ ground arith
    | inl t ↦ elim (Option-cases (find_article j s)) [
      | inl n ↦ ground arith
      | inr (a, f) ↦
          let blocked =
            publish (ArticleEvent.blocked a.id a.author_id) (update_article j (block report) s) in
          let kept =
            mark-IsCounted j (block report) s a f (λ x. refl)
              (λ l c v k. (k.0, (k.1.0, (k.1.1.0, refl)))) h in
          let kept' : IsCounted (resolve_report report blocked) =
            resolve_report-IsCounted report blocked kept in
          ground arith
    ]
  ]
]

pub unblock_article-IsCounted : (j : ℕ) (s : Site) → IsCounted s → IsCounted (unblock_article j s).1
unfolding unblock_article
unblock_article-IsCounted j s h = elim (Option-cases (find_article j s)) [
  | inl n ↦ ground arith
  | inr (a, f) ↦
      let kept =
        mark-IsCounted j unblock s a f (λ x. refl) (λ l c v k. (k.0, (k.1.0, (k.1.1.0, refl)))) h in
      elim (Bool-cases a.is_blocked_by_admin) [ inl t ↦ ground arith | inr x ↦ ground arith ]
]
