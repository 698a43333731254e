-- ===== src/Article/Counted/Reports.antt =====
-- Each operation on reports keeps the counters in step.
use upstride_api.Base.{ℕ, not, ◌||◌, any, ◌==◌, inl, inr, Bool-cases, Option-cases, arith}
use upstride_api.Article.{Site, ReportStatus, ReportTargetType, find_article, find_report}
use upstride_api.Article.Moderation.{
  submit_article_appeal, report_article, report_user, file_report, update_report_status,
  is_pending_of, can_report, same_status, is_admin,
}
use upstride_api.Article.Counted.{IsCounted}
use upstride_api.Article.Counted.Writes.{draw-AreCounted}

-- Reports are no part of what is counted.
file_report-IsCounted :
    (reporter target : ℕ) (type : ReportTargetType) (s : Site)
    → IsCounted s
    → IsCounted (file_report reporter target type s).1
unfolding file_report
file_report-IsCounted reporter target type s h =
    let drawn = draw-AreCounted s.articles s.comments s.reactions s.views s.next_id h in
    elim (Bool-cases (any (is_pending_of target reporter) s.reports)) [
      | inl t ↦ ground arith
      | inr n ↦ ground arith
    ]

pub report_article-IsCounted :
    (reporter j : ℕ) (s : Site) → IsCounted s → IsCounted (report_article reporter j s).1
unfolding report_article
report_article-IsCounted reporter j s h =
    let filed = file_report-IsCounted reporter j ReportTargetType.of_article s h in
    elim (Option-cases (s.roles reporter)) [
      | inl n ↦ ground arith
      | inr (role, e) ↦ elim (Option-cases (find_article j s)) [
        | inl n ↦ ground arith
        | inr (a, f) ↦ elim (Bool-cases (not a.is_active || a.is_archived)) [
          | inl t ↦ ground arith
          | inr x ↦ elim (Bool-cases (can_report role reporter a.author_id)) [
            | inl t ↦ ground arith
            | inr y ↦ ground arith
          ]
        ]
      ]
    ]

pub report_user-IsCounted :
    (reporter target : ℕ) (s : Site) → IsCounted s → IsCounted (report_user reporter target s).1
unfolding report_user
report_user-IsCounted reporter target s h =
    let filed = file_report-IsCounted reporter target ReportTargetType.of_user s h in
    elim (Option-cases (s.roles reporter)) [
      | inl n ↦ ground arith
      | inr (role, e) ↦ elim (Option-cases (s.roles target)) [
        | inl n ↦ ground arith
        | inr (x, f) ↦ elim (Bool-cases (can_report role reporter target)) [
          | inl t ↦ ground arith
          | inr y ↦ ground arith
        ]
      ]
    ]

pub update_report_status-IsCounted :
    (admin report : ℕ) (status : ReportStatus) (s : Site)
    → IsCounted s
    → IsCounted (update_report_status admin report status s).1
unfolding update_report_status
update_report_status-IsCounted admin report status s h = elim (Option-cases (s.roles admin)) [
  | inl n ↦ ground arith
  | inr (role, e) ↦ elim (Bool-cases (is_admin role)) [
    | inr x ↦ ground arith
    | inl t ↦ elim (Option-cases (find_report report s)) [
      | inl n ↦ ground arith
      | inr (r, f) ↦ elim (Bool-cases (same_status r.status status)) [
        | inl y ↦ ground arith
        | inr y ↦ ground arith
      ]
    ]
  ]
]

pub submit_article_appeal-IsCounted :
    (user j : ℕ) (s : Site) → IsCounted s → IsCounted (submit_article_appeal user j s).1
unfolding submit_article_appeal
submit_article_appeal-IsCounted user j s h = elim (Option-cases (find_article j s)) [
  | inl n ↦ ground arith
  | inr (a, f) ↦ elim (Bool-cases (a.author_id == user)) [
    | inr x ↦ ground arith
    | inl t ↦ elim (Option-cases a.blocked_by_report_id) [
      | inl n ↦ ground arith
      | inr (i, e) ↦ elim (Option-cases (find_report i s)) [
        | inl n ↦ ground arith
        | inr (r, k) ↦ ground arith
      ]
    ]
  ]
]
