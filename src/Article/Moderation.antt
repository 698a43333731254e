-- ===== src/Article/Moderation.antt =====
-- create-article, update-article, delete-article, unblock-article and submit-article-appeal, and the use
-- cases of src/application/modules/report.
use upstride_api.Base.{
  ℕ, suc, Bool, true, false, not, ◌&&◌, ◌||◌, Option, none, some, [], ◌∷◌, ◌++◌, any, ◌==◌,
  if◌then◌else◌, get_or,
}
use upstride_api.Store.{Error, Result, ok, err}
use upstride_api.Article.{
  Site, UserRole, Article, Report, ReportStatus, ReportTargetType, ArticleEvent, find_article,
  update_article, find_report, update_report, publish,
}

abbrev pub is_mentor : UserRole → Bool
is_mentor UserRole.mentor = true
is_mentor _ = false

abbrev pub is_admin : UserRole → Bool
is_admin UserRole.admin = true
is_admin UserRole.super_admin = true
is_admin _ = false

abbrev pub new_article : (author_id id : ℕ) → Article
new_article author_id id = record {
  id = id;
  author_id = author_id;
  is_active = true;
  views = 0;
  comments_count = 0;
  likes_count = 0;
  is_archived = false;
  is_blocked_by_admin = false;
  blocked_by_report_id = none;
}

unfoldable pub create_article : (user_id : ℕ) → Site → Result ℕ × Site
create_article user_id s = elim (s.roles user_id) [
  | none ↦ (err Error.user_not_found, s)
  | some role ↦ if not (is_mentor role) then (err Error.validation, s) else (
    ok s.next_id,
    record s {
      articles = s.articles ++ new_article user_id s.next_id ∷ [];
      next_id = suc s.next_id;
    },
  )
]

-- `Article.canUpdate` and `Article.canDelete`
abbrev pub can_update : UserRole → (actor_id : ℕ) → Article → Bool
can_update role actor_id a = is_mentor role && a.author_id == actor_id

abbrev pub can_delete : (actor_id : ℕ) → Article → Bool
can_delete actor_id a = not a.is_blocked_by_admin && (a.is_active && a.author_id == actor_id)

abbrev pub with_archived : Option Bool → Article → Article
with_archived is_archived a = record a { is_archived = get_or is_archived a.is_archived }

-- Of what may be updated, the mark of the archive.
unfoldable pub edit_article :
    (user_id article_id : ℕ) → (is_archived : Option Bool) → Site → Result ℕ × Site
edit_article user_id article_id is_archived s = elim (s.roles user_id) [
  | none ↦ (err Error.user_not_found, s)
  | some role ↦ elim (find_article article_id s) [
    | none ↦ (err Error.not_found, s)
    | some a ↦
        if can_update role user_id a
        then (ok article_id, update_article article_id (with_archived is_archived) s)
        else (err Error.entity_validation, s)
  ]
]

abbrev pub inactive : Article → Article
inactive a = record a { is_active = false }

unfoldable pub delete_article : (user_id article_id : ℕ) → Site → Result (Unit {0}) × Site
delete_article user_id article_id s = elim (find_article article_id s) [
  | none ↦ (err Error.not_found, s)
  | some a ↦
      if can_delete user_id a
      then (ok tt, update_article article_id inactive s)
      else (err Error.entity_validation, s)
]

-- `Article.block` and `Article.unblock`
abbrev pub block : Option ℕ → Article → Article
block report_id a = record a {
  is_active = false;
  is_archived = true;
  is_blocked_by_admin = true;
  blocked_by_report_id = report_id;
}

abbrev pub unblock : Article → Article
unblock a = record a {
  is_active = true;
  is_archived = false;
  is_blocked_by_admin = false;
  blocked_by_report_id = none;
}

abbrev pub with_status : ReportStatus → Report → Report
with_status status r = record r { status = status }

abbrev pub resolve_report : Option ℕ → Site → Site
resolve_report none s = s
resolve_report (some i) s = update_report i (with_status ReportStatus.resolved) s

unfoldable pub block_article : (admin_id article_id : ℕ) → Option ℕ → Site → Result ℕ × Site
block_article admin_id article_id report_id s = elim (s.roles admin_id) [
  | none ↦ (err Error.user_not_found, s)
  | some role ↦
      if not (is_admin role) then (err Error.validation, s) else elim (find_article article_id s) [
        | none ↦ (err Error.not_found, s)
        | some a ↦ (
          ok a.id,
          resolve_report report_id (
              publish (ArticleEvent.blocked a.id a.author_id)
                (update_article article_id (block report_id) s)),
        )
      ]
]

-- The report that blocked it gets a note of the action, which is a text.
unfoldable pub unblock_article : (article_id : ℕ) → Site → Result ℕ × Site
unblock_article article_id s = elim (find_article article_id s) [
  | none ↦ (err Error.not_found, s)
  | some a ↦ if not a.is_blocked_by_admin then (err Error.validation, s) else (
    ok a.id,
    publish (ArticleEvent.unblocked a.id a.author_id) (update_article article_id unblock s),
  )
]

abbrev pub appealed : Report → Report
appealed r = record r { is_appeal_submitted = true }

unfoldable pub submit_article_appeal : (user_id article_id : ℕ) → Site → Result (Unit {0}) × Site
submit_article_appeal user_id article_id s = elim (find_article article_id s) [
  | none ↦ (err Error.not_found, s)
  | some a ↦
      if not (a.author_id == user_id)
      then (err Error.validation, s)
      else elim a.blocked_by_report_id [
        | none ↦ (err Error.validation, s)
        | some i ↦ elim (find_report i s) [
          | none ↦ (err Error.not_found, s)
          | some r ↦ (ok tt, update_report r.id appealed s)
        ]
      ]
]

-- `Report.assertCanReport`
abbrev pub can_report : UserRole → (reporter_id target_id : ℕ) → Bool
can_report role reporter_id target_id = not (is_admin role) && not (reporter_id == target_id)

abbrev pub is_pending : ReportStatus → Bool
is_pending ReportStatus.pending = true
is_pending _ = false

abbrev pub is_pending_of : (target_id reporter_id : ℕ) → Report → Bool
is_pending_of target_id reporter_id r =
    r.target_id == target_id && (r.reporter_id == reporter_id && is_pending r.status)

-- The tail that `report-article` and `report-user` share.
unfoldable pub file_report : (reporter_id target_id : ℕ) → ReportTargetType → Site → Result ℕ × Site
file_report reporter_id target_id target_type s =
    if any (is_pending_of target_id reporter_id) s.reports
    then (err Error.validation, s)
    else let r : Report = record {
      id = s.next_id;
      reporter_id = reporter_id;
      target_id = target_id;
      target_type = target_type;
      status = ReportStatus.pending;
      is_appeal_submitted = false;
    } in
      (ok s.next_id, record s { reports = s.reports ++ r ∷ []; next_id = suc s.next_id })

unfoldable pub report_article : (reporter_id article_id : ℕ) → Site → Result ℕ × Site
report_article reporter_id article_id s = elim (s.roles reporter_id) [
  | none ↦ (err Error.user_not_found, s)
  | some role ↦ elim (find_article article_id s) [
    | none ↦ (err Error.not_found, s)
    | some a ↦
        if not a.is_active || a.is_archived
        then (err Error.not_found, s)
        else if can_report role reporter_id a.author_id
        then file_report reporter_id article_id ReportTargetType.of_article s
        else (err Error.entity_validation, s)
  ]
]

unfoldable pub report_user : (reporter_id target_user_id : ℕ) → Site → Result ℕ × Site
report_user reporter_id target_user_id s = elim (s.roles reporter_id) [
  | none ↦ (err Error.user_not_found, s)
  | some role ↦ elim (s.roles target_user_id) [
    | none ↦ (err Error.user_not_found, s)
    | some target ↦
        if can_report role reporter_id target_user_id
        then file_report reporter_id target_user_id ReportTargetType.of_user s
        else (err Error.entity_validation, s)
  ]
]

abbrev pub same_status : ReportStatus → ReportStatus → Bool
same_status ReportStatus.pending ReportStatus.pending = true
same_status ReportStatus.resolved ReportStatus.resolved = true
same_status ReportStatus.rejected ReportStatus.rejected = true
same_status ReportStatus.closed ReportStatus.closed = true
same_status _ _ = false

unfoldable pub update_report_status :
    (admin_id report_id : ℕ) → ReportStatus → Site → Result ℕ × Site
update_report_status admin_id report_id status s = elim (s.roles admin_id) [
  | none ↦ (err Error.user_not_found, s)
  | some role ↦
      if not (is_admin role) then (err Error.validation, s) else elim (find_report report_id s) [
        | none ↦ (err Error.not_found, s)
        | some r ↦
            let t = update_report report_id (with_status status) s in
            (
              ok report_id,
              if same_status r.status status
                  then t
                  else publish (ArticleEvent.report_status_updated r.reporter_id report_id status)
                      t,
            )
      ]
]
