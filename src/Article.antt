-- ===== src/Article.antt =====
-- src/domain/entities/article.entity.ts and its neighbours, the collections of articles, comments,
-- reactions, views and reports, and the use cases of src/application/modules/article and report.
-- Texts, tags and pictures are left out.
pub mod Reactions
pub mod Comments
pub mod Moderation
pub mod Counts
pub mod Counted
use upstride_api.Base.{
  ℕ, suc, ◌+◌, ◌-◌, Bool, true, false, not, ◌&&◌, ◌||◌, Option, none, some, List, [], ◌∷◌, ◌++◌,
  find, ◌==◌, if◌then◌else◌, eq_option,
}
use upstride_api.Store.{Error, Result, ok, err, find_key, update_key}

pub data UserRole : Type 0 where
  user mentor admin super_admin : UserRole

pub record Article : Type 0 where
  pub id : ℕ
  pub author_id : ℕ
  pub is_active : Bool
  pub views : ℕ
  pub comments_count : ℕ
  pub likes_count : ℕ
  pub is_archived : Bool
  pub is_blocked_by_admin : Bool
  pub blocked_by_report_id : Option ℕ

pub record ArticleComment : Type 0 where
  pub id : ℕ
  pub article_id : ℕ
  pub parent_id : Option ℕ
  pub user_id : ℕ
  pub likes_count : ℕ
  pub replies_count : ℕ
  pub is_active : Bool

-- A like, the only type there is.
pub record ArticleReaction : Type 0 where
  pub id : ℕ
  pub resource_id : ℕ
  pub user_id : ℕ

pub record ArticleView : Type 0 where
  pub article_id : ℕ
  pub user_id : ℕ

pub data ReportStatus : Type 0 where
  pending resolved rejected closed : ReportStatus

pub data ReportTargetType : Type 0 where
  of_user of_article : ReportTargetType

pub record Report : Type 0 where
  pub id : ℕ
  pub reporter_id : ℕ
  pub target_id : ℕ
  pub target_type : ReportTargetType
  pub status : ReportStatus
  pub is_appeal_submitted : Bool

-- What is published, and the notification that a report's reporter gets.
pub data ArticleEvent : Type 0 where
  reaction_created : (article_id actor_id count : ℕ) → ArticleEvent
  comment_reaction_created : (article_id comment_id actor_id count : ℕ) → ArticleEvent
  comment_created : (article_id comment_id actor_id count : ℕ) → Option ℕ → ArticleEvent
  blocked : (article_id author_id : ℕ) → ArticleEvent
  unblocked : (article_id author_id : ℕ) → ArticleEvent
  report_status_updated : (user_id report_id : ℕ) → ReportStatus → ArticleEvent

-- The collections; identifiers are drawn in order from one supply.
pub record Site : Type 0 where
  pub roles : ℕ → Option UserRole
  pub articles : List Article
  pub comments : List ArticleComment
  pub reactions : List ArticleReaction
  pub views : List ArticleView
  pub reports : List Report
  pub events : List ArticleEvent
  pub next_id : ℕ

abbrev pub article_key : Article → ℕ
article_key a = a.id

abbrev pub comment_key : ArticleComment → ℕ
comment_key c = c.id

abbrev pub report_key : Report → ℕ
report_key r = r.id

-- `findById` and `updateById`.
abbrev pub find_article : ℕ → Site → Option Article
find_article i s = find_key article_key i s.articles

abbrev pub update_article : ℕ → (Article → Article) → Site → Site
update_article i f s = record s { articles = update_key article_key i f s.articles }

abbrev pub find_comment : ℕ → Site → Option ArticleComment
find_comment i s = find_key comment_key i s.comments

abbrev pub update_comment : ℕ → (ArticleComment → ArticleComment) → Site → Site
update_comment i f s = record s { comments = update_key comment_key i f s.comments }

abbrev pub find_report : ℕ → Site → Option Report
find_report i s = find_key report_key i s.reports

abbrev pub update_report : ℕ → (Report → Report) → Site → Site
update_report i f s = record s { reports = update_key report_key i f s.reports }

abbrev pub publish : ArticleEvent → Site → Site
publish e s = record s { events = s.events ++ e ∷ [] }

-- `if (!article?.isActive) throw …`
abbrev pub active_article : ℕ → Site → Option Article
active_article i s = elim (find_article i s) [
  | none ↦ none
  | some a ↦ if a.is_active then some a else none
]

abbrev pub active_comment : ℕ → Site → Option ArticleComment
active_comment i s = elim (find_comment i s) [
  | none ↦ none
  | some c ↦ if c.is_active then some c else none
]

abbrev pub or_raise {ℓ} :
    {A : Type ℓ} {B : Type 0}
    → Error
    → Option A
    → (A → Site → Result B × Site)
    → Site
    → Result B × Site
or_raise e none k s = (err e, s)
or_raise e (some a) k s = k a s
