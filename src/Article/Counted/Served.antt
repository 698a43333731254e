-- ===== src/Article/Counted/Served.antt =====
-- Any sequence of requests on articles keeps the counters in step.
use upstride_api.Base.{ℕ, Bool, Option, List, [], ◌∷◌}
use upstride_api.Article.{Site, ReportStatus}
use upstride_api.Article.Reactions.{react_to_article, react_to_comment, mark_article_view}
use upstride_api.Article.Comments.{CreateArticleCommentInput, create_comment, delete_comment}
use upstride_api.Article.Moderation.{
  create_article, edit_article, delete_article, block_article, unblock_article,
  submit_article_appeal, report_article, report_user, update_report_status,
}
use upstride_api.Article.Counted.{IsCounted}
use upstride_api.Article.Counted.Likes.{react_to_article-IsCounted, react_to_comment-IsCounted}
use upstride_api.Article.Counted.Operations.{
  create_article-IsCounted, edit_article-IsCounted, delete_article-IsCounted,
  block_article-IsCounted, unblock_article-IsCounted,
}
use upstride_api.Article.Counted.Comments.{
  mark_article_view-IsCounted, create_comment-IsCounted, delete_comment-IsCounted,
}
use upstride_api.Article.Counted.Reports.{
  report_article-IsCounted, report_user-IsCounted, update_report_status-IsCounted,
  submit_article_appeal-IsCounted,
}

-- What users and administrators ask for.
pub data Request : Type 0 where
  creates : (user : ℕ) → Request
  edits : (user article : ℕ) → Option Bool → Request
  deletes : (user article : ℕ) → Request
  reacts reacts_to_comment views : (user resource : ℕ) → Request
  comments : CreateArticleCommentInput → Request
  deletes_comment : (user comment : ℕ) → Request
  blocks : (admin article : ℕ) → (report : Option ℕ) → Request
  unblocks : (article : ℕ) → Request
  appeals reports reports_user : (user target : ℕ) → Request
  decides : (admin report : ℕ) → ReportStatus → Request

abbrev pub serve : Request → Site → Site
serve (creates user) s = (create_article user s).1
serve (edits user article archived) s = (edit_article user article archived s).1
serve (deletes user article) s = (delete_article user article s).1
serve (reacts user article) s = (react_to_article user article s).1
serve (reacts_to_comment user comment) s = (react_to_comment user comment s).1
serve (views user article) s = (mark_article_view user article s).1
serve (comments input) s = (create_comment input s).1
serve (deletes_comment user comment) s = (delete_comment user comment s).1
serve (blocks admin article report) s = (block_article admin article report s).1
serve (unblocks article) s = (unblock_article article s).1
serve (appeals user article) s = (submit_article_appeal user article s).1
serve (reports user article) s = (report_article user article s).1
serve (reports_user user target) s = (report_user user target s).1
serve (decides admin report status) s = (update_report_status admin report status s).1

abbrev pub serve_all : List Request → Site → Site
serve_all [] s = s
serve_all (r ∷ rs) s = serve_all rs (serve r s)

serve-IsCounted : (r : Request) (s : Site) → IsCounted s → IsCounted (serve r s)
serve-IsCounted (creates user) s h = create_article-IsCounted user s h
serve-IsCounted (edits user article archived) s h = edit_article-IsCounted user article archived s h
serve-IsCounted (deletes user article) s h = delete_article-IsCounted user article s h
serve-IsCounted (reacts user article) s h = react_to_article-IsCounted user article s h
serve-IsCounted (reacts_to_comment user comment) s h = react_to_comment-IsCounted user comment s h
serve-IsCounted (views user article) s h = mark_article_view-IsCounted user article s h
serve-IsCounted (comments input) s h = create_comment-IsCounted input s h
serve-IsCounted (deletes_comment user comment) s h = delete_comment-IsCounted user comment s h
serve-IsCounted (blocks admin article report) s h = block_article-IsCounted admin article report s h
serve-IsCounted (unblocks article) s h = unblock_article-IsCounted article s h
serve-IsCounted (appeals user article) s h = submit_article_appeal-IsCounted user article s h
serve-IsCounted (reports user article) s h = report_article-IsCounted user article s h
serve-IsCounted (reports_user user target) s h = report_user-IsCounted user target s h
serve-IsCounted (decides admin report status) s h =
    update_report_status-IsCounted admin report status s h

-- Over any requests on articles, comments and reports, accepted or refused, where it holds before,
-- every article's likes, comments and views are as many as its reactions, its active comments and its
-- stored views, every comment's likes are as many as its reactions, a blocked article is not active,
-- no identifier is used twice, and those to come are not in use.
pub articles-IsCounted : (rs : List Request) (s : Site) → IsCounted s → IsCounted (serve_all rs s)
articles-IsCounted [] s h = h
articles-IsCounted (r ∷ rs) s h = articles-IsCounted rs (serve r s) (serve-IsCounted r s h)
