-- ===== src/Article/Comments.antt =====
-- create-article-comment, update-article-comment and delete-article-comment.
use upstride_api.Base.{
  ℕ, zero, suc, ◌+◌, ◌-◌, true, false, not, Option, none, some, [], ◌∷◌, ◌++◌, ◌==◌, if◌then◌else◌,
  length,
}
use upstride_api.Store.{Error, Result, ok, err}
use upstride_api.Article.{
  Site, Article, ArticleComment, ArticleEvent, find_article, update_article, find_comment,
  update_comment, active_article, active_comment, publish,
}

pub record CreateArticleCommentInput : Type 0 where
  pub user_id : ℕ
  pub article_id : ℕ
  pub parent_id : Option ℕ

-- The parent of the new comment: none, one that may be replied to, or an error.
unfoldable pub check_parent : CreateArticleCommentInput → Site → Result (Option ℕ)
check_parent input s = elim input.parent_id [
  | none ↦ ok none
  | some i ↦ elim (active_comment i s) [
    | none ↦ err Error.not_found
    | some c ↦ if c.article_id == input.article_id then ok (some c.id) else err Error.not_found
  ]
]

abbrev pub new_comment : CreateArticleCommentInput → Option ℕ → (id : ℕ) → ArticleComment
new_comment input parent_id id = record {
  id = id;
  article_id = input.article_id;
  parent_id = parent_id;
  user_id = input.user_id;
  likes_count = 0;
  replies_count = 0;
  is_active = true;
}

unfoldable pub create_comment_doc : ArticleComment → Site → Site
create_comment_doc c s = record s { comments = s.comments ++ c ∷ []; next_id = suc s.next_id }

abbrev pub with_replies : ℕ → ArticleComment → ArticleComment
with_replies n c = record c { replies_count = n }

-- The loop that counts a reply on the comment that is replied to and on those above it. The fuel is
-- the number of comments.
unfoldable pub count_reply : (fuel : ℕ) → Option ℕ → Site → Site
count_reply zero i s = s
count_reply (suc fuel) none s = s
count_reply (suc fuel) (some i) s = elim (find_comment i s) [
  | none ↦ s
  | some c ↦ count_reply fuel c.parent_id (update_comment i (with_replies (c.replies_count + 1)) s)
]

abbrev pub with_comments : ℕ → Article → Article
with_comments n a = record a { comments_count = n }

-- What follows the checks.
unfoldable pub place_comment : CreateArticleCommentInput → Article → Option ℕ → Site → Site
place_comment input a parent_id s =
    let c = new_comment input parent_id s.next_id in
    let t =
      update_article input.article_id (with_comments (a.comments_count + 1))
        (create_comment_doc c s) in
    publish (ArticleEvent.comment_created a.id c.id input.user_id (a.comments_count + 1) parent_id)
      (count_reply (length t.comments) parent_id t)

unfoldable pub create_comment : CreateArticleCommentInput → Site → Result ℕ × Site
create_comment input s = elim (active_article input.article_id s) [
  | none ↦ (err Error.not_found, s)
  | some a ↦ elim (check_parent input s) [
    | err e ↦ (err e, s)
    | ok parent_id ↦ (ok s.next_id, place_comment input a parent_id s)
  ]
]

abbrev pub deactivated : ArticleComment → ArticleComment
deactivated c = record c { is_active = false }

unfoldable pub delete_comment : (user_id comment_id : ℕ) → Site → Result ℕ × Site
delete_comment user_id comment_id s = elim (active_comment comment_id s) [
  | none ↦ (err Error.not_found, s)
  | some c ↦
      if not (c.user_id == user_id)
      then (err Error.validation, s)
      else let t = update_comment comment_id deactivated s in
        (
          ok comment_id,
          elim (find_article c.article_id t) [
            | none ↦ t
            | some a ↦ update_article a.id (with_comments (a.comments_count - 1)) t
          ],
        )
]
