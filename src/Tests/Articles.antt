-- ===== src/Tests/Articles.antt =====
-- Runs of the articles.
use upstride_api.Store.{update_key}
use upstride_api.Base.{
  map, ◌==◌, ◌||◌, if◌then◌else◌, ◌≡◌, refl, inl, none, some, true, List, [], ◌∷◌,
}
use upstride_api.Article.{Site, UserRole}
use upstride_api.Article.Reactions.{
  react_to_article, react_to_comment, mark_article_view, upsert_view, create_reaction,
  delete_reaction, delete_key,
}
use upstride_api.Article.Comments.{
  create_comment, check_parent, place_comment, create_comment_doc, count_reply, delete_comment,
}
use upstride_api.Article.Moderation.{create_article, delete_article, block_article, unblock_article}
use upstride_api.Article.Counted.{IsCounted}
use upstride_api.Article.Counted.Served.{Request, serve_all, articles-IsCounted}

-- A mentor, two users and an administrator.
abbrev site : Site
site = record {
  roles = λ i.
      if i == 1
      then some UserRole.mentor
      else if i == 9
      then some UserRole.admin
      else if i == 2 || i == 3
      then some UserRole.user
      else none;
  articles = [];
  comments = [];
  reactions = [];
  views = [];
  reports = [];
  events = [];
  next_id = 100;
}

-- The article gets the identifier 100, the comment 101 and the reply to it 102. The first like is
-- taken back, and the comment is deleted.
abbrev requests : List Request
requests =
    Request.creates 1
    ∷ Request.comments (record { user_id = 2; article_id = 100; parent_id = none })
    ∷ Request.comments (record { user_id = 3; article_id = 100; parent_id = some 101 })
    ∷ Request.reacts 2 100
    ∷ Request.reacts 3 100
    ∷ Request.reacts_to_comment 1 101
    ∷ Request.reacts 2 100
    ∷ Request.views 2 100
    ∷ Request.views 2 100
    ∷ Request.deletes_comment 2 101
    ∷ []

abbrev after : Site
after = serve_all requests site

requests_run :
    (map (λ a. a.likes_count) after.articles ≡ 1 ∷ [])
    × ((map (λ a. a.comments_count) after.articles ≡ 1 ∷ [])
        × ((map (λ a. a.views) after.articles ≡ 1 ∷ [])
            × ((map (λ c. c.likes_count) after.comments ≡ 1 ∷ 0 ∷ [])
                × (map (λ c. c.replies_count) after.comments ≡ 1 ∷ 0 ∷ []))))
unfolding react_to_article react_to_comment mark_article_view upsert_view create_reaction
    delete_reaction delete_key create_comment check_parent place_comment create_comment_doc
    count_reply delete_comment create_article update_key
requests_run = (refl, (refl, (refl, (refl, refl))))

-- An article that its author deleted is back after it was blocked and unblocked.
deleted_run :
    map
      (λ a. a.is_active)
      (serve_all
        (Request.creates 1
          ∷ Request.deletes 1 100
          ∷ Request.blocks 9 100 none
          ∷ Request.unblocks 100
          ∷ [])
        site).articles
    ≡ true ∷ []
unfolding create_article delete_article block_article unblock_article update_key
deleted_run = refl

site-IsCounted : IsCounted site
site-IsCounted = record {
  counted = λ i. tt;
  liked = λ i. tt;
  apart = λ i. inl refl;
  distinct = tt;
  unused = λ n. record {
    article = refl;
    comment = refl;
    likes = refl;
    active = refl;
    viewed = refl;
    reaction = refl;
  };
}

articles-IsCounted_example : IsCounted after
articles-IsCounted_example = articles-IsCounted requests site site-IsCounted
