-- ===== src/Article/Counted/Writes.antt =====
-- Views, new articles and changes of comments keep the counters in step.
use upstride_api.Base.{
  ℕ, suc, ◌+◌, ◌≡◌, ◌≢◌, refl, sym, subst, ◌∙◌, none, some, List, [], ◌∷◌, ◌++◌, ◌==◌, ==_iff,
  if◌then◌else◌, inl, inr, Bool-cases, Option-cases, arith,
}
use native.Mathlib.Decide.{ℕ_discrete}
use upstride_api.Store.{find_key, update_key}
use upstride_api.Article.{
  Article, ArticleComment, ArticleReaction, ArticleView, article_key, comment_key,
}
use upstride_api.Article.Reactions.{with_views}
use upstride_api.Article.Moderation.{new_article}
use upstride_api.Article.Counts.{
  tally, tally-append, find_key-append, find_key-update_none, tally-update_same,
}
use upstride_api.Article.Counted.{
  of_resource, is_active_of, of_article, CountedBy, LikedBy, IsUnused, AreCounted, CountedBy-update,
  LikedBy-update,
}
use upstride_api.Article.Counted.Steps.{counted_at, eq-none, IsUnused-later}

-- A document is found after one more is appended.
pub find-append_some :
    {A : Type 0} (key : A → ℕ) (i : ℕ) (xs : List A) (x y : A)
    → find_key key i xs ≡ some y
    → find_key key i (xs ++ x ∷ []) ≡ some y
find-append_some key i xs x y h = find_key-append key i xs x ∙ ground arith

pub find-append_none :
    {A : Type 0} (key : A → ℕ) (i : ℕ) (xs : List A) (x : A)
    → find_key key i xs ≡ none
    → find_key key i (xs ++ x ∷ []) ≡ (if key x == i then some x else none)
find-append_none key i xs x h = find_key-append key i xs x ∙ ground arith

module _ (bs : List Article) (cs : List ArticleComment) (rs : List ArticleReaction)
    (vs : List ArticleView) (next : ℕ) (h : AreCounted bs cs rs vs next) where
  -- A view of another user.
  pub view-AreCounted :
      (j : ℕ) (w : ArticleView) (a : Article)
      → find_key article_key j bs ≡ some a
      → w.article_id ≡ j
      → AreCounted
          (update_key article_key j (with_views (a.views + 1)) bs)
          cs
          rs
          (vs ++ w ∷ [])
          next
  view-AreCounted j w a found key = record {
    counted = λ i.
        let l = tally (of_resource i) rs in
        let c = tally (is_active_of i) cs in
        let old = counted_at bs cs rs vs next h i j a found in
        CountedBy-update i j (with_views (a.views + 1)) bs a l c
          (tally (of_article i) (vs ++ w ∷ [])) found (λ x. refl)
          (λ p. (
            (old p).0,
            (
              (old p).1.0,
              (
                ground
                    (arith, tally-append (of_article i) vs w, ==_iff w.article_id i, (old p).1.1.0),
                (old p).1.1.1,
              ),
            ),
          ))
          (λ n.
            subst (λ v. CountedBy l c v (find_key article_key i bs)) (sym (other i n))
              (h.counted i));
    liked = h.liked;
    apart = λ i. elim (h.apart i) [
      | inl e ↦
          inl (find_key-update_none article_key i j (with_views (a.views + 1)) bs (λ x. refl) e)
      | inr e ↦ inr e
    ];
    distinct = h.distinct;
    unused = λ n.
        let u = h.unused n in
        record {
          article =
              find_key-update_none article_key (next + n) j (with_views (a.views + 1)) bs
                (λ x. refl) u.article;
          comment = u.comment;
          likes = u.likes;
          active = u.active;
          viewed = ground (
            arith,
            tally-append (of_article (next + n)) vs w,
            u.viewed,
            eq-none (next + n) j bs a found u.article,
          );
          reaction = u.reaction;
        };
  }
    where
      other : (i : ℕ) → i ≢ j → tally (of_article i) (vs ++ w ∷ []) ≡ tally (of_article i) vs
      other i n = ground (arith, tally-append (of_article i) vs w, ==_iff w.article_id i)

  -- A comment is rewritten in what is not counted.
  pub rewrite_comment-AreCounted :
      (j : ℕ) (f : ArticleComment → ArticleComment) (c : ArticleComment)
      → find_key comment_key j cs ≡ some c
      → ((x : ArticleComment) → (f x).id ≡ x.id)
      → ((x : ArticleComment) → (f x).likes_count ≡ x.likes_count)
      → ((i : ℕ) (x : ArticleComment) → is_active_of i (f x) ≡ is_active_of i x)
      → AreCounted bs (update_key comment_key j f cs) rs vs next
  rewrite_comment-AreCounted j f c found k likes active = record {
    counted =
        λ i. rw (tally-update_same comment_key (is_active_of i) j f cs (active i)) (h.counted i);
    liked = λ i.
        LikedBy-update i j f cs c (tally (of_resource i) rs) found k
          (λ p.
            likes c
            ∙ subst (LikedBy (tally (of_resource i) rs))
                (subst (λ m. find_key comment_key m cs ≡ some c) (sym p) found) (h.liked i))
          (λ n. h.liked i);
    apart = λ i. elim (h.apart i) [
      | inl e ↦ inl e
      | inr e ↦ inr (find_key-update_none comment_key i j f cs k e)
    ];
    distinct = h.distinct;
    unused = λ n.
        let u = h.unused n in
        record {
          article = u.article;
          comment = find_key-update_none comment_key (next + n) j f cs k u.comment;
          likes = u.likes;
          active =
              tally-update_same comment_key (is_active_of (next + n)) j f cs (active (next + n))
              ∙ u.active;
          viewed = u.viewed;
          reaction = u.reaction;
        };
  }

  -- An identifier is drawn for a document of another collection.
  pub draw-AreCounted : AreCounted bs cs rs vs (suc next)
  draw-AreCounted = record {
    counted = h.counted;
    liked = h.liked;
    apart = h.apart;
    distinct = h.distinct;
    unused = λ n. IsUnused-later bs cs rs vs next n h.unused;
  }

  -- The identifier that is drawn is new.
  pub drawn : IsUnused bs cs rs vs next
  drawn = subst (IsUnused bs cs rs vs) (omega arith) (h.unused 0)

  -- A new article.
  pub new_article-AreCounted :
      (user : ℕ) → AreCounted (bs ++ new_article user next ∷ []) cs rs vs (suc next)
  new_article-AreCounted user = record {
    counted = λ i. elim (Option-cases (find_key article_key i bs)) [
      | inr (a, e) ↦
          rw (find-append_some article_key i bs (new_article user next) a e)
            (subst (CountedBy _ _ _) e (h.counted i))
      | inl n ↦ rw (find-append_none article_key i bs (new_article user next) n) (fresh i)
    ];
    liked = h.liked;
    apart = λ i. elim (ℕ_discrete next i) [
      | yes p ↦ inr (subst (λ m. find_key comment_key m cs ≡ none) p drawn.comment)
      | no x ↦ elim (h.apart i) [
        | inl e ↦ inl (
            find-append_none article_key i bs (new_article user next) e
            ∙ ground (arith, ==_iff next i))
        | inr e ↦ inr e
      ]
    ];
    distinct = h.distinct;
    unused = λ n.
        let u = IsUnused-later bs cs rs vs next n h.unused in
        record {
          article =
              find-append_none article_key (suc next + n) bs (new_article user next) u.article
              ∙ ground arith;
          comment = u.comment;
          likes = u.likes;
          active = u.active;
          viewed = u.viewed;
          reaction = u.reaction;
        };
  }
    where
      fresh :
          (i : ℕ)
          → CountedBy
              (tally (of_resource i) rs)
              (tally (is_active_of i) cs)
              (tally (of_article i) vs)
              (if next == i then some (new_article user next) else none)
      fresh i = elim (Bool-cases (next == i)) [
        | inl t ↦
            let p = (==_iff next i).0 t in
            rw (t, ← p) (sym drawn.likes, (sym drawn.active, (sym drawn.viewed, refl)))
        | inr n ↦ rw n tt
      ]
      -- A new comment of an article.
