-- ===== src/Article/Counted/Discussion.antt =====
-- New comments and deleted comments keep the counters in step.
use upstride_api.Base.{
  ℕ, suc, ◌+◌, ◌-◌, ◌≡◌, ◌≢◌, refl, sym, ap, subst, ◌∙◌, true, none, some, List, [], ◌∷◌, ◌++◌,
  ◌==◌, ==_iff, if◌then◌else◌, inl, inr, Bool-cases, Option-cases, arith,
}
use native.Mathlib.Decide.{ℕ_discrete}
use upstride_api.Store.{find_key, update_key}
use upstride_api.Article.{
  Article, ArticleComment, ArticleReaction, ArticleView, article_key, comment_key,
}
use upstride_api.Article.Comments.{with_comments, deactivated}
use upstride_api.Article.Counts.{tally, tally-append, find_key-update_none, tally-update}
use upstride_api.Article.Counted.{
  of_resource, is_active_of, of_article, CountedBy, LikedBy, IsUnused, AreCounted, CountedBy-update,
  LikedBy-update,
}
use upstride_api.Article.Counted.Steps.{counted_at, eq-none, IsUnused-later}
use upstride_api.Article.Counted.Writes.{find-append_some, find-append_none, drawn}

module _ (bs : List Article) (cs : List ArticleComment) (rs : List ArticleReaction)
    (vs : List ArticleView) (next : ℕ) (h : AreCounted bs cs rs vs next) where
  module _ (j : ℕ) (c : ArticleComment) (a : Article) (found : find_key article_key j bs ≡ some a)
      (id : c.id ≡ next) (of : c.article_id ≡ j) (active : c.is_active ≡ true)
      (likes : c.likes_count ≡ 0) where
    tally-added :
        (i : ℕ)
        → tally (is_active_of i) (cs ++ c ∷ [])
          ≡ tally (is_active_of i) cs + (if j == i then 1 else 0)
    tally-added i = tally-append (is_active_of i) cs c ∙ rw (of, active) (ground arith)

    tally-added_ne :
        (i : ℕ) → i ≢ j → tally (is_active_of i) (cs ++ c ∷ []) ≡ tally (is_active_of i) cs
    tally-added_ne i n = ground (arith, tally-added i, ==_iff j i)

    pub add_comment-AreCounted :
        AreCounted
          (update_key article_key j (with_comments (a.comments_count + 1)) bs)
          (cs ++ c ∷ [])
          rs
          vs
          (suc next)
    add_comment-AreCounted = record {
      counted = λ i.
          let l = tally (of_resource i) rs in
          let v = tally (of_article i) vs in
          let old = counted_at bs cs rs vs next h i j a found in
          CountedBy-update i j (with_comments (a.comments_count + 1)) bs a l
            (tally (is_active_of i) (cs ++ c ∷ [])) v found (λ x. refl)
            (λ p.
              ((old p).0, (ground (arith, tally-added i, ==_iff j i, (old p).1.0), (old p).1.1)))
            (λ n.
              subst (λ m. CountedBy l m v (find_key article_key i bs)) (sym (tally-added_ne i n))
                (h.counted i));
      liked = λ i. elim (Option-cases (find_key comment_key i cs)) [
        | inr (x, e) ↦
            rw (find-append_some comment_key i cs c x e)
              (subst (LikedBy (tally (of_resource i) rs)) e (h.liked i))
        | inl n ↦ rw (find-append_none comment_key i cs c n) (fresh i)
      ];
      apart = λ i. elim (ℕ_discrete next i) [
        | yes p ↦ inl (
            find_key-update_none article_key i j (with_comments (a.comments_count + 1)) bs
              (λ x. refl)
              (subst (λ m. find_key article_key m bs ≡ none) p (drawn bs cs rs vs next h).article))
        | no x ↦ elim (h.apart i) [
          | inl e ↦ inl (
              find_key-update_none article_key i j (with_comments (a.comments_count + 1)) bs
                (λ x. refl) e)
          | inr e ↦ inr (find-append_none comment_key i cs c e ∙ ground (arith, ==_iff c.id i))
        ]
      ];
      distinct = h.distinct;
      unused = λ n.
          let u = IsUnused-later bs cs rs vs next n h.unused in
          record {
            article =
                find_key-update_none article_key (suc next + n) j
                  (with_comments (a.comments_count + 1)) bs (λ x. refl) u.article;
            comment = find-append_none comment_key (suc next + n) cs c u.comment ∙ ground arith;
            likes = u.likes;
            active = ground (
              arith,
              tally-added (suc next + n),
              u.active,
              eq-none (suc next + n) j bs a found u.article,
            );
            viewed = u.viewed;
            reaction = u.reaction;
          };
    }
      where
        fresh : (i : ℕ) → LikedBy (tally (of_resource i) rs) (if c.id == i then some c else none)
        fresh i = elim (Bool-cases (c.id == i)) [
          | inl t ↦
              let p : next ≡ i = sym id ∙ (==_iff c.id i).0 t in
              rw t (
                likes
                ∙ sym
                    (subst (λ m. tally (of_resource m) rs ≡ 0) p (drawn bs cs rs vs next h).likes))
          | inr n ↦ rw n tt
        ]

  -- A comment is deleted, and its article's count goes down, where there is one.
  module _ (k : ℕ) (c : ArticleComment) (found : find_key comment_key k cs ≡ some c)
      (active : c.is_active ≡ true) where
    abbrev pub left : List ArticleComment
    left = update_key comment_key k deactivated cs

    tally-left :
        (i : ℕ)
        → tally (is_active_of i) left + (if c.article_id == i then 1 else 0)
          ≡ tally (is_active_of i) cs
    tally-left i =
        ground (arith, tally-update comment_key (is_active_of i) k deactivated cs c found)

    tally-left_ne :
        (i : ℕ) → i ≢ c.article_id → tally (is_active_of i) left ≡ tally (is_active_of i) cs
    tally-left_ne i n = ground (arith, tally-left i, ==_iff c.article_id i)

    liked_left : (i : ℕ) → LikedBy (tally (of_resource i) rs) (find_key comment_key i left)
    liked_left i =
        LikedBy-update i k deactivated cs c (tally (of_resource i) rs) found (λ x. refl)
          (λ p.
            subst (LikedBy (tally (of_resource i) rs))
              (subst (λ m. find_key comment_key m cs ≡ some c) (sym p) found) (h.liked i))
          (λ n. h.liked i)

    left-IsUnused : (n : ℕ) → IsUnused bs left rs vs (next + n)
    left-IsUnused n =
        let u = h.unused n in
        record {
          article = u.article;
          comment =
              find_key-update_none comment_key (next + n) k deactivated cs (λ x. refl) u.comment;
          likes = u.likes;
          active = ground (arith, tally-left (next + n), u.active);
          viewed = u.viewed;
          reaction = u.reaction;
        }

    pub delete_orphan-AreCounted :
        find_key article_key c.article_id bs ≡ none → AreCounted bs left rs vs next
    delete_orphan-AreCounted none_found = record {
      counted = λ i.
          let l = tally (of_resource i) rs in
          let v = tally (of_article i) vs in
          elim (ℕ_discrete i c.article_id) [
            | yes p ↦
                subst (CountedBy l (tally (is_active_of i) left) v)
                  (sym (ap (λ m. find_key article_key m bs) p ∙ none_found)) tt
            | no n ↦
                subst (λ m. CountedBy l m v (find_key article_key i bs)) (sym (tally-left_ne i n))
                  (h.counted i)
          ];
      liked = liked_left;
      apart = λ i. elim (h.apart i) [
        | inl e ↦ inl e
        | inr e ↦ inr (find_key-update_none comment_key i k deactivated cs (λ x. refl) e)
      ];
      distinct = h.distinct;
      unused = left-IsUnused;
    }

    pub delete_comment-AreCounted :
        (a : Article)
        → find_key article_key c.article_id bs ≡ some a
        → AreCounted
            (update_key article_key c.article_id (with_comments (a.comments_count - 1)) bs)
            left
            rs
            vs
            next
    delete_comment-AreCounted a article = record {
      counted = λ i.
          let l = tally (of_resource i) rs in
          let v = tally (of_article i) vs in
          let old = counted_at bs cs rs vs next h i c.article_id a article in
          CountedBy-update i c.article_id (with_comments (a.comments_count - 1)) bs a l
            (tally (is_active_of i) left) v article (λ x. refl)
            (λ p. (
              (old p).0,
              (ground (arith, tally-left i, ==_iff c.article_id i, (old p).1.0), (old p).1.1),
            ))
            (λ n.
              subst (λ m. CountedBy l m v (find_key article_key i bs)) (sym (tally-left_ne i n))
                (h.counted i));
      liked = liked_left;
      apart = λ i. elim (h.apart i) [
        | inl e ↦ inl (
            find_key-update_none article_key i c.article_id (with_comments (a.comments_count - 1))
              bs (λ x. refl) e)
        | inr e ↦ inr (find_key-update_none comment_key i k deactivated cs (λ x. refl) e)
      ];
      distinct = h.distinct;
      unused = λ n.
          let u = left-IsUnused n in
          record {
            article =
                find_key-update_none article_key (next + n) c.article_id
                  (with_comments (a.comments_count - 1)) bs (λ x. refl) u.article;
            comment = u.comment;
            likes = u.likes;
            active = u.active;
            viewed = u.viewed;
            reaction = u.reaction;
          };
    }
