-- ===== src/Article/Counted/Steps.antt =====
-- Each kind of write keeps the counters in step.
use upstride_api.Base.{
  ℕ, suc, ◌+◌, ◌≡◌, ◌≢◌, refl, sym, ap, subst, ◌∙◌, false, none, some, List, [], ◌∷◌, ◌++◌, any,
  ◌==◌, ==_iff, if◌then◌else◌, inl, inr, Bool-cases, arith,
}
use native.Mathlib.Decide.{ℕ_discrete}
use upstride_api.Store.{find_key, update_key}
use upstride_api.Article.{
  Article, ArticleComment, ArticleReaction, ArticleView, article_key, comment_key,
}
use upstride_api.Article.Reactions.{with_likes, with_comment_likes}
use upstride_api.Article.Counts.{
  tally, has_id, AreIdsDistinct, tally-append, any-append, find_key-update_none, tally-update_same,
  AreIdsDistinct-append,
}
use upstride_api.Article.Counted.{
  of_resource, is_active_of, of_article, CountedBy, LikedBy, IsUnused, AreCounted, CountedBy-update,
  LikedBy-update,
}

pub eq-none :
    (i j : ℕ) (xs : List Article) (a : Article)
    → find_key article_key j xs ≡ some a
    → find_key article_key i xs ≡ none
    → (j == i) ≡ false
eq-none i j xs a h k = elim (Bool-cases (j == i)) [
  | inl t ↦
      absurd (ground (arith, subst (λ m. find_key article_key m xs ≡ some a) ((==_iff j i).0 t) h))
  | inr n ↦ n
]

pub eq-none_comment :
    (i j : ℕ) (xs : List ArticleComment) (c : ArticleComment)
    → find_key comment_key j xs ≡ some c
    → find_key comment_key i xs ≡ none
    → (j == i) ≡ false
eq-none_comment i j xs c h k = elim (Bool-cases (j == i)) [
  | inl t ↦
      absurd (ground (arith, subst (λ m. find_key comment_key m xs ≡ some c) ((==_iff j i).0 t) h))
  | inr n ↦ n
]

-- The identifiers to come, after one of them is drawn.
pub IsUnused-later :
    (bs : List Article) (cs : List ArticleComment) (rs : List ArticleReaction)
    (vs : List ArticleView) (next n : ℕ)
    → ((m : ℕ) → IsUnused bs cs rs vs (next + m))
    → IsUnused bs cs rs vs (suc next + n)
IsUnused-later bs cs rs vs next n h =
    let e : next + suc n ≡ suc next + n = omega arith in subst (IsUnused bs cs rs vs) e (h (suc n))

module _ (bs : List Article) (cs : List ArticleComment) (rs : List ArticleReaction)
    (vs : List ArticleView) (next : ℕ) (h : AreCounted bs cs rs vs next) where
  -- An article is rewritten, and its counters stay what they were.
  pub rewrite-AreCounted :
      (j : ℕ) (f : Article → Article) (a : Article)
      → find_key article_key j bs ≡ some a
      → ((x : Article) → (f x).id ≡ x.id)
      → ((l c v : ℕ) → CountedBy l c v (some a) → CountedBy l c v (some (f a)))
      → AreCounted (update_key article_key j f bs) cs rs vs next
  rewrite-AreCounted j f a found k keeps = record {
    counted = λ i.
        let l = tally (of_resource i) rs in
        let c = tally (is_active_of i) cs in
        let v = tally (of_article i) vs in
        CountedBy-update i j f bs a l c v found k
          (λ p. keeps l c v (
            subst (CountedBy l c v) (subst (λ m. find_key article_key m bs ≡ some a) (sym p) found)
              (h.counted i)))
          (λ n. h.counted i);
    liked = h.liked;
    apart = λ i. elim (h.apart i) [
      | inl e ↦ inl (find_key-update_none article_key i j f bs k e)
      | inr e ↦ inr e
    ];
    distinct = h.distinct;
    unused = λ n.
        let u = h.unused n in
        record {
          article = find_key-update_none article_key (next + n) j f bs k u.article;
          comment = u.comment;
          likes = u.likes;
          active = u.active;
          viewed = u.viewed;
          reaction = u.reaction;
        };
  }

  -- What is known of the article and the comment at an identifier.
  pub counted_at :
      (i j : ℕ) (a : Article)
      → find_key article_key j bs ≡ some a
      → i ≡ j
      → CountedBy
          (tally (of_resource i) rs)
          (tally (is_active_of i) cs)
          (tally (of_article i) vs)
          (some a)
  counted_at i j a found p =
      subst
        (CountedBy (tally (of_resource i) rs) (tally (is_active_of i) cs) (tally (of_article i) vs))
        (subst (λ m. find_key article_key m bs ≡ some a) (sym p) found) (h.counted i)

  pub liked_at :
      (i j : ℕ) (c : ArticleComment)
      → find_key comment_key j cs ≡ some c
      → i ≡ j
      → c.likes_count ≡ tally (of_resource i) rs
  liked_at i j c found p =
      subst (LikedBy (tally (of_resource i) rs))
        (subst (λ m. find_key comment_key m cs ≡ some c) (sym p) found) (h.liked i)

  no_comment :
      (j : ℕ) (a : Article) → find_key article_key j bs ≡ some a → find_key comment_key j cs ≡ none
  no_comment j a found = elim (h.apart j) [ inl e ↦ absurd (ground arith) | inr e ↦ e ]

  no_article :
      (j : ℕ) (c : ArticleComment)
      → find_key comment_key j cs ≡ some c
      → find_key article_key j bs ≡ none
  no_article j c found = elim (h.apart j) [ inl e ↦ e | inr e ↦ absurd (ground arith) ]

  -- A like that is new.
  module _ (j user : ℕ) where
    abbrev pub liked_by : List ArticleReaction
    liked_by = rs ++ record { id = next; resource_id = j; user_id = user } ∷ []

    pub tally-liked_by :
        (i : ℕ)
        → tally (of_resource i) liked_by ≡ tally (of_resource i) rs + (if j == i then 1 else 0)
    tally-liked_by i =
        tally-append (of_resource i) rs (record { id = next; resource_id = j; user_id = user })

    pub tally-liked_by_ne :
        (i : ℕ) → (j == i) ≡ false → tally (of_resource i) liked_by ≡ tally (of_resource i) rs
    tally-liked_by_ne i n = ground (arith, tally-liked_by i)

    pub liked_by-distinct : AreIdsDistinct liked_by
    liked_by-distinct =
        AreIdsDistinct-append rs (record { id = next; resource_id = j; user_id = user })
          (subst (λ m. any (has_id m) rs ≡ false) (omega arith) (h.unused 0).reaction) h.distinct

    pub liked_by-IsUnused :
        (n : ℕ) → (j == suc next + n) ≡ false → IsUnused bs cs liked_by vs (suc next + n)
    liked_by-IsUnused n apart =
        let u : IsUnused bs cs rs vs (suc next + n) = IsUnused-later bs cs rs vs next n h.unused in
        record {
          article = u.article;
          comment = u.comment;
          likes = tally-liked_by_ne (suc next + n) apart ∙ u.likes;
          active = u.active;
          viewed = u.viewed;
          reaction = ground (
            arith,
            any-append (has_id (suc next + n)) rs
                (record { id = next; resource_id = j; user_id = user }),
            u.reaction,
          );
        }

  -- The reactions to one resource have changed, and its likes are brought up to date.
  module _ (j n next' : ℕ) (ss : List ArticleReaction) (this : tally (of_resource j) ss ≡ n)
      (other : (i : ℕ) → (j == i) ≡ false → tally (of_resource i) ss ≡ tally (of_resource i) rs)
      (distinct : AreIdsDistinct ss) (unused : (m : ℕ) → IsUnused bs cs ss vs (next' + m)) where
    elsewhere : (i : ℕ) → i ≢ j → tally (of_resource i) ss ≡ tally (of_resource i) rs
    elsewhere i n = other i (ground (arith, ==_iff j i))

    pub relike-AreCounted :
        (a : Article)
        → find_key article_key j bs ≡ some a
        → AreCounted (update_key article_key j (with_likes n) bs) cs ss vs next'
    relike-AreCounted a found = record {
      counted = λ i.
          let c = tally (is_active_of i) cs in
          let v = tally (of_article i) vs in
          CountedBy-update i j (with_likes n) bs a (tally (of_resource i) ss) c v found (λ x. refl)
            (λ p.
              (sym this ∙ ap (λ m. tally (of_resource m) ss) (sym p), (counted_at i j a found p).1))
            (λ x.
              subst (λ l. CountedBy l c v (find_key article_key i bs)) (sym (elsewhere i x))
                (h.counted i));
      liked = λ i. elim (ℕ_discrete i j) [
        | yes p ↦
            subst (LikedBy (tally (of_resource i) ss))
              (sym (ap (λ m. find_key comment_key m cs) p ∙ no_comment j a found)) tt
        | no x ↦
            subst (λ l. LikedBy l (find_key comment_key i cs)) (sym (elsewhere i x)) (h.liked i)
      ];
      apart = λ i. elim (h.apart i) [
        | inl e ↦ inl (find_key-update_none article_key i j (with_likes n) bs (λ x. refl) e)
        | inr e ↦ inr e
      ];
      distinct = distinct;
      unused = λ m.
          let u = unused m in
          record {
            article =
                find_key-update_none article_key (next' + m) j (with_likes n) bs (λ x. refl)
                  u.article;
            comment = u.comment;
            likes = u.likes;
            active = u.active;
            viewed = u.viewed;
            reaction = u.reaction;
          };
    }

    pub relike_comment-AreCounted :
        (c : ArticleComment)
        → find_key comment_key j cs ≡ some c
        → AreCounted bs (update_key comment_key j (with_comment_likes n) cs) ss vs next'
    relike_comment-AreCounted c found = record {
      counted = λ i. elim (ℕ_discrete i j) [
        | yes p ↦
            subst (CountedBy (tally (of_resource i) ss) (active i) (tally (of_article i) vs))
              (sym (ap (λ m. find_key article_key m bs) p ∙ no_article j c found)) tt
        | no x ↦
            rw
              (
                elsewhere i x,
                tally-update_same comment_key (is_active_of i) j (with_comment_likes n) cs
                    (λ y. refl),
              )
              (h.counted i)
      ];
      liked = λ i.
          LikedBy-update i j (with_comment_likes n) cs c (tally (of_resource i) ss) found
            (λ x. refl) (λ p. sym this ∙ ap (λ m. tally (of_resource m) ss) (sym p))
            (λ x.
              subst (λ l. LikedBy l (find_key comment_key i cs)) (sym (elsewhere i x)) (h.liked i));
      apart = λ i. elim (h.apart i) [
        | inl e ↦ inl e
        | inr e ↦ inr (find_key-update_none comment_key i j (with_comment_likes n) cs (λ x. refl) e)
      ];
      distinct = distinct;
      unused = λ m.
          let u = unused m in
          record {
            article = u.article;
            comment =
                find_key-update_none comment_key (next' + m) j (with_comment_likes n) cs (λ x. refl)
                  u.comment;
            likes = u.likes;
            active =
                tally-update_same comment_key (is_active_of (next' + m)) j (with_comment_likes n) cs
                  (λ y. refl)
                ∙ u.active;
            viewed = u.viewed;
            reaction = u.reaction;
          };
    }
      where
        active : ℕ → ℕ
        active i = tally (is_active_of i) (update_key comment_key j (with_comment_likes n) cs)
