-- ===== src/Gate/Publisher/Complete.antt =====
-- The review and the summary comment in the class `Publisher` of src/prxref/gate/checks.py, and
-- `complete`.
use prxref.Base.{
  ℕ, zero, suc, ◌-◌, String, Bool, true, false, not, ◌&&◌, Option, none, some, List, [], ◌∷◌, ◌++◌,
  str_eq, ltb, if◌then◌else◌, length,
}
use prxref.Base.Text.{Text, codes}
use prxref.Gate.Exec.{gets}
use prxref.Gate.Store.Rows.{Generation}
use prxref.Gate.Store.Publications.{publication, record_publication}
use prxref.Gate.Checks.{Conclusion, conclusion_for, take}
use prxref.Gate.World.{
  Fault, many_pages, InlineComment, Event, get_reviews, post_review, get_comments, patch_comment,
  post_comment, Report, Outside, Act, give, throw, outcome, ◌>>=◌, ◌>>◌, attempt, at_store, request,
}
use prxref.Gate.Publisher.{
  Lease, created, listed_posts, own_post, review_marker, review_body, summary_marker,
  with_summary_marker, summary_limit, is_uncertain, is_unprocessable, event_name, event_of,
  annotations_for,
}
use prxref.Gate.Publisher.Check.{fence_write, read_row, with_check, close_check_run}

abbrev pub has_any {ℓ} : {A : Type ℓ} → List A → Bool
has_any [] = false
has_any (x ∷ xs) = true

-- `published is None or published[0] != event`
unfoldable pub must_post : Event → Option (String × ℕ) → Bool
must_post event none = true
must_post event (some p) = not (str_eq p.0 (event_name event))

-- `failure_detail(…) if conclusion != "success" else ""`
abbrev pub tail : Conclusion → Report → Text
tail Conclusion.success r = []
tail _ r = r.failure_detail

abbrev pub separator : Text
separator = codes "\n\n---\n\n"

-- The text of the closed check.
unfoldable pub check_text : Report → Text
unfolding take
check_text r =
    if has_any r.summary
    then take (summary_limit - length separator - length r.details) r.summary
      ++ separator
      ++ r.details
    else r.details

abbrev check_title : Conclusion → Text
check_title Conclusion.success = codes "sdlc review: success"
check_title Conclusion.failure = codes "sdlc review: failure"
check_title Conclusion.cancelled = codes "sdlc review: cancelled"

module _ (env : Outside) where
  -- `_find_review`
  unfoldable pub find_review : Generation → Text → Act (Option ℕ)
  unfolding listed_posts own_post
  find_review g marker = do
    b ← request env (get_reviews g.repo g.pr_number)
    posts ← outcome (listed_posts b)
    give (own_post env.bot_login marker posts)

  unfoldable pub send_review : Generation → Event → List InlineComment → Text → Act ℕ
  unfolding created review_body
  send_review g event comments why = do
    b ← request env (
        post_review g.repo g.pr_number g.head_sha event (review_body g event comments why) comments)
    outcome (created b)

  unfoldable pub send_missing_review :
      Generation → Lease → Event → List InlineComment → Text → Option ℕ → Act ℕ
  unfolding send_review
  send_missing_review g lease event comments why (some i) = give i
  send_missing_review g lease event comments why none = do
    fence_write env lease (some g)
    send_review g event comments why

  unfoldable pub recover_review :
      Generation → Lease → Event → List InlineComment → Text → Fault → Act ℕ
  unfolding find_review send_missing_review is_uncertain
  recover_review g lease event comments why f =
      if is_uncertain f
      then (do
        found ← find_review g (review_marker g)
        send_missing_review g lease event comments why found)
      else throw f

  unfoldable pub give_id : ℕ → Act (Option ℕ)
  give_id i = give (some i)

  -- `except GitHubError`
  unfoldable pub refused_review : List InlineComment → Fault → Act (Option ℕ)
  unfolding is_unprocessable
  refused_review comments f = if is_unprocessable f && has_any comments then give none else throw f

  -- `_post_review`
  unfoldable pub post_review_of :
      Generation → Lease → Event → List InlineComment → Text → Act (Option ℕ)
  unfolding send_review recover_review refused_review give_id
  post_review_of g lease event comments why =
      attempt
        (attempt (send_review g event comments why) give
          (recover_review g lease event comments why))
        give_id (refused_review comments)

  -- The search of `_upsert_summary`, from a page on.
  unfoldable pub find_summary : ℕ → Generation → ℕ → Act (Option ℕ)
  unfolding listed_posts own_post
  find_summary zero g page = throw many_pages
  find_summary (suc fuel) g page = do
    b ← request env (get_comments g.repo g.pr_number page)
    posts ← outcome (listed_posts b)
    let more = find_summary fuel g (suc page)
    let mine = own_post env.bot_login summary_marker posts
    elim mine [ some i ↦ give (some i) | none ↦ if ltb (length posts) 100 then give none else more ]

  unfoldable pub put_summary : Generation → Text → Option ℕ → Act (Unit {0})
  unfolding with_summary_marker
  put_summary g body (some i) = do
    _ ← request env (patch_comment g.repo i (with_summary_marker body))
    give tt
  put_summary g body none = do
    _ ← request env (post_comment g.repo g.pr_number (with_summary_marker body))
    give tt

  -- `_upsert_summary`
  unfoldable pub upsert_summary : Generation → Text → Act (Unit {0})
  unfolding find_summary put_summary
  upsert_summary g body = do mine ← find_summary env.pages g 1; put_summary g body mine

  unfoldable pub post_bare_review :
      Generation
      → Lease
      → Event
      → List InlineComment
      → Text
      → Option ℕ
      → Act (Option ℕ × List InlineComment)
  unfolding post_review_of
  post_bare_review g lease event comments why (some i) = give (some i, [])
  post_bare_review g lease event comments why none = do
    fence_write env lease (some g)
    i ← post_review_of g lease event [] why
    give (i, comments)

  unfoldable pub record_review : Generation → Lease → Event → Option ℕ → Act (Unit {0})
  record_review g lease event none = give tt
  record_review g lease event (some i) =
      at_store env
        (λ fence_now now. record_publication g.id lease.token (event_name event) i fence_now now)

  -- The verdict review; its value is the comments whose anchors GitHub refused.
  unfoldable pub post_verdict :
      Generation → Lease → Event → List InlineComment → Text → Act (List InlineComment)
  unfolding post_review_of post_bare_review record_review
  post_verdict g lease event comments why = do
    fence_write env lease (some g)
    first ← post_review_of g lease event comments why
    posted ← post_bare_review g lease event comments why first
    record_review g lease event posted.0
    give posted.1

  unfoldable pub verdict_unless :
      Generation → Lease → Event → List InlineComment → Text → Bool → Act (List InlineComment)
  unfolding post_verdict
  verdict_unless g lease event comments why true = post_verdict g lease event comments why
  verdict_unless g lease event comments why false = give []

  unfoldable pub summarize : Generation → Lease → Text → Act (Unit {0})
  unfolding upsert_summary
  summarize g lease [] = give tt
  summarize g lease (c ∷ t) = do fence_write env lease (some g); upsert_summary g (c ∷ t)

  unfoldable pub complete : Generation → Lease → Report → Act Conclusion
  unfolding must_post verdict_unless summarize conclusion_for check_text annotations_for
  complete g lease r = do
    row ← read_row env g.id
    checked ← with_check env row lease (some row) row.check_run_id
    let conclusion = (conclusion_for r.result).0
    let event = event_of conclusion
    published ← at_store env (λ _ _. gets (publication checked.id))
    demoted ←
        verdict_unless checked lease event r.comments (tail conclusion r)
          (must_post event published)
    summarize checked lease r.summary
    close_check_run env checked lease (some checked) conclusion (check_title conclusion)
        (check_text r) (annotations_for r.findings demoted)
    give conclusion
