-- ===== src/Gate/Publisher/Fenced.antt =====
-- Every write of `Publisher` in src/prxref/gate/checks.py renews the worker lease first.
use prxref.Base.{
  ℕ, zero, suc, refl, Bool, true, false, Option, none, some, List, [], ◌∷◌, if◌then◌else◌, ltb,
  length,
}
use prxref.Base.Text.{Text}
use prxref.Gate.Store.Rows.{Generation}
use prxref.Gate.World.{Act, Fault, InlineComment, Event, Outside, Report, give, many_pages}
use prxref.Gate.World.Fenced.{
  is_write, Runs, Runs-give, Runs-throw, Runs-outcome, Runs-at_store, Runs-if, Runs-read, Runs-same,
}
use prxref.Gate.Publisher.{Lease, own_post, summary_marker}
use prxref.Gate.Publisher.Complete.{
  find_review, send_review, send_missing_review, recover_review, give_id, refused_review,
  post_review_of, find_summary, put_summary, upsert_summary, post_bare_review, record_review,
  post_verdict, verdict_unless, summarize, complete,
}
use prxref.Gate.Publisher.CheckFenced.{
  running, Steady, Writes, fence-Runs, close_check_run-Steady, read_row-Steady, with_check-Steady,
}

module _ (env : Outside) where
  find_review-Runs :
      (p : Bool) (g : Generation) (marker : Text) → Runs env p p (find_review env g marker)
  unfolding find_review is_write
  find_review-Runs p g marker =
      Runs-same env _ _ p (Runs-read env p _ refl)
        λ b. Runs-same env _ _ p (Runs-outcome env p _) (λ l. Runs-give env p _)

  send_review-Writes :
      (g : Generation) (e : Event) (cs : List InlineComment) (why : Text)
      → Writes env (send_review env g e cs why)
  unfolding send_review
  send_review-Writes g e cs why = search running depth 9

  send_missing-Steady :
      (g : Generation) (lease : Lease) (e : Event) (cs : List InlineComment) (why : Text)
      (i : Option ℕ)
      → Steady env (send_missing_review env g lease e cs why i)
  unfolding send_missing_review
  send_missing-Steady g lease e cs why (some i) = Runs-give env false i
  send_missing-Steady g lease e cs why none =
      search (running, fence-Runs env, send_review-Writes) depth 9

  recover_review-Steady :
      (g : Generation) (lease : Lease) (e : Event) (cs : List InlineComment) (why : Text)
      (f : Fault)
      → Steady env (recover_review env g lease e cs why f)
  unfolding recover_review
  recover_review-Steady g lease e cs why f =
      search (running, find_review-Runs, send_missing-Steady) depth 9

  give_id-Steady : (i : ℕ) → Steady env (give_id env i)
  unfolding give_id
  give_id-Steady i = Runs-give env false _

  refused_review-Steady :
      (cs : List InlineComment) (f : Fault) → Steady env (refused_review env cs f)
  unfolding refused_review
  refused_review-Steady cs f = search running depth 9

  post_review-Writes :
      (g : Generation) (lease : Lease) (e : Event) (cs : List InlineComment) (why : Text)
      → Writes env (post_review_of env g lease e cs why)
  unfolding post_review_of
  post_review-Writes g lease e cs why =
      search
        (running, send_review-Writes, recover_review-Steady, give_id-Steady, refused_review-Steady)
        depth 9

  post_bare-Steady :
      (g : Generation) (lease : Lease) (e : Event) (cs : List InlineComment) (why : Text)
      (i : Option ℕ)
      → Steady env (post_bare_review env g lease e cs why i)
  unfolding post_bare_review
  post_bare-Steady g lease e cs why (some i) = Runs-give env false _
  post_bare-Steady g lease e cs why none =
      search (running, fence-Runs env, post_review-Writes) depth 9

  record_review-Steady :
      (g : Generation) (lease : Lease) (e : Event) (i : Option ℕ)
      → Steady env (record_review env g lease e i)
  unfolding record_review
  record_review-Steady g lease e none = Runs-give env false tt
  record_review-Steady g lease e (some i) = Runs-at_store env false _

  post_verdict-Steady :
      (g : Generation) (lease : Lease) (e : Event) (cs : List InlineComment) (why : Text)
      → Steady env (post_verdict env g lease e cs why)
  unfolding post_verdict
  post_verdict-Steady g lease e cs why =
      search (running, fence-Runs env, post_review-Writes, post_bare-Steady, record_review-Steady)
        depth 9

  verdict_unless-Steady :
      (g : Generation) (lease : Lease) (e : Event) (cs : List InlineComment) (why : Text) (b : Bool)
      → Steady env (verdict_unless env g lease e cs why b)
  unfolding verdict_unless
  verdict_unless-Steady g lease e cs why true = post_verdict-Steady g lease e cs why
  verdict_unless-Steady g lease e cs why false = Runs-give env false []

  found_or :
      (p : Bool) (mine : Option ℕ) (last : Bool) (more : Act (Option ℕ))
      → Runs env p p more
      → Runs env p p
          (elim mine [ some i ↦ give (some i) | none ↦ if last then give none else more ])
  found_or p (some i) last more k = Runs-give env p _
  found_or p none last more k = Runs-if env p p last _ _ (Runs-give env p none) k

  find_summary-Runs :
      (p : Bool) (fuel : ℕ) (g : Generation) (page : ℕ)
      → Runs env p p (find_summary env fuel g page)
  unfolding find_summary is_write
  find_summary-Runs p zero g page = Runs-throw env p p many_pages
  find_summary-Runs p (suc fuel) g page = Runs-same env _ _ p (Runs-read env p _ refl) λ b.
      Runs-same env _ _ p (Runs-outcome env p _) λ posts.
        found_or p (own_post env.bot_login summary_marker posts) (ltb (length posts) 100) _
          (find_summary-Runs p fuel g (suc page))

  put_summary-Writes :
      (g : Generation) (body : Text) (i : Option ℕ) → Writes env (put_summary env g body i)
  unfolding put_summary
  put_summary-Writes g body (some i) = search running depth 9
  put_summary-Writes g body none = search running depth 9

  summarize-Steady :
      (g : Generation) (lease : Lease) (t : Text) → Steady env (summarize env g lease t)
  unfolding summarize upsert_summary
  summarize-Steady g lease [] = Runs-give env false tt
  summarize-Steady g lease (c ∷ t) =
      search (running, fence-Runs env, find_summary-Runs, put_summary-Writes) depth 9

  pub complete-Steady :
      (g : Generation) (lease : Lease) (r : Report) → Steady env (complete env g lease r)
  unfolding complete
  complete-Steady g lease r =
      search
        (
          running,
          read_row-Steady env,
          with_check-Steady env,
          verdict_unless-Steady,
          summarize-Steady,
          close_check_run-Steady env,
        )
        depth 15
