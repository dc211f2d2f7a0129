-- ===== src/Gate/Publisher/Onward.antt =====
-- The methods of `Publisher` in src/prxref/gate/checks.py leave a database that the store's methods
-- can reach.
use prxref.Base.{
  ℕ, zero, suc, Bool, true, false, Option, none, some, List, [], ◌∷◌, if◌then◌else◌, ltb, length,
}
use prxref.Base.Text.{Text}
use prxref.Gate.Store.Rows.{Generation}
use prxref.Gate.Store.Invariant.{record_publication-Advances}
use prxref.Gate.World.{Act, Fault, InlineComment, Event, Outside, Report, give, many_pages}
use prxref.Gate.World.Carries.{
  Carries, Carries-give, Carries-throw, Carries-outcome, Carries-bind, Carries-if, Carries-request,
}
use prxref.Gate.Publisher.{Lease, own_post, summary_marker}
use prxref.Gate.Publisher.Complete.{
  find_review, send_review, send_missing_review, recover_review, give_id, refused_review,
  post_review_of, find_summary, put_summary, upsert_summary, post_bare_review, record_review,
  post_verdict, verdict_unless, summarize, complete,
}
use prxref.Gate.Publisher.CheckOnward.{
  onward, fence-Carries, close_check_run-Carries, read_row-Carries, with_check-Carries,
}

module _ (env : Outside) where
  find_review-Carries : (g : Generation) (marker : Text) → Carries (find_review env g marker)
  unfolding find_review
  find_review-Carries g marker = search onward depth 9

  send_review-Carries :
      (g : Generation) (e : Event) (cs : List InlineComment) (why : Text)
      → Carries (send_review env g e cs why)
  unfolding send_review
  send_review-Carries g e cs why = search onward depth 9

  send_missing-Carries :
      (g : Generation) (lease : Lease) (e : Event) (cs : List InlineComment) (why : Text)
      (i : Option ℕ)
      → Carries (send_missing_review env g lease e cs why i)
  unfolding send_missing_review
  send_missing-Carries g lease e cs why (some i) = Carries-give i
  send_missing-Carries g lease e cs why none =
      search (onward, fence-Carries env, send_review-Carries) depth 9

  recover_review-Carries :
      (g : Generation) (lease : Lease) (e : Event) (cs : List InlineComment) (why : Text)
      (f : Fault)
      → Carries (recover_review env g lease e cs why f)
  unfolding recover_review
  recover_review-Carries g lease e cs why f =
      search (onward, find_review-Carries, send_missing-Carries) depth 9

  give_id-Carries : (i : ℕ) → Carries (give_id env i)
  unfolding give_id
  give_id-Carries i = Carries-give _

  refused_review-Carries : (cs : List InlineComment) (f : Fault) → Carries (refused_review env cs f)
  unfolding refused_review
  refused_review-Carries cs f = search onward depth 9

  post_review-Carries :
      (g : Generation) (lease : Lease) (e : Event) (cs : List InlineComment) (why : Text)
      → Carries (post_review_of env g lease e cs why)
  unfolding post_review_of
  post_review-Carries g lease e cs why =
      search
        (
          onward, send_review-Carries, recover_review-Carries, give_id-Carries,
          refused_review-Carries,
        )
        depth 9

  post_bare-Carries :
      (g : Generation) (lease : Lease) (e : Event) (cs : List InlineComment) (why : Text)
      (i : Option ℕ)
      → Carries (post_bare_review env g lease e cs why i)
  unfolding post_bare_review
  post_bare-Carries g lease e cs why (some i) = Carries-give _
  post_bare-Carries g lease e cs why none =
      search (onward, fence-Carries env, post_review-Carries) depth 9

  record_review-Carries :
      (g : Generation) (lease : Lease) (e : Event) (i : Option ℕ)
      → Carries (record_review env g lease e i)
  unfolding record_review
  record_review-Carries g lease e none = Carries-give tt
  record_review-Carries g lease e (some i) = search (onward, record_publication-Advances) depth 9

  post_verdict-Carries :
      (g : Generation) (lease : Lease) (e : Event) (cs : List InlineComment) (why : Text)
      → Carries (post_verdict env g lease e cs why)
  unfolding post_verdict
  post_verdict-Carries g lease e cs why =
      search
        (onward, fence-Carries env, post_review-Carries, post_bare-Carries, record_review-Carries)
        depth 9

  verdict_unless-Carries :
      (g : Generation) (lease : Lease) (e : Event) (cs : List InlineComment) (why : Text) (b : Bool)
      → Carries (verdict_unless env g lease e cs why b)
  unfolding verdict_unless
  verdict_unless-Carries g lease e cs why true = post_verdict-Carries g lease e cs why
  verdict_unless-Carries g lease e cs why false = Carries-give []

  find_summary-Carries :
      (fuel : ℕ) (g : Generation) (page : ℕ) → Carries (find_summary env fuel g page)
  unfolding find_summary
  find_summary-Carries zero g page = Carries-throw many_pages
  find_summary-Carries (suc fuel) g page = Carries-bind _ _ (Carries-request env _) λ b.
      Carries-bind _ _ (Carries-outcome _) λ posts.
        found_or g page (own_post env.bot_login summary_marker posts) (ltb (length posts) 100)
          (find_summary env fuel g (suc page)) (find_summary-Carries fuel g (suc page))
    where
      found_or :
          (g : Generation) (page : ℕ) (mine : Option ℕ) (last : Bool) (more : Act (Option ℕ))
          → Carries more
          → Carries (elim mine [ some i ↦ give (some i) | none ↦ if last then give none else more ])
      found_or g page (some i) last more k = Carries-give _
      found_or g page none last more k = Carries-if last _ _ (Carries-give none) k

  put_summary-Carries :
      (g : Generation) (body : Text) (i : Option ℕ) → Carries (put_summary env g body i)
  unfolding put_summary
  put_summary-Carries g body (some i) = search onward depth 9
  put_summary-Carries g body none = search onward depth 9

  summarize-Carries :
      (g : Generation) (lease : Lease) (t : Text) → Carries (summarize env g lease t)
  unfolding summarize upsert_summary
  summarize-Carries g lease [] = Carries-give tt
  summarize-Carries g lease (c ∷ t) =
      search (onward, fence-Carries env, find_summary-Carries, put_summary-Carries) depth 9

  pub complete-Carries :
      (g : Generation) (lease : Lease) (r : Report) → Carries (complete env g lease r)
  unfolding complete
  complete-Carries g lease r =
      search
        (
          onward,
          read_row-Carries env,
          with_check-Carries env,
          verdict_unless-Carries,
          summarize-Carries,
          close_check_run-Carries env,
        )
        depth 15
