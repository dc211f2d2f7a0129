-- ===== src/Gate/Publisher.antt =====
-- The class `Publisher` of src/prxref/gate/checks.py, with the guard of src/prxref/gate/binding.py
-- that `serve` and the AWS worker give it: what its methods compute, and in the child modules the
-- methods.
pub mod Check
pub mod Complete
pub mod CheckOnward
pub mod Onward
pub mod CheckFenced
pub mod Fenced
pub mod Looks
pub mod Looked
pub mod Adding
pub mod Repeated
use prxref.Base.{
  ℕ, zero, suc, ◌+◌, ◌-◌, String, Bool, true, false, not, ◌&&◌, Option, none, some, List, [], ◌∷◌,
  ◌++◌, map, str_eq, ◌==◌, ltb, if◌then◌else◌, is_some, length, keep, find_first,
}
use prxref.Base.Text.{Text, codes, contains, text_eq, show_number}
use prxref.Gate.Exec.{lease_lost, gets}
use prxref.Gate.Store.Rows.{Generation}
use prxref.Gate.Store.Fence.{get}
use prxref.Gate.Store.Leases.{renew_lease}
use prxref.Gate.Store.Generations.{set_check_run}
use prxref.Gate.Store.Publications.{publication, record_publication}
use prxref.Gate.Binding.{Drift, check_binding}
use prxref.Gate.Checks.{Conclusion, Review, conclusion_for, Patch, patches, batches, take}
use prxref.Gate.World.{
  Fault, store_error, stale, uncertain_reply, github_error, malformed_reply, many_pages, Outcome,
  returned, raised, CheckRun, Post, InlineComment, Annotation, Event, approve, request_changes,
  post_check_run, get_check_runs, reopen_check_run, patch_check_run, get_reviews, post_review,
  get_comments, patch_comment, post_comment, ReplyBody, object, check_runs, feed, empty, scalar,
  ApiRequest, Step, renewed, World, ReviewFinding, Report, Outside, Act, give, throw, outcome,
  ◌>>=◌, ◌>>◌, attempt, at_store, request, read_live_pr,
}

-- `Lease`
pub record Lease : Type 0 where
  pub holder : String
  pub token : ℕ
  pub ttl : ℕ

-- Notes that the lease was renewed.
unfoldable pub mark_renewed : Act (Unit {0})
mark_renewed w = (returned tt, record w { steps = renewed ∷ w.steps })

unfoldable pub renewal : Bool → Act (Unit {0})
renewal live = if live then mark_renewed else throw (store_error lease_lost)

unfoldable pub drifted : Option Drift → Act (Unit {0})
drifted none = give tt
drifted (some reason) = throw (stale reason)

-- `data["id"]`
unfoldable pub created : ReplyBody → Outcome ℕ
created (object i) = returned i
created _ = raised malformed_reply

-- `(data or {}).get("check_runs", [])`
unfoldable pub listed_runs : ReplyBody → Outcome (List CheckRun)
listed_runs (check_runs l) = returned l
listed_runs (feed (p ∷ ps)) = raised malformed_reply
listed_runs scalar = raised malformed_reply
listed_runs _ = returned []

-- `request(…) or []` as a list of reviews or comments
unfoldable pub listed_posts : ReplyBody → Outcome (List Post)
listed_posts (feed l) = returned l
listed_posts empty = returned []
listed_posts _ = raised malformed_reply

-- `external_id` of a generation
unfoldable pub external_text : Generation → Text
external_text g = elim g.external_id [ none ↦ [] | some n ↦ show_number n ]

abbrev has_text : Text → Option Text → Bool
has_text t none = false
has_text t (some u) = text_eq u t

-- The loop of `_find_check`.
unfoldable pub own_run : Text → List CheckRun → Option ℕ
own_run ext [] = none
own_run ext (r ∷ rs) = if has_text ext r.external_id then some r.id else own_run ext rs

unfoldable pub is_by : String → Option String → Bool
is_by bot_login none = false
is_by bot_login (some l) = str_eq l bot_login

-- The loop of `_find_review` and the `next` of `_upsert_summary`.
unfoldable pub own_post : String → Text → List Post → Option ℕ
unfolding is_by
own_post bot_login marker [] = none
own_post bot_login marker (p ∷ ps) =
    if is_by bot_login p.login && contains marker p.body
    then some p.id
    else own_post bot_login marker ps

-- `REVIEW_MARKER.format(external_id=…)`
unfoldable pub review_marker : Generation → Text
review_marker g = codes "<!-- sdlc-gate:generation=" ++ external_text g ++ codes " -->"

abbrev pub summary_marker : Text
summary_marker = codes "<!-- prxref-summary -->"

-- `with_summary_marker`
unfoldable pub with_summary_marker : Text → Text
with_summary_marker body =
    if contains summary_marker body then body else summary_marker ++ (10 ∷ body)

abbrev pub summary_limit : ℕ
summary_limit = 60000

unfoldable pub is_uncertain : Fault → Bool
is_uncertain uncertain_reply = true
is_uncertain _ = false

-- `exc.status == 422`
unfoldable pub is_unprocessable : Fault → Bool
is_unprocessable (github_error status) = status == 422
is_unprocessable _ = false

abbrev pub event_name : Event → String
event_name approve = "APPROVE"
event_name request_changes = "REQUEST_CHANGES"

abbrev headline : Event → Text
headline approve = codes "approved"
headline request_changes = codes "changes requested"

abbrev pub event_of : Conclusion → Event
event_of Conclusion.success = approve
event_of _ = request_changes

unfoldable pub review_body : Generation → Event → List InlineComment → Text → Text
review_body g event comments why =
    review_marker g
    ++ codes "\nsdlc review: "
    ++ headline event
    ++ codes " - "
    ++ show_number (length comments)
    ++ codes " inline finding(s)."
    ++ why

abbrev level : String → String
level severity =
    if str_eq severity "error"
    then "failure"
    else if str_eq severity "warning"
    then "warning"
    else "notice"

abbrev or_text : Text → Text → Text
or_text [] u = u
or_text (c ∷ t) u = c ∷ t

abbrev of_finding : ReviewFinding → Annotation
of_finding f = record {
  path = f.file;
  start_line = 1;
  end_line = 1;
  level = level f.severity;
  title = some (take 255 f.title);
  message = or_text f.body f.title;
}

-- `c.start_line or c.line`
abbrev first_line : InlineComment → ℕ
first_line c = elim c.start_line [ none ↦ c.line | some n ↦ if n == 0 then c.line else n ]

abbrev of_comment : InlineComment → Annotation
of_comment c = record {
  path = c.path;
  start_line = first_line c;
  end_line = c.line;
  level = "warning";
  title = none;
  message = c.body;
}

unfoldable pub annotations_for : List ReviewFinding → List InlineComment → List Annotation
annotations_for findings demoted =
    map of_finding (keep (λ f. f.line == 0) findings) ++ map of_comment demoted
