-- ===== src/Gate/World.antt =====
-- What a worker of src/prxref/gate acts on: the store, which other threads and processes write too,
-- and GitHub, through `GitHubClient.request` of gate/checks.py. GitHub, the clock and the other
-- processes are arguments: an `Outside` says what they do.
pub mod Carries
pub mod Fenced
use prxref.Base.{
  ℕ, suc, ◌+◌, String, Bool, true, false, Option, none, some, List, [], ◌∷◌, ◌==◌, leb,
  if◌then◌else◌,
}
use prxref.Base.Text.{Text}
use prxref.Gate.Exec.{Error, Exec, Result, ok, err}
use prxref.Gate.Store.Rows.{Generation, Store}
use prxref.Gate.Store.Calls.{Call, run}
use prxref.Gate.Binding.{LivePr, Drift}
use prxref.Gate.Checks.{Patch, Review}

-- What the worker's code may raise: an exception of the store, `Stale`, `UncertainReply`, another
-- `GitHubError` with its status, a `KeyError`, `TypeError` or `AttributeError` on a reply of
-- another shape, or a decoding error; `many_pages` stands for a loop over pages that outlived its
-- fuel. `interruption` is a `BaseException` of the review that is no `Exception`.
pub data Fault : Type 0 where
  store_error : Error → Fault
  stale : Drift → Fault
  uncertain_reply : Fault
  github_error : ℕ → Fault
  malformed_reply many_pages interruption : Fault

pub data Outcome (A : Type 0) : Type 0 where
  returned : A → Outcome A
  raised : Fault → Outcome A

-- A check run as GitHub lists it.
pub record CheckRun : Type 0 where
  pub id : ℕ
  pub external_id : Option Text

-- A review or an issue comment as GitHub lists it: `user.login` and `body or ""`.
pub record Post : Type 0 where
  pub id : ℕ
  pub login : Option String
  pub body : Text

pub data Side : Type 0 where
  left right : Side

-- `InlineComment`
pub record InlineComment : Type 0 where
  pub path : String
  pub line : ℕ
  pub side : Side
  pub body : Text
  pub start_line : Option ℕ

-- A check annotation.
pub record Annotation : Type 0 where
  pub path : String
  pub start_line : ℕ
  pub end_line : ℕ
  pub level : String
  pub title : Option Text
  pub message : Text

pub data Event : Type 0 where
  approve request_changes : Event

-- The calls of the REST API, by their method and path.
pub data ApiRequest : Type 0 where
  get_pull : String → ℕ → ApiRequest
  get_check_runs : String → String → ApiRequest
  post_check_run : String → String → Text → ApiRequest
  reopen_check_run : String → ℕ → ApiRequest
  patch_check_run : String → Option ℕ → Text → Text → Patch Annotation → ApiRequest
  get_reviews : String → ℕ → ApiRequest
  post_review : String → ℕ → String → Event → Text → List InlineComment → ApiRequest
  get_comments : String → ℕ → ℕ → ApiRequest
  patch_comment : String → ℕ → Text → ApiRequest
  post_comment : String → ℕ → Text → ApiRequest

-- The content of a reply: `object` is a dictionary with an id, `feed` a list of reviews or comments,
-- `empty` no content or JSON that is false, `other` another dictionary, `scalar` JSON that is neither,
-- `no_json` a text that is no JSON. Where a key is there, its value is of the documented type.
pub data ReplyBody : Type 0 where
  pull : LivePr → ReplyBody
  object : ℕ → ReplyBody
  check_runs : List CheckRun → ReplyBody
  feed : List Post → ReplyBody
  empty other scalar no_json : ReplyBody

-- The end of one `_send`: no token, no response, or a status with what it carries.
pub data Http : Type 0 where
  no_credential no_response : Http
  response : ℕ → ReplyBody → Http

-- What the worker has done to the outside, the latest first: it sent a request, or it renewed its
-- lease.
pub data Step : Type 0 where
  sent : ApiRequest → Step
  renewed : Step

-- `tick` counts the uses of the store.
pub record World : Type 0 where
  pub store : Store
  pub steps : List Step
  pub tick : ℕ

-- What comes with one use of the store: the calls of other threads and processes before it, and the
-- two readings of the clock.
pub record Moment : Type 0 where
  pub calls : List Call
  pub fence_now : ℕ
  pub now : ℕ

-- A finding of a review: file-level at line 0.
pub record ReviewFinding : Type 0 where
  pub file : String
  pub line : ℕ
  pub severity : String
  pub title : Text
  pub body : Text

-- What a review that ended gives: its result with its active findings, what it asked to post, the
-- texts that `failure_detail` and `summary_text` write of the result, and the line of the summary
-- that says why the review could not complete.
pub record Report : Type 0 where
  pub result : Option Review
  pub findings : List ReviewFinding
  pub summary : Text
  pub comments : List InlineComment
  pub failure_detail : Text
  pub details : Text
  pub posted_reason : Option String

-- How the wait for the review thread ends: with a report, at the deadline with the text that says
-- so, or by an `Exception`, with `review crashed: ` and its class and with its redacted text added, or
-- by another `BaseException`.
pub data ReviewEnd : Type 0 where
  finished : Report → ReviewEnd
  timed_out : String → ReviewEnd
  crashed : String → String → ReviewEnd
  interrupted : ReviewEnd

-- What the worker does not control. GitHub's answer to a request may depend on all that was sent
-- before; `bot_login` is the login that GitHub gives for the app; `pages` bounds the pages of
-- comments that a loop reads; `why` is `publish failed: ` with an exception's class,
-- and `message` adds its redacted text.
pub record Outside : Type 0 where
  pub moment : ℕ → Moment
  pub reply : List Step → Http
  pub bot_login : String
  pub pages : ℕ
  pub review : Generation → ReviewEnd
  pub why : Fault → String
  pub message : Fault → String

abbrev pub Act : Type 0 → Type 0
Act A = World → Outcome A × World

module _ {A : Type 0} where
  unfoldable pub give : A → Act A
  give a w = (returned a, w)

  unfoldable pub throw : Fault → Act A
  throw f w = (raised f, w)

  -- Takes over an outcome that was computed.
  unfoldable pub outcome : Outcome A → Act A
  outcome o w = (o, w)

module _ {A B : Type 0} where
  abbrev pub after : (A → Act B) → (Fault → Act B) → Outcome A × World → Outcome B × World
  after k h (returned a, w) = k a w
  after k h (raised f, w) = h f w

  infixl 10 ◌>>=◌
  unfoldable pub ◌>>=◌ : Act A → (A → Act B) → Act B
  unfolding throw
  ◌>>=◌ m k w = after k throw (m w)

  -- `try: a = m`, `except: h`, and `k` after it, whose exceptions `h` does not see.
  unfoldable pub attempt : Act A → (A → Act B) → (Fault → Act B) → Act B
  attempt m k h w = after k h (m w)

infixl 10 ◌>>◌
abbrev pub ◌>>◌ : {B : Type 0} → Act (Unit {0}) → Act B → Act B
m >> n = m >>= λ _. n

module _ {A : Type 0} where
  unfoldable pub stored : World → Result A × Store → Outcome A × World
  stored w (ok a, s) = (returned a, record w { store = s; tick = suc w.tick })
  stored w (err e, s) = (raised (store_error e), record w { store = s; tick = suc w.tick })

  -- One method of the store, which reads the clock at most twice.
  unfoldable pub at_store : Outside → (ℕ → ℕ → Exec Store A) → Act A
  unfolding stored
  at_store env m w =
      let now = env.moment w.tick in stored w (m now.fence_now now.now (run now.calls w.store))

-- `_send`
unfoldable pub send : Outside → ApiRequest → World → Http × World
send env r w = (env.reply (sent r ∷ w.steps), record w { steps = sent r ∷ w.steps })

unfoldable pub is_unauthorized : Http → Bool
is_unauthorized (response status body) = status == 401
is_unauthorized _ = false

-- `resp.json() if resp.content else None`
unfoldable pub decoded : ReplyBody → Outcome ReplyBody
decoded no_json = raised malformed_reply
decoded body = returned body

-- The tests of `request` on the status, and its return.
unfoldable pub received : Http → Outcome ReplyBody
unfolding decoded
received no_credential = raised uncertain_reply
received no_response = raised uncertain_reply
received (response status body) =
    if leb 500 status
    then raised uncertain_reply
    else if leb 400 status
    then raised (github_error status)
    else decoded body

unfoldable pub reply_of : Http × World → Outcome ReplyBody × World
unfolding received
reply_of (h, w) = (received h, w)

-- A 401 mints a fresh token and retries once.
unfoldable pub retry : Outside → ApiRequest → Http × World → Outcome ReplyBody × World
unfolding is_unauthorized reply_of send
retry env r (h, w) = if is_unauthorized h then reply_of (send env r w) else reply_of (h, w)

unfoldable pub request : Outside → ApiRequest → Act ReplyBody
unfolding retry send
request env r w = retry env r (send env r w)

-- `LivePR` of a reply.
unfoldable pub live_pr : ReplyBody → Outcome LivePr
live_pr (pull p) = returned p
live_pr _ = raised malformed_reply

unfoldable pub read_live_pr : Outside → String → ℕ → Act LivePr
unfolding live_pr
read_live_pr env repo number = do b ← request env (get_pull repo number); outcome (live_pr b)
