-- ===== src/Lib.antt =====
-- Verification library for prxref.
--
-- prxref reviews pull requests with a language model. Its review gate (package src/prxref/gate) is a
-- GitHub App: a receiver takes webhooks and enqueues a generation for each (head, base) pair of a pull
-- request, a worker that holds a lease reviews one generation at a time and publishes a check run, and
-- a watchdog repairs expired work and reconciles with the open pull requests. The parts share one
-- SQLite database, `Store`.
--
-- Gate/Exec models a method that mutates the database and may raise, and the transaction `_tx`, which
-- undoes what was written before a raise. Gate/Store models src/prxref/gate/store.py: Rows has the
-- tables and statements, Fence, Deliveries, Leases, Generations, Queries and Publications the methods
-- under their Python names; Calls has the runs, in which the calls of all threads and processes are
-- interleaved in any order. Gate/Watchdog models src/prxref/gate/watchdog.py over a GitHub client that
-- is an argument.
--
-- A table is the list of its rows, the newest insert first. Times are natural numbers in the clock's
-- smallest unit, and each reading of the clock is an argument, so nothing is assumed of two readings.
-- `external_id` is kept as the number that its text shows. Loops over pages take the code's own bound
-- of pages; the gate's other loops run over lists. Not modelled: database errors other
-- than a broken UNIQUE constraint, the SQLite locks (a transaction is one step), and logging.
--
-- The review itself starts from a unified diff. Triage models src/prxref/triage.py, on texts that are
-- lists of code points (Base/Text): Lines has `str.splitlines`, Diff the hunk bodies, Branches and Parse the parser,
-- whose loop takes one unit of fuel for each line, Score, Trim and Pieces the functions on one file,
-- and Plan the placement of files into review chunks. Body, Numbers, Loop, Files and FormFeed are about
-- the parser, Split, Trim and Plan's modules about the rest. Scores are exact fiftieths instead of
-- floats, and churn is a function from paths. An exception is `none`.
--
-- Reviewer models `_render_file` and `render_chunk` of src/prxref/reviewer.py, which write a chunk as a
-- diff again. Its modules read such a text line by line with the parser of Triage: Decimal and Heads
-- the hunk headers, Paths the paths, Rounds, Moves and FileRounds the rounds of the loop, Cut the lines.
--
-- Gate/Events and Gate/Receiver model src/prxref/gate/receiver.py, and `_check_hmac` of
-- src/prxref/webhooks.py: the requests that the receiver takes, over payloads whose fields are missing
-- or of the types that GitHub documents; the keyed digest and the JSON decoder are arguments. Gate/Binding models
-- src/prxref/gate/binding.py. Parser models the bracket search of src/prxref/parser.py.
-- Followup models src/prxref/followup_merge.py: confidences are natural numbers in a unit as fine as
-- needed, and the comparisons of two claims by their words are arguments.
-- Stability models src/prxref/stability.py, which merges several review passes over one chunk, over an
-- argument that tells whether two findings have one cause: Result and Merge have the merge of a chunk
-- and of the passes, with what they read of src/prxref/costs.py; Walks, Clusters, Sorting, Agreement
-- and Passes are about the findings that the merge keeps.
-- Gate/Checks models the conclusion and the closing writes of src/prxref/gate/checks.py; the slices
-- of annotations take one unit of fuel for each annotation.
--
-- Gate/World, Gate/Publisher and Gate/Worker model the rest of src/prxref/gate/checks.py,
-- `read_live_pr` and `make_guard`, and src/prxref/gate/worker.py. An action of the worker may use the
-- store, after any calls of other threads and processes, and send requests to GitHub, whose answer is
-- any function of what was sent before: an `Outside` says what these do. The history of requests and
-- renewals of the lease is kept, so that theorems can speak of their order. Gate/Publisher/Check has
-- the check run, Complete the review and the summary comment; the other modules are about their order
-- and what they leave. The review's end is an argument, and so are the texts that
-- `failure_detail`, `summary_text` and `_redact` write; the search for the summary comment takes fuel
-- for its pages, and raises where it runs out. Each use of the store in one action is one step; where
-- the code reads the store under a test, the model reads it before.
pub mod Base
pub mod Followup
pub mod Gate
pub mod Parser
pub mod Reviewer
pub mod Stability
pub mod Triage
