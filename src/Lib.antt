-- ===== src/Lib.antt =====
-- machinist: who may take work, who may judge it, and what may merge.
--
-- The program runs coding agents on the issues of a repository. A control plane leases work to
-- fleets of workers and records who holds which issue. What an agent produces is reviewed by another
-- agent, whose output block a review engine reads and holds against policy. A gatekeeper then decides
-- whether a pull request may merge, and on whose authority, and a detector tells which merges are
-- owed. Scheduled work starts by cron schedules. This library models these parts as functions and
-- states what they guarantee.
--
-- Files and code (paths from the repository's root):
--   Base.antt, Base/          names that the modules share: Boolean tests, lists, Go's strings and the
--                             functions of its package strings, stable sorting, path.Match, results,
--                             association lists, Go's int
--   Review/Types              internal/review/review.go
--   Review/Independence       internal/review/independence.go (CheckIndependence)
--   Review/Policy             internal/review/policy.go (protectedMatches, matchPath, matchSegments)
--   Review/Lines, Parse       internal/review/parse.go (parseFindings, Parse)
--   Review/Engine             internal/review/engine.go (Engine.Evaluate)
--   Review/Order, Patterns, Block, FailClosed, Withholds
--                             the theorems about those files
--   Gatekeeper/Request        internal/gatekeeper/request.go (Request.Valid)
--   Gatekeeper/Decision       internal/gatekeeper/gatekeeper.go and enablement.go
--   Gatekeeper/Paths, Tiers   internal/gatekeeper/tiers.go (evaluateGreen, evaluateReviewed)
--   Gatekeeper/Authorize      internal/gatekeeper/authorize.go (Authorize, AuthorizeDeploy)
--   Gatekeeper/Conditions     what each authority asks, stated of the request alone
--   Gatekeeper/Checks, Sound, Authority, Floor
--                             the theorems that the code decides by those conditions
--   Gatekeeper/Change, Owed   internal/gatekeeper/mergeowed.go (requiredChecks, Owed, OwedAcross)
--   Gatekeeper/Runs, Required, Standing, Ordering
--                             the theorems about what is owed
--   Controlplane/Lease        internal/controlplane/lease.go (SetLease, checkFleetLease)
--   Controlplane/Claim        internal/controlplane/claim.go (TakeClaim)
--   Controlplane/Handover     internal/controlplane/claim.go (transitionClaim, ReleaseClaim, HoldClaim)
--   Controlplane/Fleet, Rows, Taking, Exclusion
--                             the theorems about leases and claims
--   Triggers/Field, Cron      internal/triggers/cron.go (parseCronField; ParseCron, Cron.Next)
--   Triggers/Marking, Fields, Schedule, Termination
--                             the theorems about schedules
--   Jobs/Tables               the tables of internal/controlplane/store.go that the life of a run touches
--   Jobs/Recover              store.go (recoverExpiredRuns, ReclaimExpiredLeases)
--   Jobs/Route                store.go (connectedRouteProfiles, selectRouteProfile, nextRouteCandidate)
--   Jobs/Greet, Poll          store.go (poll)
--   Jobs/ErrorClass           internal/config/errorclass.go
--   Jobs/Report, Complete     store.go (retryAllowed, tokenRetryAllowed, resultMetrics, Complete)
--   Jobs/Operate, Create      store.go (Heartbeat, BindTerminal, CancelJob, DeleteJob,
--                             CreateJobWithOptions)
--   Jobs/Calls                the calls above as the steps of one store
--   Jobs/Life, Following      the life of a run as an abstract machine, and the calls on it
--   Jobs/Rows, Budget, Recovery, Turns, Completing, Leaving, Going, Moving, Answering, Concurrency
--                             the theorems about runs
--   Factoryrun/Evidence       internal/factoryrun/evidence.go
--   Factoryrun/Marker         internal/factoryrun/marker.go and updater.go
--   Factoryrun/Lines, Pieces, Reading, Sorted, RoundTrip, Republish
--                             the theorems about markers
--   Reviewing/Assigner        internal/controlplane/reviewer_assigner.go
--   Reviewing/Subject         store.go (ReviewSubject)
--   Reviewing/Judgements      mergeowed_store.go (RecordedJudgements), promote.go
--   Reviewing/Record          store.go (RecordReview)
--   Reviewing/Submit          internal/controlplane/review.go
--   Reviewing/Chosen, Heard, Promotion, Keys, Recorded   the theorems about reviews
--   Examples, OwedExamples, RouteExamples   fixtures, tests, and the theorems at concrete inputs
--
-- How the parts meet. The engine calls the independence check, the parser and the path policy in the
-- order of the source. The gatekeeper takes the review's verdicts, parties and default paths from the
-- modules of the review, as the Go packages do. The tables of leases and claims are lists of rows that
-- each operation takes and gives back; a step of Controlplane/Exclusion is one call of the store, and
-- a run is a list of them with the instant of each. The poll of Jobs/Poll asks the lease check of
-- Controlplane/Lease on the same store; Jobs/Calls steps through the calls of jobs and runs in the same
-- way. A marker's verdict is one of the review's.
-- The reviewer that Reviewing/Assigner chooses is held against the check of independence that
-- Review/Engine makes.
--
-- How the code is read. A Go string is the list of its bytes. A string type with listed values is a
-- data type with a constructor for each value and `other` for the rest. The text of an error, a refusal
-- or a reason is a constructor that holds the values the text names. A map that a function builds and
-- reads is an association list, or the list of its keys. A loop over a slice is structural recursion.
-- An instant is the number of nanoseconds since Go's zero time, and a stored instant is `none` where its
-- text does not parse.
--
-- Bounds and assumptions. White space and letter case are those of ASCII. A `?` or a class of a path
-- pattern takes one byte, where path.Match takes a character. A sum of tokens has no bound, where
-- SQLite's fails beyond 64 bits, and the identifiers of a new row are taken to be new. The package
-- strings, sort and path of Go's library are defined from their documentation. Instants are not
-- earlier than Go's zero time, and the difference of two of them fits a Duration. A write to the
-- database succeeds and a time that was written reads back. An operation of the store runs in one
-- transaction and leaves the table as it was when it fails. The search of Cron.Next has the source's own
-- bound of 4216320 minutes. The loop over the values of a cron item has the end of the
-- item plus one as fuel, which is enough since each round adds at least one. No other function needs
-- fuel. The database of time zones is a parameter: a zone is any function from instants to clock and
-- calendar.
--
-- A column of JSON of the store is `none` where it does not decode, and reading an integer
-- field of a worker's result is a parameter. A call of the store takes one instant, and the identifiers
-- that are drawn for it are its arguments; what Environment.Validate answers and the length of the
-- profiles' JSON stand in the poll. The characters of an error message are its bytes. Printing and
-- reading RFC 3339 are parameters of the markers, and the order of checks of one name and state, which
-- sort.Slice leaves open, is that in which they stood.
--
-- Not modelled: what only prints (Decision.String, Enablement.String, joinSeverities), the operations of
-- internal/controlplane/store.go on triggers and published markers, its listings and
-- migrations, the HTTP server, the forge adapter, the assignment of reviews, notes, the rest of the
-- configuration, telemetry, the runner and its workers, and the command line: system calls and printing
-- for the most part, or parts that stand beside those above.
pub mod Base
pub mod Review
pub mod Gatekeeper
pub mod Controlplane
pub mod Triggers
pub mod Jobs
pub mod Factoryrun
pub mod Reviewing
