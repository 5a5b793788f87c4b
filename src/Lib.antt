-- ===== src/Lib.antt =====
-- A verification library for the Job Hunters API: a service that hunts for jobs, applies to them in
-- browsers that it drives, and asks people on LinkedIn for referrals.
--
-- The parts and how they interact:
--   * Outreach.Rank (src/outreach/rank.ts) scores the people found for a target. Outreach.Sequence
--     (src/outreach/sequence.ts, with the requests of src/modules/outreach/routes.ts) stores them
--     with drafted messages, lets the user approve and edit these, and hands out one message at a
--     time, asking Outreach.Limits (src/outreach/limits.ts) each time. Outreach.Sequence.Trace is the
--     step relation of the worker of src/runner.ts, the requests and the discovery together.
--   * Queue.Order (`planApplicationOrder` of src/hunt/application-queue.ts) picks and orders the
--     approved applications; Queue.Policy (src/hunt/application-policy.ts) has the daily budget, the
--     number of lanes and the rule for retries; Queue.Lanes (`acquireApplicationLanes`) takes the
--     leases under which an application runs, over the server that Redis describes. Queue.Store has
--     the rows of candidates, applications and dispatches, with the batch (`enqueueApprovedCandidates`),
--     `cancelApplication` and `retryApplication` of src/modules/applications/actions.ts, and the
--     worker's claim; Queue.Store.Days is their step relation. Queue.Selection
--     (src/modules/dashboard/job-policy.ts) says which jobs a user may select, and Queue.Approval
--     (src/hunt/approval.ts, with the lock of src/hunt/approval-lock.ts) turns a selection into
--     batches of Queue.Store. Queue.Dispatch (`dispatchPendingApplications` and
--     `removeWaitingApplication`) brings the dispatches to the queue server and takes them away, and
--     Queue.Flags is `flagApplication`.
--     Queue.Recovery has the repair of applications whose worker stopped or whose job failed, and
--     Queue.Worker the processing of one job, with the claim of Queue.Store.
--   * Agent (src/agent/loop.ts) fills a form with a language model: Agent.Loop is `runAgent`, and
--     Agent.Trim is about the part of the conversation that is sent.
--   * Ranking (src/hunt/ranking.ts, with `classifyRole` of src/hunt/role-filter.ts) scores a posting
--     and decides on it; what it accepts is offered to the user and goes to Queue once selected.
--   * Discovery.Planner (src/hunt/discovery/planner.ts) makes the searches of a hunt,
--     Discovery.Canonical (src/hunt/discovery/canonicalise.ts) keeps one of the copies of a posting, and
--     Discovery (`balancedSelection` of src/hunt/discovery/service.ts) the postings that the ranking
--     then sees.
--   * Auth (src/modules/auth/service.ts, oauth-state.ts and recovery.ts) keeps the accounts and their
--     sessions: Auth.SignUp creates an account, Auth.Google signs in with Google, over the server of
--     the state of its link, and Auth.Trace is the step relation of the requests.
--   * Vault (src/lib/credential-vault.ts) seals the credentials of a user under a key of his own.
--   * Inbox (src/inbox/match.ts) decides which application a reply is about.
--   * Locks (src/lib/locks.ts) is the wait for a user's resource, over the same server.
--   * Apply.Guard (src/hunt/apply/submission-guard.ts) is the scope in which a browser submits, as the
--     tools of src/agent/tools.ts use it.
--   * Browser.Limit (`createSemaphore` of src/browser/limit.ts) bounds the browsers that exist at
--     once.
--   * Common has the shared names, Boolean tests, lists, texts and the sort; Examples has the tests.
--
-- A function of the source keeps its name in snake_case, and a field or a constructor its word. A
-- closure's variables and a user's database rows are records that the operations take and return. A
-- query is a list function on a table. Numbers are natural numbers, instants milliseconds;
-- fractions of the scores are whole hundredths. What is not under src/ is a parameter:
-- `format_hour` for `Intl.DateTimeFormat`, `compose` for the drafts that a model writes, `Redis`
-- for the server with `IsRedis` for the laws of its commands, `decimal` for the printing of
-- numbers, `is_aggregator` for the test by a regular expression. The page, the model and the tools
-- of the agent answer through `World`, `error_key` is the key of an error's text, `live` says for
-- which candidates the queue server holds a job, `verify`, `sign`, `digest` and `matches` are the
-- cryptography of the sessions, `lower` is the database's, over which e-mails are unique, `clean`
-- is `trim` and `toLowerCase`, `Google` has the answers of Google, `Crypto` has the cipher and the
-- texts of the vault, with `IsCrypto` for what they promise, `BullQueue` is the queue server, with
-- `IsBullQueue` for its laws, `Words` and `Names` have the normal forms and patterns of the
-- discovery, `Lexicon` has the tables and patterns of the ranking, and `apply` is the browser's
-- part of a job.
--
-- Fuel: the round robin's `while` runs on as many passes as there are values, and each pass deals at
-- least one. The wait for a lock has one try for every millisecond of the wait and one more, and a
-- sleep between two tries takes a millisecond at least. The agent's loop has one pass for each of
-- its `max_steps`. The rounds of Discovery are one more than the postings, so that every queue ends.
--
-- Not modelled: the connectors that scrape sites, the form filling and the browser automation, whose
-- behaviour is that of pages that the code does not hold; the HTTP routes and the middleware, which
-- pass requests on; the database schema beyond the columns that the operations read; and the parts
-- that only call libraries and services, as billing, mail and the language model. The renewal
-- timers of leases keep every token and are left out. So are `submitForm` of src/hunt/apply/fill.ts,
-- which clicks before it records the click, `readWeights`, whose weights may be fractions, and the
-- callback of the agent's steps, which is taken to return.
pub mod Common
pub mod Redis
pub mod Browser
pub mod Queue
pub mod Locks
pub mod Apply
pub mod Outreach
pub mod Examples
pub mod Agent
pub mod Ranking
pub mod Auth
pub mod Inbox
pub mod Discovery
pub mod Vault
