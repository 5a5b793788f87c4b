-- ===== src/Queue/Store.antt =====
-- The rows that src/hunt/application-queue.ts and src/modules/applications/actions.ts read and
-- write, for one user: candidates, applications, dispatches, the jobs of a run, and runs.
--
-- Ids are numbers, and `next_id` stands for a fresh one. Left out are the columns that no guard
-- reads: `updatedAt`, what an application shows of its job, the texts of `progress`, and `error`.
-- `cancelled_note` says that an application's notes are the text of a cancellation. An event of an
-- application is its id and the new status. A job's `applyUrl` is the one that the query chooses.
pub mod Enqueue
pub mod Actions
pub mod Fence
pub mod Allowance
pub mod Days
use Prim.Native.String.{String}
use job_hunters_api.Common.{
  ℕ, ◌+◌, ◌==◌, Bool, true, false, not, ◌&&◌, ◌||◌, Option, none, some, List, [], ◌∷◌, map, any,
  count, leb, if◌then◌else◌,
}
use job_hunters_api.Queue.Policy.{ApplicationStatus, DailyBudget, daily_budget}

pub data CandidateStatus : Type 0 where
  discovered approved rejected tailored queued applying applied needs_review failed :
      CandidateStatus

pub data RunStatus : Type 0 where
  queued running awaiting_approval applying paused stopped completed failed : RunStatus

pub data RunJobStatus : Type 0 where
  scraped eligible below_threshold deal_breaker role_mismatch seniority_mismatch experience_mismatch
        insufficient_skills location_mismatch approved rejected queued tailored applying applied
        needs_review failed closed :
      RunJobStatus

pub record Candidate : Type 0 where
  pub id : ℕ
  pub run_id : ℕ
  pub job_id : ℕ
  pub portal : String
  pub apply_url : String
  pub status : CandidateStatus

pub record Application : Type 0 where
  pub id : ℕ
  pub job_id : ℕ
  pub run_id : ℕ
  pub status : ApplicationStatus
  pub queued_at : ℕ
  pub cancelled_note : Bool

pub record Dispatch : Type 0 where
  pub id : ℕ
  pub candidate_id : ℕ
  pub cancelled_at : Option ℕ

pub record RunJob : Type 0 where
  pub run_id : ℕ
  pub job_id : ℕ
  pub portal : String
  pub apply_url : String
  pub status : RunJobStatus
  pub eligibility : Option RunJobStatus
  pub no_applyable_url : Bool

pub record Run : Type 0 where
  pub id : ℕ
  pub target : ℕ
  pub status : RunStatus
  pub candidates_approved : ℕ
  pub approved_at : Option ℕ
  pub finished_at : Option ℕ

pub record Store : Type 0 where
  pub candidates : List Candidate
  pub applications : List Application
  pub dispatches : List Dispatch
  pub run_jobs : List RunJob
  pub runs : List Run
  pub events : List (ℕ × ApplicationStatus)
  pub daily_target : Option ℕ
  pub next_id : ℕ

abbrev pub is_closed : ApplicationStatus → Bool
is_closed ApplicationStatus.closed = true
is_closed _ = false

-- An application that takes up the allowance of the day that begins at `start`.
abbrev pub is_reserved : ℕ → Application → Bool
is_reserved start a = leb start a.queued_at && not (is_closed a.status && a.cancelled_note)

abbrev pub daily_start : ℕ → ℕ
daily_start now = (daily_budget 0 100 now).start

unfoldable pub used_today : ℕ → Store → ℕ
unfolding daily_budget
used_today now s = count (is_reserved (daily_start now)) s.applications

-- `spec?.target ?? 100`.
abbrev pub target_or_100 : Option ℕ → ℕ
target_or_100 none = 100
target_or_100 (some target) = target

abbrev pub budget : ℕ → Store → DailyBudget
budget now s = daily_budget (used_today now s) (target_or_100 s.daily_target) now

-- `inArray(column, ids)`.
abbrev pub in_array : ℕ → List ℕ → Bool
in_array id ids = any (λ other. other == id) ids
