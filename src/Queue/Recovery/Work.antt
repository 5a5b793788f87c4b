-- ===== src/Queue/Recovery/Work.antt =====
-- What a failed job of src/hunt/application-queue.ts leaves of its application and its run.
use job_hunters_api.Common.{ℕ, ◌==◌, ◌≡◌, Bool, true, false, ◌&&◌, any}
use job_hunters_api.Queue.Store.{RunStatus}
use job_hunters_api.Queue.Recovery.{Tables, AttemptRow, is_open, is_interrupted}

abbrev pub is_completed : RunStatus → Bool
is_completed RunStatus.completed = true
is_completed _ = false

-- Whether an attempt of this candidate is open.
abbrev is_open_of : ℕ → AttemptRow → Bool
is_open_of id a = (a.candidate_id == id) && is_open a.status

-- Neither the candidate nor an attempt of it is in progress.
abbrev pub IsOver : ℕ → Tables → Type 0
IsOver id t =
    (any (is_interrupted id) t.store.candidates ≡ false) × (any (is_open_of id) t.attempts ≡ false)
