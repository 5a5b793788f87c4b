-- ===== src/Queue/Approval/Outcome.antt =====
-- How `approveBatch` of src/hunt/approval.ts ends: by an answer and a store, or by an error.
use job_hunters_api.Common.{◌≡◌, refl, Bool, true, false}
use job_hunters_api.Queue.Store.{Store}
use job_hunters_api.Queue.Approval.{Refused, Result, ok, err, ◌>>◌, guard, Approved}

-- `P` holds of an answer with the store that it leaves, `E` of an error.
abbrev pub On :
    (Approved → Store → Type 0) → (Refused → Type 0) → Result (Approved × Store) → Type 0
On P E (ok (a, s)) = P a s
On P E (err e) = E e

pub On-guard :
    (P : Approved → Store → Type 0) (E : Refused → Type 0) (test : Bool) (e : Refused)
    (r : Result (Approved × Store))
    → (test ≡ true → On P E r)
    → (test ≡ false → E e)
    → On P E (guard test e >> r)
On-guard P E true e r h k = h refl
On-guard P E false e r h k = k refl
