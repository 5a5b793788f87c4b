-- ===== src/Queue/Flags.antt =====
-- `flagApplication` of src/modules/applications/actions.ts: the user asks for a review of the latest browser
-- attempt. `locked` says that the lock of the approval was free, `lease` that it held; `none` is an error.
-- The texts of the notes are left out.
use job_hunters_api.Common.{
  ℕ, ◌==◌, ◌≡◌, ◌≤◌, Bool, true, ◌&&◌, Option, none, some, List, [], ◌∷◌, ◌++◌, any, count,
  count-append, count_of_not_any, arith, if◌then◌else◌,
}

pub record AttemptFlag : Type 0 where
  pub attempt_id : ℕ
  pub is_unresolved : Bool

-- The flags, and the applications that got an event.
pub record Flags : Type 0 where
  pub flags : List AttemptFlag
  pub flagged : List ℕ

abbrev is_flag_of : ℕ → AttemptFlag → Bool
is_flag_of attempt_id f = (f.attempt_id == attempt_id) && f.is_unresolved

abbrev flag_attempt : Bool → ℕ → ℕ → Flags → Option Flags
flag_attempt lease app_id attempt_id f =
    if any (is_flag_of attempt_id) f.flags
    then some f
    else if lease
    then some (record {
      flags = f.flags ++ record { attempt_id = attempt_id; is_unresolved = true } ∷ [];
      flagged = f.flagged ++ app_id ∷ [];
    })
    else none

-- Of the latest attempt of the application's candidate.
unfoldable flag_application :
    (locked lease : Bool) (latest : Option ℕ) (app_id : ℕ) → Flags → Option Flags
flag_application locked lease none app_id f = none
flag_application locked lease (some attempt_id) app_id f =
    if locked then flag_attempt lease app_id attempt_id f else none

-- However often it is flagged, an attempt has one unresolved flag at most.
flag_application_once :
    (locked lease : Bool) (attempt_id app_id other : ℕ) (f after : Flags)
    → count (is_flag_of other) f.flags ≤ 1
    → flag_application locked lease (some attempt_id) app_id f ≡ some after
    → count (is_flag_of other) after.flags ≤ 1
unfolding flag_application
flag_application_once locked lease attempt_id app_id other f after one e = ground (
  arith,
  count-append (is_flag_of other) f.flags
      (record { attempt_id = attempt_id; is_unresolved = true } ∷ []),
  count_of_not_any (is_flag_of attempt_id) f.flags,
)
