-- ===== src/Examples/Auth.antt =====
-- Concrete sessions.
use Prim.Native.String.{String}
use text.Mathlib.Text.{◌==◌ as str_eq}
use job_hunters_api.Common.{
  ℕ, ◌==◌, ◌≡◌, refl, sym, ◌∙◌, Bool, true, Option, none, some, [], ◌∷◌, if◌then◌else◌, arith,
}
use job_hunters_api.Auth.{
  User, Accounts, Payload, Session, Refreshed, refused, renewed, is_refused, revoke_all_for_user,
  refresh_session, issue_session,
}
use job_hunters_api.Auth.Trace.{here, next, signs_out_everywhere}
use job_hunters_api.Auth.Rotation.{refresh_session_once}
use job_hunters_api.Auth.Ended.{by_sign_out, sessions_ended}

abbrev pub digest : String → String
digest text = text

abbrev pub same_case : String → String
same_case text = text

abbrev pub hashed : String → String
hashed text = text

abbrev pub fits : String → String → Bool
fits password hash = str_eq password hash

abbrev pub sign_token : ℕ → ℕ → String
sign_token user_id token_id = if token_id == 0 then "first" else "second"

abbrev pub check_token : ℕ → String → Option Payload
check_token now token =
    if str_eq token "first"
    then some (record { sub = 0; jti = 0 })
    else if str_eq token "second"
    then some (record { sub = 0; jti = 1 })
    else none

abbrev pub ann : User
ann = record {
  id = 0;
  email = "ann@mail.test";
  google_subject = none;
  password_hash = "secret";
  auth_version = 0;
}

abbrev pub accounts : Accounts
accounts = record {
  users = ann ∷ [];
  tokens =
      record {
        id = 0;
        user_id = 0;
        token_hash = "first";
        expires_at = 500;
        revoked_at = none;
        replaced_by = none;
      }
      ∷ [];
  resets = [];
  kits = 0 ∷ [];
  specs = 0 ∷ [];
  next_id = 1;
}

abbrev session_of : Refreshed → Session
session_of (refused why) = record { user_id = 0; refresh_token = ""; auth_version = 0 }
session_of (renewed session s) = session

abbrev accounts_of : Refreshed → Accounts
accounts_of (refused why) = accounts
accounts_of (renewed session s) = s

abbrev first_refresh : Refreshed
first_refresh = refresh_session digest check_token sign_token fits hashed 1000 10 "first" accounts

first_refresh_test : first_refresh ≡ renewed (session_of first_refresh) (accounts_of first_refresh)
unfolding refresh_session
first_refresh_test = refl

payload_inj : (p q : Payload) → some p ≡ some q → p ≡ q
payload_inj p q e = cc

refresh_session_once_example :
    is_refused (
      refresh_session digest check_token sign_token fits hashed 1000 20 "first"
        (revoke_all_for_user 15 0 (accounts_of first_refresh)))
    ≡ true
refresh_session_once_example =
    refresh_session_once same_case digest check_token sign_token fits hashed 1000 10 20 "first"
      accounts (accounts_of first_refresh) (revoke_all_for_user 15 0 (accounts_of first_refresh))
      (session_of first_refresh) (λ m n p q a b. payload_inj p q (sym a ∙ b)) (omega arith, tt)
      first_refresh_test (next here (signs_out_everywhere 15 0 (accounts_of first_refresh)))

sessions_ended_example :
    (is_refused (
        refresh_session digest check_token sign_token fits hashed 1000 20 "first"
          (revoke_all_for_user 15 0 accounts))
      ≡ true)
    × (issue_session digest check_token sign_token fits hashed 1000 20 ann
          (revoke_all_for_user 15 0 accounts)
        ≡ none)
sessions_ended_example =
    sessions_ended same_case digest check_token sign_token fits hashed 1000 ann accounts
      (revoke_all_for_user 15 0 accounts) (revoke_all_for_user 15 0 accounts) 20 "first"
      (record { sub = 0; jti = 0 }) (omega arith) (refl, tt) (by_sign_out 15 0) here refl refl
      (omega arith)
