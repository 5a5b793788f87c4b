-- ===== src/Auth/SignUp.antt =====
-- The creation of an account and its link to Google, as src/modules/auth/service.ts writes them, and
-- its `signUp`. A transaction is one step; the reads before it may be of an older state. `lower` is
-- the database's function, over which the index of the e-mails is unique. Names, avatars, the time
-- of the last login and the log of activity are left out.
pub mod Created
use Prim.Native.String.{String}
use text.Mathlib.Text.{◌==◌ as str_eq}
use job_hunters_api.Common.{
  update_where, ℕ, ◌+◌, ◌==◌, Bool, false, not, ◌&&◌, ◌||◌, Option, none, some, List, [], ◌∷◌, ◌++◌,
  any, if◌then◌else◌,
}
use job_hunters_api.Auth.{User, Accounts, Payload, Session, user_of, issue_session}

pub record NewUser : Type 0 where
  pub email : String
  pub google_subject : Option String
  pub password_hash : String

pub data Failure : Type 0 where
  email_taken not_written account_changed link_expired not_configured unreachable : Failure
  rejected unreadable no_access_token wrong_identity unverified already_linked : Failure

-- What a sign-in ends with, and the rows it leaves.
pub data SignInResult : Type 0 where
  failed : Failure → Accounts → SignInResult
  entered : Session → Accounts → SignInResult

abbrev pub has_subject : String → User → Bool
has_subject sub u = is_sub u.google_subject
  where
    is_sub : Option String → Bool
    is_sub none = false
    is_sub (some other) = str_eq other sub

abbrev pub shares_subject : Option String → User → Bool
shares_subject none u = false
shares_subject (some sub) u = has_subject sub u

-- `users_google_subject_idx`, for the row that gets the subject.
abbrev pub is_subject_free : ℕ → String → List User → Bool
is_subject_free id sub users = not (any (λ u. not (u.id == id) && has_subject sub u) users)

abbrev pub with_subject : ℕ → String → List User → List User
with_subject id sub users =
    update_where (λ u. u.id == id) (λ u. record u { google_subject = some sub }) users

abbrev pub link_row : String → Option User → Accounts → Option (Option User × Accounts)
link_row sub none s = some (none, s)
link_row sub (some row) s =
    if is_subject_free row.id sub s.users
    then some (
      some (record row { google_subject = some sub }),
      record s { users = with_subject row.id sub s.users },
    )
    else none

-- The update that links an account to Google, with the row that it returns.
unfoldable pub link_google : ℕ → String → Accounts → Option (Option User × Accounts)
link_google id sub s = link_row sub (user_of id s) s

module _ (lower : String → String) where
  abbrev pub has_email : String → User → Bool
  has_email email u = str_eq (lower u.email) (lower email)

  -- The unique indexes that an insert meets.
  abbrev pub clashes : NewUser → User → Bool
  clashes new u = has_email new.email u || shares_subject new.google_subject u

  abbrev pub user_from : ℕ → NewUser → User
  user_from id new = record {
    id = id;
    email = new.email;
    google_subject = new.google_subject;
    password_hash = new.password_hash;
    auth_version = 0;
  }

  abbrev pub with_user : User → Accounts → Accounts
  with_user user s = record s {
    users = s.users ++ user ∷ [];
    kits = s.kits ++ user.id ∷ [];
    specs = s.specs ++ user.id ∷ [];
    next_id = s.next_id + 1;
  }

  -- The transaction that inserts an account with its kit and its hunt spec.
  unfoldable pub create_account : NewUser → Accounts → Option (User × Accounts)
  create_account new s =
      if any (clashes new) s.users
      then none
      else some (user_from s.next_id new, with_user (user_from s.next_id new) s)

  module _ (digest : String → String) (verify : ℕ → String → Option Payload)
      (sign : (user_id token_id : ℕ) → String) (matches : (password hash : String) → Bool)
      (hash_password : String → String) (ttl : ℕ) where
    abbrev entry_of : Option (Session × Accounts) → Accounts → SignInResult
    entry_of none s = failed account_changed s
    entry_of (some (session, after)) s = entered session after

    abbrev pub enter : ℕ → User → Accounts → SignInResult
    enter now user s =
        entry_of (issue_session digest verify sign matches hash_password ttl now user s) s

    abbrev pub enter_created : ℕ → Option (User × Accounts) → Accounts → SignInResult
    enter_created now none s = failed not_written s
    enter_created now (some (user, after)) s = enter now user after

    -- `signUp`; `seen` is the state in which it looked for the address.
    unfoldable pub sign_up :
        (now : ℕ) → (email password : String) → (seen : Accounts) → Accounts → SignInResult
    sign_up now email password seen s =
        if any (λ u. str_eq u.email email) seen.users
        then failed email_taken s
        else enter_created now
            (create_account
              (record {
                email = email;
                google_subject = none;
                password_hash = hash_password password;
              })
              s)
            s
