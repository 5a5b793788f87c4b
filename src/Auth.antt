-- ===== src/Auth.antt =====
-- src/modules/auth/service.ts: the rows of accounts and of their sessions, the refresh tokens that
-- rotate, and what ends them. Recovery has the reset of a password, SignUp and Google the creation
-- of accounts.
--
-- Ids are numbers, and `next_id` stands for a fresh one. A transaction is one step, since each locks
-- the row of its user first. `verify` and `sign` are those of JSON web tokens, `verify` at an
-- instant; `digest` is `hashToken`, `matches` and `hash_password` are of src/lib/password.ts. The
-- columns that no guard reads are left out; `kits` and `specs` are the owners of the rows of `kits`
-- and of `hunt_specs`. An error is `none` or a reason.
pub mod Recovery
pub mod SignUp
pub mod Google
pub mod Registry
pub mod Dead
pub mod Trace
pub mod Rotation
pub mod Version
pub mod Ended
use Prim.Native.String.{String}
use text.Mathlib.Text.{◌==◌ as str_eq}
use job_hunters_api.Common.{
  update_where, ℕ, ◌+◌, ◌*◌, ◌==◌, Bool, true, false, not, ◌&&◌, ◌||◌, Option, none, some, List, [],
  ◌∷◌, ◌++◌, map, any, find, filter, ltb, leb, if◌then◌else◌,
}

pub record User : Type 0 where
  pub id : ℕ
  pub email : String
  pub google_subject : Option String
  pub password_hash : String
  pub auth_version : ℕ

pub record RefreshToken : Type 0 where
  pub id : ℕ
  pub user_id : ℕ
  pub token_hash : String
  pub expires_at : ℕ
  pub revoked_at : Option ℕ
  pub replaced_by : Option ℕ

pub record ResetToken : Type 0 where
  pub id : ℕ
  pub user_id : ℕ
  pub token_hash : String
  pub expires_at : ℕ
  pub consumed_at : Option ℕ

pub record Accounts : Type 0 where
  pub users : List User
  pub tokens : List RefreshToken
  pub resets : List ResetToken
  pub kits : List ℕ
  pub specs : List ℕ
  pub next_id : ℕ

pub record Payload : Type 0 where
  pub sub : ℕ
  pub jti : ℕ

pub record Session : Type 0 where
  pub user_id : ℕ
  pub refresh_token : String
  pub auth_version : ℕ

pub data Reason : Type 0 where
  bad_token no_account not_recognised session_ended : Reason

pub data Refreshed : Type 0 where
  refused : Reason → Refreshed
  renewed : Session → Accounts → Refreshed

abbrev pub is_set : Option ℕ → Bool
is_set none = false
is_set (some at) = true

-- Whether a text of JavaScript is true as a test.
abbrev pub is_truthy : Option String → Bool
is_truthy none = false
is_truthy (some text) = not (str_eq text "")

abbrev pub is_refused : Refreshed → Bool
is_refused (refused why) = true
is_refused (renewed session s) = false

abbrev pub user_of : ℕ → Accounts → Option User
user_of id s = find (λ u. u.id == id) s.users

abbrev pub revoke : ℕ → RefreshToken → RefreshToken
revoke now r = record r { revoked_at = some now }

-- The update of `refresh_tokens` that ends all sessions of a user.
abbrev pub end_sessions : ℕ → ℕ → List RefreshToken → List RefreshToken
end_sessions now user_id tokens =
    update_where (λ r. (r.user_id == user_id) && not (is_set r.revoked_at)) (revoke now) tokens

abbrev pub new_version : ℕ → List User → List User
new_version user_id users =
    update_where (λ u. u.id == user_id) (λ u. record u { auth_version = u.auth_version + 1 }) users

unfoldable pub revoke_all_for_user : (now user_id : ℕ) → Accounts → Accounts
revoke_all_for_user now user_id s = record s {
  users = new_version user_id s.users;
  tokens = end_sessions now user_id s.tokens;
}

-- `pruneRefreshTokens`; 30 days are 2592000000 milliseconds.
abbrev pub is_kept : ℕ → RefreshToken → Bool
is_kept now r = not (ltb r.expires_at now || was_before r.revoked_at)
  where
    was_before : Option ℕ → Bool
    was_before none = false
    was_before (some at) = ltb (at + 2592000000) now

unfoldable pub prune_refresh_tokens : ℕ → Accounts → Accounts
prune_refresh_tokens now s = record s { tokens = filter (is_kept now) s.tokens }

module _ (digest : String → String) (verify : ℕ → String → Option Payload)
    (sign : (user_id token_id : ℕ) → String) (matches : (password hash : String) → Bool)
    (hash_password : String → String) (ttl : ℕ) where
  -- The second half of `issueSession`.
  abbrev pub issue : ℕ → User → Accounts → Session × Accounts
  issue now user s =
      let token = sign user.id s.next_id in
      (
        record { user_id = user.id; refresh_token = token; auth_version = user.auth_version },
        record s {
          tokens =
              s.tokens
              ++ record {
                id = s.next_id;
                user_id = user.id;
                token_hash = digest token;
                expires_at = now + ttl;
                revoked_at = none;
                replaced_by = none;
              }
                ∷ [];
          next_id = s.next_id + 1;
        },
      )

  abbrev pub issue_current : ℕ → User → Option User → Accounts → Option (Session × Accounts)
  issue_current now seen none s = none
  issue_current now seen (some current) s =
      if (current.auth_version == seen.auth_version)
        && str_eq current.password_hash seen.password_hash
      then some (issue now current s)
      else none

  -- `issueSession`, for the row that a sign-in read before, by a password or with Google.
  abbrev pub issue_session : ℕ → User → Accounts → Option (Session × Accounts)
  issue_session now seen s = issue_current now seen (user_of seen.id s) s

  -- `signIn`, with the row that it read before it checked the password.
  unfoldable pub sign_in :
      (now : ℕ) → (password : String) → (seen : User) → Accounts → Option (Session × Accounts)
  sign_in now password seen s =
      if matches password seen.password_hash then issue_session now seen s else none

  abbrev pub rotate : ℕ → ℕ → Session × Accounts → Option Payload → Refreshed
  rotate now old (session, s) none = refused bad_token
  rotate now old (session, s) (some fresh) = renewed session (record s {
    tokens =
        update_where (λ r. r.id == old)
          (λ r. record r { revoked_at = some now; replaced_by = some fresh.jti }) s.tokens;
  })

  abbrev pub refresh_row : ℕ → String → User → Option RefreshToken → Accounts → Refreshed
  refresh_row now token user none s = refused not_recognised
  refresh_row now token user (some row) s =
      if not (str_eq row.token_hash (digest token))
      then refused not_recognised
      else if is_set row.revoked_at || leb row.expires_at now
      then refused session_ended
      else rotate now row.id (issue now user s) (verify now (sign user.id s.next_id))

  abbrev pub refresh_user : ℕ → String → Payload → Option User → Accounts → Refreshed
  refresh_user now token p none s = refused no_account
  refresh_user now token p (some user) s =
      refresh_row now token user (find (λ r. (r.id == p.jti) && (r.user_id == p.sub)) s.tokens) s

  abbrev pub refresh_payload : ℕ → String → Option Payload → Accounts → Refreshed
  refresh_payload now token none s = refused bad_token
  refresh_payload now token (some p) s = refresh_user now token p (user_of p.sub s) s

  unfoldable pub refresh_session : (now : ℕ) → (token : String) → Accounts → Refreshed
  refresh_session now token s = refresh_payload now token (verify now token) s

  abbrev pub revoke_payload : ℕ → Option Payload → Accounts → Accounts
  revoke_payload now none s = s
  revoke_payload now (some p) s = record s {
    tokens = update_where (λ r. (r.id == p.jti) && not (is_set r.revoked_at)) (revoke now) s.tokens;
  }

  unfoldable pub revoke_refresh_token : (now : ℕ) → (token : String) → Accounts → Accounts
  revoke_refresh_token now token s = revoke_payload now (verify now token) s

  abbrev pub with_password : String → ℕ → List User → List User
  with_password password user_id users =
      update_where (λ u. u.id == user_id)
        (λ u. record u {
          password_hash = hash_password password;
          auth_version = u.auth_version + 1;
        })
        users

  abbrev pub change_found : ℕ → String → String → Option User → Accounts → Option Accounts
  change_found now current password none s = none
  change_found now current password (some user) s =
      if not (matches current user.password_hash)
      then none
      else some (record s {
        users = with_password password user.id s.users;
        tokens = end_sessions now user.id s.tokens;
      })

  unfoldable pub change_password :
      (now user_id : ℕ) → (current password : String) → Accounts → Option Accounts
  change_password now user_id current password s =
      change_found now current password (user_of user_id s) s
