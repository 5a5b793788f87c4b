-- ===== src/Auth/Recovery.antt =====
-- The reset of a forgotten password, of src/modules/auth/recovery.ts. `matches` and `hash_password`
-- are of src/lib/password.ts; the mail is left out but for whether it was delivered.
use Prim.Native.String.{String}
use text.Mathlib.Text.{◌==◌ as str_eq}
use job_hunters_api.Common.{
  update_where, ℕ, ◌+◌, ◌==◌, Bool, not, ◌&&◌, Option, none, some, [], ◌∷◌, ◌++◌, find, ltb,
  if◌then◌else◌,
}
use job_hunters_api.Auth.{
  User, ResetToken, Accounts, Payload, is_set, is_truthy, end_sessions, user_of, with_password,
}

module _ (digest : String → String) (verify : ℕ → String → Option Payload)
    (sign : (user_id token_id : ℕ) → String) (matches : (password hash : String) → Bool)
    (hash_password : String → String) (ttl : ℕ) where
  abbrev pub is_usable : ℕ → String → ResetToken → Bool
  is_usable now token r =
      str_eq r.token_hash (digest token) && not (is_set r.consumed_at) && ltb now r.expires_at

  abbrev pub reset_found : ℕ → String → Option ResetToken → Accounts → Option Accounts
  reset_found now password none s = none
  reset_found now password (some request) s = some (record s {
    users =
        with_password digest verify sign matches hash_password ttl password request.user_id s.users;
    tokens = end_sessions now request.user_id s.tokens;
    resets =
        update_where (λ r. (r.user_id == request.user_id) && not (is_set r.consumed_at))
          (λ r. record r { consumed_at = some now }) s.resets;
  })

  -- `resetPassword`; the update that returns the request also consumes it, as the last one does.
  unfoldable pub reset_password : (now : ℕ) → (token password : String) → Accounts → Option Accounts
  reset_password now token password s =
      reset_found now password (find (is_usable now token) s.resets) s

  abbrev pub request_found : ℕ → String → Bool → Option User → Accounts → Accounts
  request_found now token delivered none s = s
  request_found now token delivered (some user) s =
      if is_truthy user.google_subject then s else record s {
        resets =
            s.resets
            ++ record {
              id = s.next_id;
              user_id = user.id;
              token_hash = digest token;
              expires_at = now + 1800000;
              consumed_at = if delivered then none else some now;
            }
              ∷ [];
        next_id = s.next_id + 1;
      }

  -- `requestPasswordReset`, of the user that the address finds; `delivered` says that the mail was sent.
  unfoldable pub request_password_reset :
      (now user_id : ℕ) → (token : String) → (delivered : Bool) → Accounts → Accounts
  request_password_reset now user_id token delivered s =
      request_found now token delivered (user_of user_id s) s
