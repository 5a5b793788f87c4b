-- ===== src/Auth/Trace.antt =====
-- The requests of src/modules/auth as steps in any order and at any time.
use Prim.Native.String.{String}
use job_hunters_api.Common.{ℕ, ◌≡◌, Bool, Option, some}
use job_hunters_api.Auth.{
  User, Accounts, Payload, Session, renewed, revoke_all_for_user, prune_refresh_tokens, sign_in,
  issue_session, refresh_session, revoke_refresh_token, change_password,
}
use job_hunters_api.Auth.Recovery.{reset_password, request_password_reset}
use job_hunters_api.Auth.SignUp.{NewUser, create_account, link_google}

module _ (lower : String → String) (digest : String → String) (verify : ℕ → String → Option Payload)
    (sign : (user_id token_id : ℕ) → String) (matches : (password hash : String) → Bool)
    (hash_password : String → String) (ttl : ℕ) where
  pub data Step : Accounts → Accounts → Type 0 where
    signs_in :
        (now : ℕ) (password : String) (seen : User) (s : Accounts) (session : Session)
        (after : Accounts)
        → sign_in digest verify sign matches hash_password ttl now password seen s
          ≡ some (session, after)
        → Step s after
    signs_in_with_google :
        (now : ℕ) (seen : User) (s : Accounts) (session : Session) (after : Accounts)
        → issue_session digest verify sign matches hash_password ttl now seen s
          ≡ some (session, after)
        → Step s after
    refreshes :
        (now : ℕ) (token : String) (s : Accounts) (session : Session) (after : Accounts)
        → refresh_session digest verify sign matches hash_password ttl now token s
          ≡ renewed session after
        → Step s after
    signs_out :
        (now : ℕ) (token : String) (s : Accounts)
        → Step s (revoke_refresh_token digest verify sign matches hash_password ttl now token s)
    signs_out_everywhere :
        (now user_id : ℕ) (s : Accounts) → Step s (revoke_all_for_user now user_id s)
    changes :
        (now user_id : ℕ) (current password : String) (s after : Accounts)
        → change_password digest verify sign matches hash_password ttl now user_id current password
            s
          ≡ some after
        → Step s after
    resets :
        (now : ℕ) (token password : String) (s after : Accounts)
        → reset_password digest verify sign matches hash_password ttl now token password s
          ≡ some after
        → Step s after
    requests_reset :
        (now user_id : ℕ) (token : String) (delivered : Bool) (s : Accounts)
        → Step s (
            request_password_reset digest verify sign matches hash_password ttl now user_id token
              delivered s)
    creates :
        (new : NewUser) (s : Accounts) (user : User) (after : Accounts)
        → create_account lower new s ≡ some (user, after)
        → Step s after
    links :
        (user_id : ℕ) (sub : String) (s : Accounts) (row : Option User) (after : Accounts)
        → link_google user_id sub s ≡ some (row, after)
        → Step s after
    prunes : (now : ℕ) (s : Accounts) → Step s (prune_refresh_tokens now s)

  pub data Reach (from : Accounts) : Accounts → Type 0 where
    here : Reach from from
    next : {s t : Accounts} → Reach from s → Step s t → Reach from t
