-- ===== src/Auth/Version/Steps.antt =====
-- No request of src/modules/auth takes the version of an account back.
use Prim.Native.String.{String}
use job_hunters_api.Common.{
  ℕ, ◌==◌, subst, Bool, Bool-cases, inl, inr, Option, none, some, find, arith, All-append, any,
}
use job_hunters_api.Auth.{
  User, ResetToken, Accounts, Payload, is_truthy, user_of, revoke_all_for_user,
  prune_refresh_tokens, revoke_payload, revoke_refresh_token, change_found, change_password,
}
use job_hunters_api.Auth.Recovery.{
  reset_found, is_usable, reset_password, request_found, request_password_reset,
}
use job_hunters_api.Auth.SignUp.{
  NewUser, clashes, create_account, is_subject_free, link_row, link_google,
}
use job_hunters_api.Auth.Trace.{
  Step, signs_in, signs_in_with_google, refreshes, signs_out, signs_out_everywhere, changes, resets,
  requests_reset, creates, links, prunes, Reach, here, next,
}
use job_hunters_api.Auth.Dead.{OnAfter, OnRenewed, OnAccounts}
use job_hunters_api.Auth.Version.{
  IsNewer, KeepsUsers, update-IsNewer, AllNewer, KeepsUsers-AllNewer, bump-AllNewer,
  password-AllNewer, issue_current-users, sign_in-users, refresh_session-users,
}

module _ (lower : String → String) (digest : String → String) (verify : ℕ → String → Option Payload)
    (sign : (user_id token_id : ℕ) → String) (matches : (password hash : String) → Bool)
    (hash_password : String → String) (ttl : ℕ) where
  change-AllNewer :
      (v uid now : ℕ) (current password : String) (user : Option User) (s : Accounts)
      → AllNewer v uid s
      → OnAccounts
          (AllNewer v uid)
          (change_found digest verify sign matches hash_password ttl now current password user s)
  change-AllNewer v uid now current password none s h = tt
  change-AllNewer v uid now current password (some user) s (old, h) =
      elim (Bool-cases (matches current user.password_hash)) [
        | inl e ↦ rw e (
          old,
          password-AllNewer lower digest verify sign matches hash_password ttl v uid user.id
              password s.users h,
        )
        | inr e ↦ rw e tt
      ]

  reset-AllNewer :
      (v uid now : ℕ) (password : String) (request : Option ResetToken) (s : Accounts)
      → AllNewer v uid s
      → OnAccounts
          (AllNewer v uid)
          (reset_found digest verify sign matches hash_password ttl now password request s)
  reset-AllNewer v uid now password none s h = tt
  reset-AllNewer v uid now password (some request) s (old, h) = (
    old,
    password-AllNewer lower digest verify sign matches hash_password ttl v uid request.user_id
        password s.users h,
  )

  request-AllNewer :
      (v uid now : ℕ) (token : String) (delivered : Bool) (user : Option User) (s : Accounts)
      → AllNewer v uid s
      → AllNewer v uid
          (request_found digest verify sign matches hash_password ttl now token delivered user s)
  request-AllNewer v uid now token delivered none s h = h
  request-AllNewer v uid now token delivered (some user) s (old, h) =
      elim (Bool-cases (is_truthy user.google_subject)) [
        | inl e ↦ rw e (old, h)
        | inr e ↦ rw e (omega arith, h)
      ]

  sign_out-AllNewer :
      (v uid now : ℕ) (p : Option Payload) (s : Accounts)
      → AllNewer v uid s
      → AllNewer v uid (revoke_payload digest verify sign matches hash_password ttl now p s)
  sign_out-AllNewer v uid now none s h = h
  sign_out-AllNewer v uid now (some p) s h = h

  -- A new account has an id of its own, and a link to Google keeps the version.
  create_account-AllNewer :
      (v uid : ℕ) (new : NewUser) (s : Accounts)
      → AllNewer v uid s
      → OnAfter (AllNewer v uid) (create_account lower new s)
  unfolding create_account
  create_account-AllNewer v uid new s (old, h) =
      elim (Bool-cases (any (clashes lower new) s.users)) [
        | inl e ↦ rw e tt
        | inr e ↦ rw e (omega arith, All-append (IsNewer v uid) s.users _ h (ground arith, tt))
      ]

  link_row-AllNewer :
      (v uid : ℕ) (sub : String) (row : Option User) (s : Accounts)
      → AllNewer v uid s
      → OnAfter (AllNewer v uid) (link_row sub row s)
  link_row-AllNewer v uid sub none s h = h
  link_row-AllNewer v uid sub (some row) s (old, h) =
      elim (Bool-cases (is_subject_free row.id sub s.users)) [
        | inl e ↦ rw e (
          old,
          update-IsNewer v uid (λ u. u.id == row.id) (λ u. record u { google_subject = some sub })
              s.users (λ u k. k) h,
        )
        | inr e ↦ rw e tt
      ]

  Step-AllNewer :
      (v uid : ℕ) (s t : Accounts)
      → Step lower digest verify sign matches hash_password ttl s t
      → AllNewer v uid s
      → AllNewer v uid t
  unfolding revoke_refresh_token revoke_all_for_user change_password reset_password
      request_password_reset prune_refresh_tokens create_account link_google
  Step-AllNewer v uid _ _ (signs_in now password seen s session after e) h =
      KeepsUsers-AllNewer v uid s after
        (subst (OnAfter (KeepsUsers s)) e
          (sign_in-users lower digest verify sign matches hash_password ttl now password seen s))
        h
  Step-AllNewer v uid _ _ (signs_in_with_google now seen s session after e) h =
      KeepsUsers-AllNewer v uid s after
        (subst (OnAfter (KeepsUsers s)) e (
          issue_current-users lower digest verify sign matches hash_password ttl now seen
            (user_of seen.id s) s))
        h
  Step-AllNewer v uid _ _ (refreshes now token s session after e) h =
      KeepsUsers-AllNewer v uid s after
        (subst (OnRenewed (KeepsUsers s)) e
          (refresh_session-users lower digest verify sign matches hash_password ttl now token s))
        h
  Step-AllNewer v uid _ _ (signs_out now token s) h =
      sign_out-AllNewer v uid now (verify now token) s h
  Step-AllNewer v uid _ _ (signs_out_everywhere now user_id s) (old, h) =
      (old, bump-AllNewer v uid user_id s.users h)
  Step-AllNewer v uid _ _ (changes now user_id current password s after e) h =
      subst (OnAccounts (AllNewer v uid)) e
        (change-AllNewer v uid now current password (user_of user_id s) s h)
  Step-AllNewer v uid _ _ (resets now token password s after e) h =
      subst (OnAccounts (AllNewer v uid)) e (
        reset-AllNewer v uid now password
          (find (is_usable digest verify sign matches hash_password ttl now token) s.resets) s h)
  Step-AllNewer v uid _ _ (requests_reset now user_id token delivered s) h =
      request-AllNewer v uid now token delivered (user_of user_id s) s h
  Step-AllNewer v uid _ _ (creates new s user after e) h =
      subst (OnAfter (AllNewer v uid)) e (create_account-AllNewer v uid new s h)
  Step-AllNewer v uid _ _ (links user_id sub s row after e) h =
      subst (OnAfter (AllNewer v uid)) e (link_row-AllNewer v uid sub (user_of user_id s) s h)
  Step-AllNewer v uid _ _ (prunes now s) h = h

  pub Reach-AllNewer :
      (v uid : ℕ) (s t : Accounts)
      → AllNewer v uid s
      → Reach lower digest verify sign matches hash_password ttl s t
      → AllNewer v uid t
  Reach-AllNewer v uid s _ h here = h
  Reach-AllNewer v uid s _ h (next {s = m} {t = u} before step) =
      Step-AllNewer v uid m u step (Reach-AllNewer v uid s m h before)
