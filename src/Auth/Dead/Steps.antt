-- ===== src/Auth/Dead/Steps.antt =====
-- No request of src/modules/auth brings a refresh token back to life.
use Prim.Native.String.{String}
use job_hunters_api.Common.{
  update_where, ℕ, subst, Bool, Bool-cases, inl, inr, Option, none, some, List, find, arith, All,
  All-filter, any,
}
use job_hunters_api.Auth.{
  User, RefreshToken, ResetToken, Accounts, Payload, is_truthy, user_of, revoke,
  revoke_all_for_user, is_kept, prune_refresh_tokens, revoke_payload, revoke_refresh_token,
  change_found, change_password,
}
use job_hunters_api.Auth.Recovery.{
  reset_found, is_usable, reset_password, request_found, request_password_reset,
}
use job_hunters_api.Auth.SignUp.{
  NewUser, clashes, create_account, is_subject_free, link_row, link_google,
}
use job_hunters_api.Auth.Trace.{
  Step, signs_in, signs_in_with_google, refreshes, signs_out, signs_out_everywhere, changes, resets,
  requests_reset, creates, links, prunes, Reach, here, next,
}
use job_hunters_api.Auth.Dead.{
  IsDead, IsPast, AllDead, OnAfter, OnRenewed, OnAccounts, update-IsDead, revoke-IsDead,
  sign_in-AllDead, issue_current-AllDead, refresh_session-AllDead,
}

module _ (lower : String → String) (digest : String → String) (verify : ℕ → String → Option Payload)
    (sign : (user_id token_id : ℕ) → String) (matches : (password hash : String) → Bool)
    (hash_password : String → String) (ttl : ℕ) (n : ℕ) (dead : ℕ → ℕ → Bool) where
  revoke-AllDead :
      (now : ℕ) (test : RefreshToken → Bool) (rs : List RefreshToken)
      → All (IsDead dead) rs
      → All (IsDead dead) (update_where test (revoke now) rs)
  revoke-AllDead now test rs all =
      update-IsDead dead test (revoke now) rs (revoke-IsDead dead now) all

  signs_out-AllDead :
      (now : ℕ) (p : Option Payload) (s : Accounts)
      → AllDead n dead s
      → AllDead n dead (revoke_payload digest verify sign matches hash_password ttl now p s)
  signs_out-AllDead now none s h = h
  signs_out-AllDead now (some p) s (bound, all) = (bound, revoke-AllDead now _ s.tokens all)

  change_found-AllDead :
      (now : ℕ) (current password : String) (user : Option User) (s : Accounts)
      → AllDead n dead s
      → OnAccounts
          (AllDead n dead)
          (change_found digest verify sign matches hash_password ttl now current password user s)
  change_found-AllDead now current password none s h = tt
  change_found-AllDead now current password (some user) s (bound, all) =
      elim (Bool-cases (matches current user.password_hash)) [
        | inl e ↦ rw e (bound, revoke-AllDead now _ s.tokens all)
        | inr e ↦ rw e tt
      ]

  reset_found-AllDead :
      (now : ℕ) (password : String) (request : Option ResetToken) (s : Accounts)
      → AllDead n dead s
      → OnAccounts
          (AllDead n dead)
          (reset_found digest verify sign matches hash_password ttl now password request s)
  reset_found-AllDead now password none s h = tt
  reset_found-AllDead now password (some request) s (bound, all) =
      (bound, revoke-AllDead now _ s.tokens all)

  request_found-AllDead :
      (now : ℕ) (token : String) (delivered : Bool) (user : Option User) (s : Accounts)
      → AllDead n dead s
      → AllDead n dead
          (request_found digest verify sign matches hash_password ttl now token delivered user s)
  request_found-AllDead now token delivered none s h = h
  request_found-AllDead now token delivered (some user) s (bound, all) =
      elim (Bool-cases (is_truthy user.google_subject)) [
        | inl e ↦ rw e (bound, all)
        | inr e ↦ rw e (omega arith, all)
      ]

  create_account-AllDead :
      (new : NewUser) (s : Accounts)
      → AllDead n dead s
      → OnAfter (AllDead n dead) (create_account lower new s)
  unfolding create_account
  create_account-AllDead new s (bound, all) = elim (Bool-cases (any (clashes lower new) s.users)) [
    | inl e ↦ rw e tt
    | inr e ↦ rw e (omega arith, all)
  ]

  link_row-AllDead :
      (sub : String) (row : Option User) (s : Accounts)
      → AllDead n dead s
      → OnAfter (AllDead n dead) (link_row sub row s)
  link_row-AllDead sub none s h = h
  link_row-AllDead sub (some row) s h = elim (Bool-cases (is_subject_free row.id sub s.users)) [
    | inl e ↦ rw e h
    | inr e ↦ rw e tt
  ]

  Step-AllDead :
      (s t : Accounts)
      → IsPast n dead
      → Step lower digest verify sign matches hash_password ttl s t
      → AllDead n dead s
      → AllDead n dead t
  unfolding revoke_refresh_token revoke_all_for_user change_password reset_password
      request_password_reset prune_refresh_tokens create_account link_google
  Step-AllDead _ _ past (signs_in now password seen s session after e) h =
      subst (OnAfter (AllDead n dead)) e (
        sign_in-AllDead lower digest verify sign matches hash_password ttl n dead now password seen
          s past h)
  Step-AllDead _ _ past (signs_in_with_google now seen s session after e) h =
      subst (OnAfter (AllDead n dead)) e (
        issue_current-AllDead lower digest verify sign matches hash_password ttl n dead now seen
          (user_of seen.id s) s past h)
  Step-AllDead _ _ past (refreshes now token s session after e) h =
      subst (OnRenewed (AllDead n dead)) e (
        refresh_session-AllDead lower digest verify sign matches hash_password ttl n dead now token
          s past h)
  Step-AllDead _ _ past (signs_out now token s) h = signs_out-AllDead now (verify now token) s h
  Step-AllDead _ _ past (signs_out_everywhere now user_id s) (bound, all) =
      (bound, revoke-AllDead now _ s.tokens all)
  Step-AllDead _ _ past (changes now user_id current password s after e) h =
      subst (OnAccounts (AllDead n dead)) e
        (change_found-AllDead now current password (user_of user_id s) s h)
  Step-AllDead _ _ past (resets now token password s after e) h =
      subst (OnAccounts (AllDead n dead)) e (
        reset_found-AllDead now password
          (find (is_usable digest verify sign matches hash_password ttl now token) s.resets) s h)
  Step-AllDead _ _ past (requests_reset now user_id token delivered s) h =
      request_found-AllDead now token delivered (user_of user_id s) s h
  Step-AllDead _ _ past (creates new s user after e) h =
      subst (OnAfter (AllDead n dead)) e (create_account-AllDead new s h)
  Step-AllDead _ _ past (links user_id sub s row after e) h =
      subst (OnAfter (AllDead n dead)) e (link_row-AllDead sub (user_of user_id s) s h)
  Step-AllDead _ _ past (prunes now s) (bound, all) =
      (bound, All-filter (IsDead dead) (is_kept now) s.tokens all)

  pub Reach-AllDead :
      (s t : Accounts)
      → IsPast n dead
      → AllDead n dead s
      → Reach lower digest verify sign matches hash_password ttl s t
      → AllDead n dead t
  Reach-AllDead s _ past h here = h
  Reach-AllDead s _ past h (next {s = m} {t = u} before step) =
      Step-AllDead m u past step (Reach-AllDead s m past h before)
