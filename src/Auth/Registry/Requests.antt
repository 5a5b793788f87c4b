-- ===== src/Auth/Registry/Requests.antt =====
-- The requests of src/modules/auth leave a registry, whatever their order.
use Prim.Native.String.{String}
use job_hunters_api.Common.{
  update_where, ℕ, ◌≤◌, ◌+◌, ◌==◌, ◌≡◌, refl, subst, Bool, Bool-cases, inl, inr, Option, none, some,
  any, find, arith,
}
use job_hunters_api.Auth.{
  User, ResetToken, Accounts, Payload, is_truthy, user_of, with_password, revoke_all_for_user,
  prune_refresh_tokens, revoke_payload, revoke_refresh_token, change_found, change_password,
}
use job_hunters_api.Auth.Recovery.{
  reset_found, is_usable, reset_password, request_found, request_password_reset,
}
use job_hunters_api.Auth.SignUp.{
  NewUser, clashes, create_account, is_subject_free, link_row, link_google,
}
use job_hunters_api.Auth.Trace.{
  Step, signs_in, signs_in_with_google, refreshes, signs_out, signs_out_everywhere, changes, resets,
  requests_reset, creates, links, prunes, Reach, here, next,
}
use job_hunters_api.Auth.Dead.{OnAfter, OnRenewed, OnAccounts}
use job_hunters_api.Auth.Version.{
  KeepsUsers, issue_current-users, sign_in-users, refresh_session-users,
}
use job_hunters_api.Auth.Registry.{key, Keeps, update-keys, IsRegistry, Keeps-IsRegistry}
use job_hunters_api.Auth.Registry.Writes.{with_user-IsRegistry, with_subject-IsRegistry}

users-Keeps : (s t : Accounts) → KeepsUsers s t → Keeps s t
users-Keeps s t (users, later, kits, specs) = record {
  later = later;
  kits = kits;
  specs = specs;
  keys = rw users refl;
}

-- An update of the accounts' other columns.
update-Keeps :
    (s t : Accounts) (test : User → Bool) (f : User → User)
    → s.next_id ≤ t.next_id
    → t.kits ≡ s.kits
    → t.specs ≡ s.specs
    → ((u : User) → key (f u) ≡ key u)
    → t.users ≡ update_where test f s.users
    → Keeps s t
update-Keeps s t test f later kits specs same e = record {
  later = later;
  kits = kits;
  specs = specs;
  keys = rw e (update-keys test f s.users same);
}

module _ (lower : String → String) (digest : String → String) (verify : ℕ → String → Option Payload)
    (sign : (user_id token_id : ℕ) → String) (matches : (password hash : String) → Bool)
    (hash_password : String → String) (ttl : ℕ) where
  after_password : String → User → User
  after_password password u = record u {
    password_hash = hash_password password;
    auth_version = u.auth_version + 1;
  }

  password-Keeps :
      (s t : Accounts) (password : String) (user_id : ℕ)
      → s.next_id ≤ t.next_id
      → t.kits ≡ s.kits
      → t.specs ≡ s.specs
      → t.users
        ≡ with_password digest verify sign matches hash_password ttl password user_id s.users
      → Keeps s t
  unfolding after_password
  password-Keeps s t password user_id later kits specs e =
      update-Keeps s t (λ u. u.id == user_id) (after_password password) later kits specs (λ u. refl)
        e

  change-Keeps :
      (now : ℕ) (current password : String) (user : Option User) (s : Accounts)
      → OnAccounts
          (Keeps s)
          (change_found digest verify sign matches hash_password ttl now current password user s)
  change-Keeps now current password none s = tt
  change-Keeps now current password (some user) s =
      elim (Bool-cases (matches current user.password_hash)) [
        | inl e ↦ rw e (password-Keeps s _ password user.id (omega arith) refl refl refl)
        | inr e ↦ rw e tt
      ]

  reset-Keeps :
      (now : ℕ) (password : String) (request : Option ResetToken) (s : Accounts)
      → OnAccounts
          (Keeps s)
          (reset_found digest verify sign matches hash_password ttl now password request s)
  reset-Keeps now password none s = tt
  reset-Keeps now password (some request) s =
      password-Keeps s _ password request.user_id (omega arith) refl refl refl

  rows-Keeps :
      (s t : Accounts)
      → t.users ≡ s.users
      → s.next_id ≤ t.next_id
      → t.kits ≡ s.kits
      → t.specs ≡ s.specs
      → Keeps s t
  rows-Keeps s t users later kits specs = users-Keeps s t (users, later, kits, specs)

  request-Keeps :
      (now : ℕ) (token : String) (delivered : Bool) (user : Option User) (s : Accounts)
      → Keeps s
          (request_found digest verify sign matches hash_password ttl now token delivered user s)
  request-Keeps now token delivered none s = rows-Keeps s s refl (omega arith) refl refl
  request-Keeps now token delivered (some user) s =
      elim (Bool-cases (is_truthy user.google_subject)) [
        | inl e ↦ rw e (rows-Keeps s s refl (omega arith) refl refl)
        | inr e ↦ rw e (rows-Keeps s _ refl (omega arith) refl refl)
      ]

  sign_out-Keeps :
      (now : ℕ) (p : Option Payload) (s : Accounts)
      → Keeps s (revoke_payload digest verify sign matches hash_password ttl now p s)
  sign_out-Keeps now none s = rows-Keeps s s refl (omega arith) refl refl
  sign_out-Keeps now (some p) s = rows-Keeps s _ refl (omega arith) refl refl

  create-IsRegistry :
      (new : NewUser) (s : Accounts)
      → IsRegistry lower s
      → OnAfter (IsRegistry lower) (create_account lower new s)
  unfolding create_account
  create-IsRegistry new s h = elim (Bool-cases (any (clashes lower new) s.users)) [
    | inl e ↦ rw e tt
    | inr e ↦ rw e (with_user-IsRegistry lower new s e h)
  ]

  link-IsRegistry :
      (sub : String) (row : Option User) (s : Accounts)
      → IsRegistry lower s
      → OnAfter (IsRegistry lower) (link_row sub row s)
  link-IsRegistry sub none s h = h
  link-IsRegistry sub (some row) s h = elim (Bool-cases (is_subject_free row.id sub s.users)) [
    | inl e ↦ rw e (with_subject-IsRegistry lower row.id sub s e h)
    | inr e ↦ rw e tt
  ]

  Step-IsRegistry :
      (s t : Accounts)
      → Step lower digest verify sign matches hash_password ttl s t
      → IsRegistry lower s
      → IsRegistry lower t
  unfolding revoke_refresh_token revoke_all_for_user change_password reset_password
      request_password_reset prune_refresh_tokens link_google
  Step-IsRegistry _ _ (signs_in now password seen s session after e) h =
      Keeps-IsRegistry lower s after
        (users-Keeps s after (
          subst (OnAfter (KeepsUsers s)) e
            (sign_in-users lower digest verify sign matches hash_password ttl now password seen s)))
        h
  Step-IsRegistry _ _ (signs_in_with_google now seen s session after e) h =
      Keeps-IsRegistry lower s after
        (users-Keeps s after (
          subst (OnAfter (KeepsUsers s)) e (
            issue_current-users lower digest verify sign matches hash_password ttl now seen
              (user_of seen.id s) s)))
        h
  Step-IsRegistry _ _ (refreshes now token s session after e) h =
      Keeps-IsRegistry lower s after
        (users-Keeps s after (
          subst (OnRenewed (KeepsUsers s)) e
            (refresh_session-users lower digest verify sign matches hash_password ttl now token s)))
        h
  Step-IsRegistry _ _ (signs_out now token s) h =
      Keeps-IsRegistry lower s _ (sign_out-Keeps now (verify now token) s) h
  Step-IsRegistry _ _ (signs_out_everywhere now user_id s) h =
      Keeps-IsRegistry lower s _
        (update-Keeps s _ (λ u. u.id == user_id)
          (λ u. record u { auth_version = u.auth_version + 1 }) (omega arith) refl refl (λ u. refl)
          refl)
        h
  Step-IsRegistry _ _ (changes now user_id current password s after e) h =
      Keeps-IsRegistry lower s after
        (subst (OnAccounts (Keeps s)) e (change-Keeps now current password (user_of user_id s) s)) h
  Step-IsRegistry _ _ (resets now token password s after e) h =
      Keeps-IsRegistry lower s after
        (subst (OnAccounts (Keeps s)) e (
          reset-Keeps now password
            (find (is_usable digest verify sign matches hash_password ttl now token) s.resets) s))
        h
  Step-IsRegistry _ _ (requests_reset now user_id token delivered s) h =
      Keeps-IsRegistry lower s _ (request-Keeps now token delivered (user_of user_id s) s) h
  Step-IsRegistry _ _ (creates new s user after e) h =
      subst (OnAfter (IsRegistry lower)) e (create-IsRegistry new s h)
  Step-IsRegistry _ _ (links user_id sub s row after e) h =
      subst (OnAfter (IsRegistry lower)) e (link-IsRegistry sub (user_of user_id s) s h)
  Step-IsRegistry _ _ (prunes now s) h =
      Keeps-IsRegistry lower s _ (rows-Keeps s _ refl (omega arith) refl refl) h

  -- Whatever requests come, in any order and at any time, no two accounts have one id, one e-mail up to
  -- case or one Google subject, and every account has a kit and a hunt spec; where this was so before.
  pub Reach-IsRegistry :
      (s t : Accounts)
      → IsRegistry lower s
      → Reach lower digest verify sign matches hash_password ttl s t
      → IsRegistry lower t
  Reach-IsRegistry s _ h here = h
  Reach-IsRegistry s _ h (next {s = m} {t = u} before step) =
      Step-IsRegistry m u step (Reach-IsRegistry s m h before)
