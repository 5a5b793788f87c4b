-- ===== src/Auth/Version.antt =====
-- The version of an account in src/modules/auth only grows.
pub mod Steps
use Prim.Native.String.{String}
use text.Mathlib.Text.{◌==◌ as str_eq}
use job_hunters_api.Common.{
  update_where, ℕ, ◌+◌, ◌≤◌, ◌<◌, ◌==◌, ◌≡◌, refl, subst, Bool, true, Bool-cases, inl, inr, not,
  ◌&&◌, ◌||◌, Option, none, some, List, [], ◌∷◌, find, ltb, leb, arith, All, All-append, any,
}
use job_hunters_api.Auth.{
  User, RefreshToken, ResetToken, Accounts, Payload, is_truthy, is_set, user_of, new_version,
  with_password, revoke_all_for_user, prune_refresh_tokens, issue, issue_current, sign_in, rotate,
  refresh_row, refresh_user, refresh_payload, refresh_session, revoke_payload, revoke_refresh_token,
  change_found, change_password,
}
use job_hunters_api.Auth.Recovery.{
  reset_found, is_usable, reset_password, request_found, request_password_reset,
}
use job_hunters_api.Auth.SignUp.{
  NewUser, clashes, create_account, is_subject_free, link_row, link_google,
}
use job_hunters_api.Auth.Trace.{
  Step, signs_in, signs_in_with_google, refreshes, signs_out, signs_out_everywhere, changes, resets,
  requests_reset, creates, links, prunes, Reach, here, next,
}
use job_hunters_api.Auth.Dead.{OnAfter, OnRenewed, OnAccounts}

-- The account has had a new version since `v`, or at least that version.
abbrev pub IsNewer : ℕ → ℕ → User → Type 0
IsNewer v uid u = (not (u.id == uid) || ltb v u.auth_version) ≡ true

abbrev pub IsSince : ℕ → ℕ → User → Type 0
IsSince v uid u = (not (u.id == uid) || leb v u.auth_version) ≡ true

pub update-IsNewer :
    (v uid : ℕ) (test : User → Bool) (f : User → User) (us : List User)
    → ((u : User) → IsNewer v uid u → IsNewer v uid (f u))
    → All (IsNewer v uid) us
    → All (IsNewer v uid) (update_where test f us)
update-IsNewer v uid test f [] keep h = tt
update-IsNewer v uid test f (u ∷ us) keep (h, k) = (
  elim (Bool-cases (test u)) [ inl e ↦ rw e (keep u h) | inr e ↦ rw e h ],
  update-IsNewer v uid test f us keep k,
)

pub new_version-IsNewer :
    (v uid : ℕ) (us : List User) → All (IsSince v uid) us → All (IsNewer v uid) (new_version uid us)
new_version-IsNewer v uid [] h = tt
new_version-IsNewer v uid (u ∷ us) (h, k) = (ground arith, new_version-IsNewer v uid us k)

-- What a sign-in and a refresh leave: the same accounts, and only later ids.
abbrev pub KeepsUsers : Accounts → Accounts → Type 0
KeepsUsers s after =
    (after.users ≡ s.users)
    × (s.next_id ≤ after.next_id)
    × (after.kits ≡ s.kits)
    × (after.specs ≡ s.specs)

abbrev pub AllNewer : ℕ → ℕ → Accounts → Type 0
AllNewer v uid s = (uid < s.next_id) × All (IsNewer v uid) s.users

pub KeepsUsers-AllNewer :
    (v uid : ℕ) (s after : Accounts) → KeepsUsers s after → AllNewer v uid s → AllNewer v uid after
KeepsUsers-AllNewer v uid s after (same, later, kits, specs) (old, h) = (omega arith, rw same h)

pub bump-AllNewer :
    (v uid other : ℕ) (us : List User)
    → All (IsNewer v uid) us
    → All (IsNewer v uid) (new_version other us)
bump-AllNewer v uid other us h =
    update-IsNewer v uid (λ u. u.id == other) (λ u. record u { auth_version = u.auth_version + 1 })
      us (λ u k. ground arith) h

module _ (lower : String → String) (digest : String → String) (verify : ℕ → String → Option Payload)
    (sign : (user_id token_id : ℕ) → String) (matches : (password hash : String) → Bool)
    (hash_password : String → String) (ttl : ℕ) where
  pub with_password-IsNewer :
      (v uid : ℕ) (password : String) (us : List User)
      → All (IsSince v uid) us
      → All
          (IsNewer v uid)
          (with_password digest verify sign matches hash_password ttl password uid us)
  with_password-IsNewer v uid password [] h = tt
  with_password-IsNewer v uid password (u ∷ us) (h, k) =
      (ground arith, with_password-IsNewer v uid password us k)

  pub password-AllNewer :
      (v uid other : ℕ) (password : String) (us : List User)
      → All (IsNewer v uid) us
      → All
          (IsNewer v uid)
          (with_password digest verify sign matches hash_password ttl password other us)
  password-AllNewer v uid other password us h =
      update-IsNewer v uid (λ u. u.id == other)
        (λ u. record u {
          password_hash = hash_password password;
          auth_version = u.auth_version + 1;
        })
        us (λ u k. ground arith) h

  -- Neither a sign-in nor a refresh writes the accounts.
  pub issue_current-users :
      (now : ℕ) (seen : User) (u : Option User) (s : Accounts)
      → OnAfter
          (KeepsUsers s)
          (issue_current digest verify sign matches hash_password ttl now seen u s)
  issue_current-users now seen none s = tt
  issue_current-users now seen (some u) s =
      elim (Bool-cases
        ((u.auth_version == seen.auth_version) && str_eq u.password_hash seen.password_hash)) [
          | inl e ↦ rw e (refl, omega arith, refl, refl)
          | inr e ↦ rw e tt
        ]

  pub sign_in-users :
      (now : ℕ) (password : String) (seen : User) (s : Accounts)
      → OnAfter
          (KeepsUsers s)
          (sign_in digest verify sign matches hash_password ttl now password seen s)
  unfolding sign_in
  sign_in-users now password seen s = elim (Bool-cases (matches password seen.password_hash)) [
    | inl e ↦ rw e (issue_current-users now seen (user_of seen.id s) s)
    | inr e ↦ rw e tt
  ]

  pub refresh_session-users :
      (now : ℕ) (token : String) (s : Accounts)
      → OnRenewed
          (KeepsUsers s)
          (refresh_session digest verify sign matches hash_password ttl now token s)
  unfolding refresh_session
  refresh_session-users now token s = payload (verify now token)
    where
      turned :
          (old : ℕ) (u : User) (fresh : Option Payload)
          → OnRenewed (KeepsUsers s) (
              rotate digest verify sign matches hash_password ttl now old
                (issue digest verify sign matches hash_password ttl now u s)
                fresh)
      turned old u none = tt
      turned old u (some fresh) = (refl, omega arith, refl, refl)

      row :
          (u : User) (r : Option RefreshToken)
          → OnRenewed
              (KeepsUsers s)
              (refresh_row digest verify sign matches hash_password ttl now token u r s)
      row u none = tt
      row u (some r) = elim (Bool-cases (str_eq r.token_hash (digest token))) [
        | inr other ↦ rw other tt
        | inl same ↦ elim (Bool-cases (is_set r.revoked_at || leb r.expires_at now)) [
          | inl over ↦ rw (same, over) tt
          | inr live ↦ rw (same, live) (turned r.id u (verify now (sign u.id s.next_id)))
        ]
      ]

      user :
          (p : Payload) (u : Option User)
          → OnRenewed
              (KeepsUsers s)
              (refresh_user digest verify sign matches hash_password ttl now token p u s)
      user p none = tt
      user p (some u) = row u (find (λ r. (r.id == p.jti) && (r.user_id == p.sub)) s.tokens)

      payload :
          (p : Option Payload)
          → OnRenewed
              (KeepsUsers s)
              (refresh_payload digest verify sign matches hash_password ttl now token p s)
      payload none = tt
      payload (some p) = user p (user_of p.sub s)
