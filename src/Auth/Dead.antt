-- ===== src/Auth/Dead.antt =====
-- Refresh tokens that are dead stay dead, whatever the requests of src/modules/auth do.
pub mod Steps
use Prim.Native.String.{String}
use text.Mathlib.Text.{◌==◌ as str_eq}
use job_hunters_api.Common.{
  update_where, ℕ, ◌≤◌, ◌==◌, ◌≡◌, subst, Bool, true, false, Bool-cases, inl, inr, not, ◌&&◌, ◌||◌,
  Option, none, some, List, [], ◌∷◌, find, leb, arith, All, All-append, All-filter, any,
}
use job_hunters_api.Auth.{
  User, RefreshToken, ResetToken, Accounts, Payload, Session, Refreshed, refused, renewed,
  is_truthy, is_set, user_of, revoke, revoke_all_for_user, is_kept, prune_refresh_tokens, issue,
  issue_current, sign_in, rotate, refresh_row, refresh_user, refresh_payload, refresh_session,
  revoke_payload, revoke_refresh_token, change_found, change_password,
}
use job_hunters_api.Auth.Recovery.{
  reset_found, is_usable, reset_password, request_found, request_password_reset,
}
use job_hunters_api.Auth.SignUp.{
  NewUser, clashes, create_account, is_subject_free, link_row, link_google,
}
use job_hunters_api.Auth.Trace.{
  Step, signs_in, signs_in_with_google, refreshes, signs_out, signs_out_everywhere, changes, resets,
  requests_reset, creates, links, prunes, Reach, here, next,
}

-- The tokens that a test of the id and the user picks are revoked.
abbrev pub IsDead : (ℕ → ℕ → Bool) → RefreshToken → Type 0
IsDead dead r = (not (dead r.id r.user_id) || is_set r.revoked_at) ≡ true

pub update-IsDead :
    (dead : ℕ → ℕ → Bool) (test : RefreshToken → Bool) (f : RefreshToken → RefreshToken)
    (rs : List RefreshToken)
    → ((r : RefreshToken) → IsDead dead r → IsDead dead (f r))
    → All (IsDead dead) rs
    → All (IsDead dead) (update_where test f rs)
update-IsDead dead test f [] keep h = tt
update-IsDead dead test f (r ∷ rs) keep (h, k) = (
  elim (Bool-cases (test r)) [ inl e ↦ rw e (keep r h) | inr e ↦ rw e h ],
  update-IsDead dead test f rs keep k,
)

pub revoke-IsDead :
    (dead : ℕ → ℕ → Bool) (now : ℕ) (r : RefreshToken) → IsDead dead r → IsDead dead (revoke now r)
revoke-IsDead dead now r h = ground arith

-- A test that picks ids from before `n` only, and a store whose fresh ids are later.
abbrev pub IsPast : ℕ → (ℕ → ℕ → Bool) → Type 0
IsPast n dead = (id user_id : ℕ) → n ≤ id → dead id user_id ≡ false

abbrev pub AllDead : ℕ → (ℕ → ℕ → Bool) → Accounts → Type 0
AllDead n dead s = (n ≤ s.next_id) × All (IsDead dead) s.tokens

abbrev pub OnAfter : {A : Type 0} → (Accounts → Type 0) → Option (A × Accounts) → Type 0
OnAfter P none = Unit
OnAfter P (some (given, s)) = P s

abbrev pub OnRenewed : (Accounts → Type 0) → Refreshed → Type 0
OnRenewed P (refused why) = Unit
OnRenewed P (renewed session s) = P s

abbrev pub OnAccounts : (Accounts → Type 0) → Option Accounts → Type 0
OnAccounts P none = Unit
OnAccounts P (some s) = P s

module _ (lower : String → String) (digest : String → String) (verify : ℕ → String → Option Payload)
    (sign : (user_id token_id : ℕ) → String) (matches : (password hash : String) → Bool)
    (hash_password : String → String) (ttl : ℕ) (n : ℕ) (dead : ℕ → ℕ → Bool) where
  issue-AllDead :
      (now : ℕ) (user : User) (s : Accounts)
      → IsPast n dead
      → AllDead n dead s
      → AllDead n dead (issue digest verify sign matches hash_password ttl now user s).1
  issue-AllDead now user s past (bound, all) = (
    omega arith,
    All-append (IsDead dead) s.tokens _ all
        ((let fresh = past s.next_id user.id bound in ground arith), tt),
  )

  pub issue_current-AllDead :
      (now : ℕ) (seen : User) (current : Option User) (s : Accounts)
      → IsPast n dead
      → AllDead n dead s
      → OnAfter
          (AllDead n dead)
          (issue_current digest verify sign matches hash_password ttl now seen current s)
  issue_current-AllDead now seen none s past h = tt
  issue_current-AllDead now seen (some current) s past h =
      elim (Bool-cases (
        (current.auth_version == seen.auth_version)
        && str_eq current.password_hash seen.password_hash)) [
          | inl e ↦ rw e (issue-AllDead now current s past h)
          | inr e ↦ rw e tt
        ]

  pub sign_in-AllDead :
      (now : ℕ) (password : String) (seen : User) (s : Accounts)
      → IsPast n dead
      → AllDead n dead s
      → OnAfter
          (AllDead n dead)
          (sign_in digest verify sign matches hash_password ttl now password seen s)
  unfolding sign_in
  sign_in-AllDead now password seen s past h =
      elim (Bool-cases (matches password seen.password_hash)) [
        | inl e ↦ rw e (issue_current-AllDead now seen (user_of seen.id s) s past h)
        | inr e ↦ rw e tt
      ]

  rotate-AllDead :
      (now old : ℕ) (issued : Session × Accounts) (fresh : Option Payload)
      → AllDead n dead issued.1
      → OnRenewed
          (AllDead n dead)
          (rotate digest verify sign matches hash_password ttl now old issued fresh)
  rotate-AllDead now old (session, s) none h = tt
  rotate-AllDead now old (session, s) (some fresh) (bound, all) = (
    bound,
    update-IsDead dead (λ r. r.id == old)
        (λ r. record r { revoked_at = some now; replaced_by = some fresh.jti }) s.tokens
        (λ r k. ground arith) all,
  )

  refresh_row-AllDead :
      (now : ℕ) (token : String) (user : User) (row : Option RefreshToken) (s : Accounts)
      → IsPast n dead
      → AllDead n dead s
      → OnRenewed
          (AllDead n dead)
          (refresh_row digest verify sign matches hash_password ttl now token user row s)
  refresh_row-AllDead now token user none s past h = tt
  refresh_row-AllDead now token user (some row) s past h =
      elim (Bool-cases (str_eq row.token_hash (digest token))) [
        | inr other ↦ rw other tt
        | inl same ↦ elim (Bool-cases (is_set row.revoked_at || leb row.expires_at now)) [
          | inl over ↦ rw (same, over) tt
          | inr live ↦
              rw (same, live)
                (rotate-AllDead now row.id
                  (issue digest verify sign matches hash_password ttl now user s)
                  (verify now (sign user.id s.next_id)) (issue-AllDead now user s past h))
        ]
      ]

  pub refresh_session-AllDead :
      (now : ℕ) (token : String) (s : Accounts)
      → IsPast n dead
      → AllDead n dead s
      → OnRenewed
          (AllDead n dead)
          (refresh_session digest verify sign matches hash_password ttl now token s)
  unfolding refresh_session
  refresh_session-AllDead now token s past h = payload (verify now token)
    where
      user :
          (p : Payload) (u : Option User)
          → OnRenewed
              (AllDead n dead)
              (refresh_user digest verify sign matches hash_password ttl now token p u s)
      user p none = tt
      user p (some u) = refresh_row-AllDead now token u _ s past h

      payload :
          (p : Option Payload)
          → OnRenewed
              (AllDead n dead)
              (refresh_payload digest verify sign matches hash_password ttl now token p s)
      payload none = tt
      payload (some p) = user p (user_of p.sub s)
