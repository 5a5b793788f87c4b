-- ===== src/Auth/Ended.antt =====
-- A new password or a sign-out everywhere in src/modules/auth ends every session of the account.
use Prim.Native.String.{String}
use job_hunters_api.Common.{
  ℕ, ◌<◌, ◌==◌, ◌≡◌, refl, sym, subst, ◌∙◌, Bool, true, false, Bool-cases, inl, inr, ◌&&◌, Option,
  none, some, List, [], ◌∷◌, find, ltb, arith, All,
}
use job_hunters_api.Auth.{
  User, RefreshToken, ResetToken, Accounts, Payload, is_refused, user_of, end_sessions,
  revoke_all_for_user, issue_current, issue_session, refresh_session, change_found, change_password,
}
use job_hunters_api.Auth.Recovery.{is_usable, reset_password}
use job_hunters_api.Auth.Trace.{Reach}
use job_hunters_api.Auth.Dead.{IsDead, AllDead}
use job_hunters_api.Auth.Dead.Steps.{Reach-AllDead}
use job_hunters_api.Auth.Rotation.{AllDead-is_refused}
use job_hunters_api.Auth.Version.{IsNewer, IsSince, new_version-IsNewer, with_password-IsNewer}
use job_hunters_api.Auth.Version.Steps.{Reach-AllNewer}

-- The tokens of a user from before `n`.
abbrev is_of : ℕ → ℕ → ℕ → ℕ → Bool
is_of n uid id user_id = ltb id n && (user_id == uid)

end_sessions-IsDead :
    (now n uid : ℕ) (rs : List RefreshToken) → All (IsDead (is_of n uid)) (end_sessions now uid rs)
end_sessions-IsDead now n uid [] = tt
end_sessions-IsDead now n uid (r ∷ rs) = (ground arith, end_sessions-IsDead now n uid rs)

module _ (lower : String → String) (digest : String → String) (verify : ℕ → String → Option Payload)
    (sign : (user_id token_id : ℕ) → String) (matches : (password hash : String) → Bool)
    (hash_password : String → String) (ttl : ℕ) where
  -- The requests that end the sessions of a user.
  pub data Ends (s : Accounts) : ℕ → Accounts → Type 0 where
    by_sign_out : (now user_id : ℕ) → Ends s user_id (revoke_all_for_user now user_id s)
    by_change :
        (now : ℕ) (user : User) (current password : String) (after : Accounts)
        → user_of user.id s ≡ some user
        → change_password digest verify sign matches hash_password ttl now user.id current password
            s
          ≡ some after
        → Ends s user.id after
    by_reset :
        (now : ℕ) (token password : String) (request : ResetToken) (after : Accounts)
        → find (is_usable digest verify sign matches hash_password ttl now token) s.resets
          ≡ some request
        → reset_password digest verify sign matches hash_password ttl now token password s
          ≡ some after
        → Ends s request.user_id after

  -- What the end of the sessions leaves of the tokens and the account.
  abbrev IsEnded : ℕ → ℕ → ℕ → Accounts → Type 0
  IsEnded n uid v after =
      AllDead n (is_of n uid) after × (uid < after.next_id) × All (IsNewer v uid) after.users

  change-IsEnded :
      (now v : ℕ) (user : User) (current password : String) (s after : Accounts)
      → user.id < s.next_id
      → All (IsSince v user.id) s.users
      → change_found digest verify sign matches hash_password ttl now current password (some user) s
        ≡ some after
      → IsEnded s.next_id user.id v after
  change-IsEnded now v user current password s after old since e =
      elim (Bool-cases (matches current user.password_hash)) [
        | inr wrong ↦ absurd (let k = rw wrong at e in ground arith)
        | inl fine ↦ subst (IsEnded s.next_id user.id v) (some_inj _ after (rw fine at e)) (
          (omega arith, end_sessions-IsDead now s.next_id user.id s.tokens),
          old,
          with_password-IsNewer lower digest verify sign matches hash_password ttl v user.id
              password s.users since,
        )
      ]
    where
      some_inj : (a b : Accounts) → some a ≡ some b → a ≡ b
      some_inj a b e = cc

  Ends-IsEnded :
      (v uid : ℕ) (s after : Accounts)
      → uid < s.next_id
      → All (IsSince v uid) s.users
      → Ends s uid after
      → IsEnded s.next_id uid v after
  unfolding revoke_all_for_user change_password reset_password
  Ends-IsEnded v uid s _ old since (by_sign_out now _) = (
    (omega arith, end_sessions-IsDead now s.next_id uid s.tokens),
    old,
    new_version-IsNewer v uid s.users since,
  )
  Ends-IsEnded v _ s after old since (by_change now user current password _ found e) =
      change-IsEnded now v user current password s after old since (rw found at e)
  Ends-IsEnded v _ s after old since (by_reset now token password request _ found e) =
      let k = rw found at e in
      subst (IsEnded s.next_id request.user_id v) (some_inj _ after k) (
        (omega arith, end_sessions-IsDead now s.next_id request.user_id s.tokens),
        old,
        with_password-IsNewer lower digest verify sign matches hash_password ttl v request.user_id
            password s.users since,
      )
    where
      some_inj : (a b : Accounts) → some a ≡ some b → a ≡ b
      some_inj a b e = cc

  find-IsNewer :
      (v uid : ℕ) (us : List User) (u : User)
      → All (IsNewer v uid) us
      → find (λ x. x.id == uid) us ≡ some u
      → ltb v u.auth_version ≡ true
  find-IsNewer v uid [] u all e = absurd (ground arith)
  find-IsNewer v uid (x ∷ us) u (h, all) e = elim (Bool-cases (x.id == uid)) [
    | inl this ↦
        let same : x ≡ u = ground arith in
        let newer : ltb v x.auth_version ≡ true = ground arith in
        subst (λ y. ltb v y.auth_version ≡ true) same newer
    | inr other ↦ find-IsNewer v uid us u all (rw other at e)
  ]

  stale_session :
      (now : ℕ) (seen : User) (u : Option User) (t : Accounts)
      → All (IsNewer seen.auth_version seen.id) t.users
      → user_of seen.id t ≡ u
      → issue_current digest verify sign matches hash_password ttl now seen u t ≡ none
  stale_session now seen none t newer is = refl
  stale_session now seen (some u) t newer is =
      let later = find-IsNewer seen.auth_version seen.id t.users u newer is in
      let differs : (u.auth_version == seen.auth_version) ≡ false = ground arith in rw differs refl

  -- Once an account's password is changed or reset, or it signs out everywhere, no refresh token that it
  -- was given before is of any use, at any time and after any further requests, and a sign-in, by
  -- the password of then or with Google, that read the account before gets no session. `seen` is
  -- what the sign-in read, of an id before `next_id`; the account's version has not gone down since.
  pub sessions_ended :
      (seen : User) (s after t : Accounts) (later : ℕ) (token : String) (p : Payload)
      → seen.id < s.next_id
      → All (IsSince seen.auth_version seen.id) s.users
      → Ends s seen.id after
      → Reach lower digest verify sign matches hash_password ttl after t
      → verify later token ≡ some p
      → p.sub ≡ seen.id
      → p.jti < s.next_id
      → (is_refused (refresh_session digest verify sign matches hash_password ttl later token t)
          ≡ true)
        × (issue_session digest verify sign matches hash_password ttl later seen t ≡ none)
  sessions_ended seen s after t later token p old since ends path verified own before =
      let (dead, kept, newer) = Ends-IsEnded seen.auth_version seen.id s after old since ends in
      (
        AllDead-is_refused lower digest verify sign matches hash_password ttl s.next_id
            (is_of s.next_id seen.id) later token t
            (λ q same. let is : q ≡ p = payload_inj q p (sym same ∙ verified) in ground arith)
            (Reach-AllDead lower digest verify sign matches hash_password ttl s.next_id
              (is_of s.next_id seen.id) after t (λ id user_id past. ground arith) dead path),
        stale_session later seen (user_of seen.id t) t
            (Reach-AllNewer lower digest verify sign matches hash_password ttl seen.auth_version
              seen.id after t (kept, newer) path).1
            refl,
      )
    where
      payload_inj : (q p : Payload) → some q ≡ some p → q ≡ p
      payload_inj q p e = cc
