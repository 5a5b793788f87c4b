-- ===== src/Auth/Rotation.antt =====
-- A refresh token of src/modules/auth/service.ts is used once.
use Prim.Native.String.{String}
use text.Mathlib.Text.{◌==◌ as str_eq}
use job_hunters_api.Common.{
  update_where, ℕ, ◌≤◌, ◌<◌, ◌==◌, ◌≡◌, refl, subst, Bool, true, Bool-cases, inl, inr, ◌&&◌, ◌||◌,
  Option, Option-cases, none, some, List, [], ◌∷◌, find, leb, arith, All,
}
use job_hunters_api.Auth.{
  User, RefreshToken, Accounts, Payload, Session, Refreshed, refused, renewed, is_refused, is_set,
  user_of, issue, rotate, refresh_row, refresh_user, refresh_payload, refresh_session,
}
use job_hunters_api.Auth.Trace.{Reach}
use job_hunters_api.Auth.Dead.{IsDead, AllDead, OnRenewed}
use job_hunters_api.Auth.Dead.Steps.{Reach-AllDead}

module _ (lower : String → String) (digest : String → String) (verify : ℕ → String → Option Payload)
    (sign : (user_id token_id : ℕ) → String) (matches : (password hash : String) → Bool)
    (hash_password : String → String) (ttl : ℕ) where
  find-IsDead :
      (dead : ℕ → ℕ → Bool) (p : Payload) (rs : List RefreshToken) (row : RefreshToken)
      → dead p.jti p.sub ≡ true
      → All (IsDead dead) rs
      → find (λ r. (r.id == p.jti) && (r.user_id == p.sub)) rs ≡ some row
      → is_set row.revoked_at ≡ true
  find-IsDead dead p [] row picked all e = absurd (ground arith)
  find-IsDead dead p (r ∷ rs) row picked (h, all) e =
      elim (Bool-cases ((r.id == p.jti) && (r.user_id == p.sub))) [
        | inl this ↦
            let same : r ≡ row = ground arith in
            let id : r.id ≡ p.jti = ground arith in
            let owner : r.user_id ≡ p.sub = ground arith in
            let k : dead r.id r.user_id ≡ true = rw (id, owner) picked in
            let revoked : is_set r.revoked_at ≡ true = ground arith in
            subst (λ x. is_set x.revoked_at ≡ true) same revoked
        | inr other ↦ find-IsDead dead p rs row picked all (rw other at e)
      ]

  -- While a test picks dead tokens only, a refresh with a token of such a row is refused.
  pub AllDead-is_refused :
      (n : ℕ) (dead : ℕ → ℕ → Bool) (now : ℕ) (token : String) (s : Accounts)
      → ((p : Payload) → verify now token ≡ some p → dead p.jti p.sub ≡ true)
      → AllDead n dead s
      → is_refused (refresh_session digest verify sign matches hash_password ttl now token s) ≡ true
  unfolding refresh_session
  AllDead-is_refused n dead now token s picked (bound, all) = payload (verify now token) refl
    where
      row :
          (p : Payload) (user : User) (r : Option RefreshToken)
          → find (λ r. (r.id == p.jti) && (r.user_id == p.sub)) s.tokens ≡ r
          → dead p.jti p.sub ≡ true
          → is_refused (refresh_row digest verify sign matches hash_password ttl now token user r s)
            ≡ true
      row p user none is h = refl
      row p user (some r) is h =
          let revoked = find-IsDead dead p s.tokens r h all is in
          elim (Bool-cases (str_eq r.token_hash (digest token))) [
            | inl same ↦ rw (same, revoked) refl
            | inr other ↦ rw other refl
          ]

      user :
          (p : Payload) (u : Option User)
          → dead p.jti p.sub ≡ true
          → is_refused (refresh_user digest verify sign matches hash_password ttl now token p u s)
            ≡ true
      user p none h = refl
      user p (some u) h =
          row p u (find (λ r. (r.id == p.jti) && (r.user_id == p.sub)) s.tokens) refl h

      payload :
          (p : Option Payload)
          → verify now token ≡ p
          → is_refused (refresh_payload digest verify sign matches hash_password ttl now token p s)
            ≡ true
      payload none is = refl
      payload (some p) is = user p (user_of p.sub s) (picked p is)

  abbrev has_jti : Payload → ℕ → ℕ → Bool
  has_jti p id user_id = id == p.jti

  rotated :
      (now : ℕ) (p : Payload) (old : ℕ) (fresh : Payload) (rs : List RefreshToken)
      → old ≡ p.jti
      → All (IsDead (has_jti p)) (
          update_where
            (λ r. r.id == old)
            (λ r. record r { revoked_at = some now; replaced_by = some fresh.jti })
            rs)
  rotated now p old fresh [] e = tt
  rotated now p old fresh (r ∷ rs) e = (ground arith, rotated now p old fresh rs e)

  -- What a refresh leaves of the token that it was given.
  rotate-AllDead :
      (now : ℕ) (p : Payload) (old n : ℕ) (issued : Session × Accounts) (fresh : Option Payload)
      → old ≡ p.jti
      → n ≤ issued.1.next_id
      → OnRenewed
          (λ after. AllDead n (has_jti p) after)
          (rotate digest verify sign matches hash_password ttl now old issued fresh)
  rotate-AllDead now p old n (session, s) none e bound = tt
  rotate-AllDead now p old n (session, s) (some fresh) e bound =
      (bound, rotated now p old fresh s.tokens e)

  abbrev IsBelow : ℕ → RefreshToken → Type 0
  IsBelow n r = r.id < n

  found_jti :
      (p : Payload) (n : ℕ) (rs : List RefreshToken) (row : RefreshToken)
      → All (IsBelow n) rs
      → find (λ r. (r.id == p.jti) && (r.user_id == p.sub)) rs ≡ some row
      → (row.id ≡ p.jti) × (p.jti < n)
  found_jti p n [] row all e = absurd (ground arith)
  found_jti p n (r ∷ rs) row (h, all) e =
      elim (Bool-cases ((r.id == p.jti) && (r.user_id == p.sub))) [
        | inl this ↦
            let same : r ≡ row = ground arith in
            let id : r.id ≡ p.jti = ground arith in (subst (λ x. x.id ≡ p.jti) same id, omega arith)
        | inr other ↦ found_jti p n rs row all (rw other at e)
      ]

  -- Of the payload of a token that was just refreshed: it is from before, and its row is dead.
  abbrev IsSpent : ℕ → Payload → Accounts → Type 0
  IsSpent n p after = (p.jti < n) × AllDead n (has_jti p) after

  spent :
      (now : ℕ) (token : String) (p : Payload) (s : Accounts)
      → All (IsBelow s.next_id) s.tokens
      → OnRenewed
          (IsSpent s.next_id p)
          (refresh_payload digest verify sign matches hash_password ttl now token (some p) s)
  spent now token p s all = user (user_of p.sub s)
    where
      both :
          (x : Refreshed)
          → p.jti < s.next_id
          → OnRenewed (λ after. AllDead s.next_id (has_jti p) after) x
          → OnRenewed (IsSpent s.next_id p) x
      both (refused why) below h = tt
      both (renewed session after) below h = (below, h)

      row :
          (u : User) (r : Option RefreshToken)
          → find (λ r. (r.id == p.jti) && (r.user_id == p.sub)) s.tokens ≡ r
          → OnRenewed
              (IsSpent s.next_id p)
              (refresh_row digest verify sign matches hash_password ttl now token u r s)
      row u none is = tt
      row u (some r) is =
          let (id, below) = found_jti p s.next_id s.tokens r all is in
          elim (Bool-cases (str_eq r.token_hash (digest token))) [
            | inr other ↦ rw other tt
            | inl same ↦ elim (Bool-cases (is_set r.revoked_at || leb r.expires_at now)) [
              | inl over ↦ rw (same, over) tt
              | inr live ↦
                  rw (same, live)
                    (both
                      (rotate digest verify sign matches hash_password ttl now r.id
                        (issue digest verify sign matches hash_password ttl now u s)
                        (verify now (sign u.id s.next_id)))
                      below
                      (rotate-AllDead now p r.id s.next_id
                        (issue digest verify sign matches hash_password ttl now u s)
                        (verify now (sign u.id s.next_id)) id (omega arith)))
            ]
          ]

      user :
          (u : Option User)
          → OnRenewed
              (IsSpent s.next_id p)
              (refresh_user digest verify sign matches hash_password ttl now token p u s)
      user none = tt
      user (some u) = row u (find (λ r. (r.id == p.jti) && (r.user_id == p.sub)) s.tokens) refl

  -- A refresh token is used once: when a refresh with it succeeded, no request in any order afterwards
  -- makes a second refresh with it succeed, at any time. It takes that ids of tokens are from before
  -- `next_id`, and that a token is verified to the same payload at all times that it is valid.
  pub refresh_session_once :
      (now later : ℕ) (token : String) (s after t : Accounts) (session : Session)
      → ((m n : ℕ) (p q : Payload) → verify m token ≡ some p → verify n token ≡ some q → p ≡ q)
      → All (λ r. r.id < s.next_id) s.tokens
      → refresh_session digest verify sign matches hash_password ttl now token s
        ≡ renewed session after
      → Reach lower digest verify sign matches hash_password ttl after t
      → is_refused (refresh_session digest verify sign matches hash_password ttl later token t)
        ≡ true
  unfolding refresh_session
  refresh_session_once now later token s after t session stable all e path =
      elim (Option-cases (verify now token)) [
        | inl none_is ↦ absurd (let k = rw none_is at e in ground arith)
        | inr (p, is) ↦
            let (below, dead) =
              subst (OnRenewed (IsSpent s.next_id p)) (rw is at e) (spent now token p s all) in
            AllDead-is_refused s.next_id (has_jti p) later token t
              (λ q verified. let same : p ≡ q = stable now later p q is verified in ground arith)
              (Reach-AllDead lower digest verify sign matches hash_password ttl s.next_id
                (has_jti p) after t (λ id user_id past. ground arith) dead path)
      ]
