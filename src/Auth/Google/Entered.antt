-- ===== src/Auth/Google/Entered.antt =====
-- The sessions that `completeGoogleSignIn` of src/modules/auth/service.ts gives.
use Prim.Native.String.{String}
use text.Mathlib.Text.{◌==◌ as str_eq}
use text.Mathlib.TextEquality.{eq_iff}
use job_hunters_api.Common.{
  ℕ, ◌+◌, ◌==◌, ◌≡◌, ◌≢◌, refl, Bool, true, false, Bool-cases, inl, inr, not, Option, Option-cases,
  none, some, any, find, find_holds, arith,
}
use job_hunters_api.Auth.{User, Accounts, Payload, Session, is_truthy, user_of, issue}
use job_hunters_api.Auth.SignUp.{
  has_subject, has_email, clashes, create_account, link_google, enter, NewUser, with_user,
  user_from, is_subject_free, with_subject,
}
use job_hunters_api.Auth.Registry.{IsRegistry}
use job_hunters_api.Auth.Google.{no_user, one_user, find_user, enter_found}
use job_hunters_api.Auth.Google.Rows.{
  find-none, find_other, any_either, any_and, find-append_new, find-append_other, fresh_none,
  find-with_subject, find-with_subject_other, subject-is_truthy, enter-entered,
}
use job_hunters_api.Auth.Google.Outcome.{
  IsOwner, recognised, linked, of_another_subject, created, of_two_accounts, of_same_address,
  others_as_before, OnEntry,
}

module _ (lower : String → String) (digest : String → String) (verify : ℕ → String → Option Payload)
    (sign : (user_id token_id : ℕ) → String) (matches : (password hash : String) → Bool)
    (hash_password : String → String) (ttl : ℕ) where
  found_own :
      (p : User → Bool) (s : Accounts) (u : User)
      → IsRegistry lower s
      → find p s.users ≡ some u
      → user_of u.id s ≡ some u
  found_own p s u h e = find_other p (λ x. x.id == u.id) s.users u e (self u.id) (h.own_id u.id)
    where
      self : (n : ℕ) → (n == n) ≡ true
      self n = ground arith

  abbrev issued : ℕ → User → Accounts → Session × Accounts
  issued now u s = issue digest verify sign matches hash_password ttl now u s

  -- The session of a row that `mid` has, where `mid` has written no other row.
  entered-OnEntry :
      (now : ℕ) (sub email : String) (u : User) (s mid : Accounts)
      → user_of u.id mid ≡ some u
      → IsOwner sub email s (issued now u mid).1 u.id
      → ((id : ℕ) → id ≢ u.id → user_of id mid ≡ user_of id s)
      → mid.tokens ≡ s.tokens
      → OnEntry lower sub email s
          (enter lower digest verify sign matches hash_password ttl now u mid)
  entered-OnEntry now sub email u s mid e own others tokens =
      rw (enter-entered lower digest verify sign matches hash_password ttl now u mid e) (
        own,
        record {
          others = others_as_before s mid u.id others;
          row = record {
            id = mid.next_id;
            user_id = u.id;
            token_hash = digest (sign u.id mid.next_id);
            expires_at = now + ttl;
            revoked_at = none;
            replaced_by = none;
          };
          owner = refl;
          tokens = rw tokens refl;
        },
      )

  entered_new :
      (now : ℕ) (sub email random : String) (s : Accounts)
      → IsRegistry lower s
      → find (has_subject sub) s.users ≡ none
      → find (λ x. str_eq x.email email) s.users ≡ none
      → OnEntry lower sub email s (
          enter_found lower digest verify sign matches hash_password ttl now sub email random
            no_user s)
  unfolding create_account
  entered_new now sub email random s h no_sub no_email =
      elim (Bool-cases (any (clashes lower new) s.users)) [
        | inl e ↦ rw e (
          refl,
          of_same_address no_email (
              any_either (has_email lower email) (has_subject sub) s.users e
                (find-none _ s.users no_sub)),
        )
        | inr e ↦ rw e (
            entered-OnEntry now sub email user s (with_user lower user s) here
              (created user refl refl no_sub no_email (fresh_none s.next_id s.users h.below) here)
              (λ id ne. find-append_other (λ u. u.id == id) s.users user (ground arith)) refl)
      ]
    where
      new : NewUser
      new = record {
        email = email;
        google_subject = some sub;
        password_hash = hash_password random;
      }

      user : User
      user = user_from lower s.next_id new

      here : user_of s.next_id (with_user lower user s) ≡ some user
      here =
          find-append_new (λ u. u.id == s.next_id) s.users user
            (fresh_none s.next_id s.users h.below) (ground arith)

  entered_by_email :
      (now : ℕ) (sub email random : String) (u : User) (s : Accounts)
      → IsRegistry lower s
      → find (has_subject sub) s.users ≡ none
      → find (λ x. str_eq x.email email) s.users ≡ some u
      → OnEntry lower sub email s (
          enter_found lower digest verify sign matches hash_password ttl now sub email random
            (one_user u)
            s)
  unfolding link_google
  entered_by_email now sub email random u s h no_sub e =
      let here = found_own (λ x. str_eq x.email email) s u h e in
      let own =
        (eq_iff u.email email).0 (find_holds (λ (x : User). str_eq x.email email) s.users e) in
      elim (Bool-cases (is_truthy u.google_subject)) [
        | inl set ↦ rw set (
            entered-OnEntry now sub email u s s here (of_another_subject u own set no_sub here here)
              (λ id ne. refl) refl)
        | inr unset ↦
            rw (unset, here, free u.id)
              (entered-OnEntry now sub email (record u { google_subject = some sub }) s
                (record s { users = with_subject u.id sub s.users })
                (find-with_subject u.id sub s.users u here)
                (linked u own unset no_sub here (find-with_subject u.id sub s.users u here))
                (λ id ne. find-with_subject_other u.id id sub s.users ne) refl)
      ]
    where
      free : (id : ℕ) → is_subject_free id sub s.users ≡ true
      free id =
          rw
            (any_and (λ x. not (x.id == id)) (has_subject sub) s.users (find-none _ s.users no_sub))
            refl

  entered_by_subject :
      (now : ℕ) (sub email random : String) (u : User) (s : Accounts)
      → str_eq sub "" ≡ false
      → IsRegistry lower s
      → find (has_subject sub) s.users ≡ some u
      → OnEntry lower sub email s (
          enter_found lower digest verify sign matches hash_password ttl now sub email random
            (one_user u)
            s)
  entered_by_subject now sub email random u s full h e =
      let here = found_own (has_subject sub) s u h e in
      let own = find_holds (has_subject sub) s.users e in
      rw (subject-is_truthy sub u full own)
        (entered-OnEntry now sub email u s s here (recognised u own here here) (λ id ne. refl) refl)

  pub enter_found-OnEntry :
      (now : ℕ) (sub email random : String) (s : Accounts)
      → str_eq sub "" ≡ false
      → IsRegistry lower s
      → OnEntry lower sub email s (
          enter_found lower digest verify sign matches hash_password ttl now sub email random
            (find_user sub email s)
            s)
  enter_found-OnEntry now sub email random s full h =
      elim (Option-cases (find (has_subject sub) s.users)) [
        | inl no_sub ↦ elim (Option-cases (find (λ x. str_eq x.email email) s.users)) [
          | inl no_email ↦
              rw (no_sub, no_email) (entered_new now sub email random s h no_sub no_email)
          | inr (u, e) ↦ rw (no_sub, e) (entered_by_email now sub email random u s h no_sub e)
        ]
        | inr (u, e) ↦ elim (Option-cases (find (λ x. str_eq x.email email) s.users)) [
          | inl no_email ↦ rw (e, no_email) (entered_by_subject now sub email random u s full h e)
          | inr (v, k) ↦ elim (Bool-cases (u.id == v.id)) [
            | inl same ↦ rw (e, k) (rw same (entered_by_subject now sub email random u s full h e))
            | inr other ↦
                rw (e, k)
                  (rw other (
                    refl,
                    of_two_accounts u v (find_holds (has_subject sub) s.users e)
                        ((eq_iff v.email email).0
                          (find_holds (λ (x : User). str_eq x.email email) s.users k))
                        (λ same. ground arith) (found_own (has_subject sub) s u h e)
                        (found_own (λ x. str_eq x.email email) s v h k),
                  ))
          ]
        ]
      ]
