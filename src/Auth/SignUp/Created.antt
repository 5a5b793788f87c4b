-- ===== src/Auth/SignUp/Created.antt =====
-- What `signUp` of src/modules/auth/service.ts ends with.
use Prim.Native.String.{String}
use text.Mathlib.Text.{◌==◌ as str_eq}
use job_hunters_api.Common.{
  ℕ, ◌+◌, ◌==◌, ◌≡◌, ◌≢◌, refl, Bool, true, false, Bool-cases, inl, inr, Option, none, some, List,
  [], ◌∷◌, any, arith,
}
use job_hunters_api.Auth.{User, Accounts, Payload, Session, user_of, issue, sign_in}
use job_hunters_api.Auth.SignUp.{
  NewUser, SignInResult, failed, entered, email_taken, not_written, has_email, clashes, user_from,
  with_user, create_account, sign_up,
}
use job_hunters_api.Auth.Registry.{IsRegistry}
use job_hunters_api.Auth.Google.Rows.{
  find-append_new, find-append_other, fresh_none, issue_session-issue, enter-entered,
}
use job_hunters_api.Auth.Google.Outcome.{IsAlone, others_as_before}

abbrev password_user : (email hash : String) → NewUser
password_user email hash = record { email = email; google_subject = none; password_hash = hash }

any_only_email :
    (lower : String → String) (email hash : String) (us : List User)
    → any (clashes lower (password_user email hash)) us ≡ any (has_email lower email) us
any_only_email lower email hash [] = refl
any_only_email lower email hash (u ∷ us) = ground (arith, any_only_email lower email hash us)

module _ (lower : String → String) (digest : String → String) (verify : ℕ → String → Option Payload)
    (sign : (user_id token_id : ℕ) → String) (matches : (password hash : String) → Bool)
    (hash_password : String → String) (ttl : ℕ) where
  pub data IsSignedUp (email password : String) (s : Accounts) : SignInResult → Type 0 where
    known :
        any (λ u. str_eq u.email email) s.users ≡ true
        → IsSignedUp email password s (failed email_taken s)
    known_in_another_case :
        any (λ u. str_eq u.email email) s.users ≡ false
        → any (has_email lower email) s.users ≡ true
        → IsSignedUp email password s (failed not_written s)
    new_account :
        (user : User) (session : Session) (t : Accounts)
        → any (has_email lower email) s.users ≡ false
        → user.email ≡ email
        → user.google_subject ≡ none
        → user_of session.user_id s ≡ none
        → user_of session.user_id t ≡ some user
        → IsAlone s t session
        → ((later : ℕ)
            → sign_in digest verify sign matches hash_password ttl later password user t ≢ none)
        → IsSignedUp email password s (entered session t)

  -- Where no two accounts share an id, an address or a subject, a sign-up that no other request
  -- interrupts fails, and writes nothing, if the address is known, in its case or another; else it
  -- makes an account with this address and no Google subject, leaves every other as it was, adds
  -- one refresh token, and the account can sign in with the password at any time. It takes that a
  -- password matches its hash.
  pub sign_up-IsSignedUp :
      (now : ℕ) (email password : String) (s : Accounts)
      → matches password (hash_password password) ≡ true
      → IsRegistry lower s
      → IsSignedUp email password s
          (sign_up lower digest verify sign matches hash_password ttl now email password s s)
  unfolding sign_up create_account sign_in
  sign_up-IsSignedUp now email password s fits h =
      elim (Bool-cases (any (λ u. str_eq u.email email) s.users)) [
        | inl e ↦ rw e (known e)
        | inr e ↦ elim (Bool-cases (any (has_email lower email) s.users)) [
          | inl k ↦
              rw (e, any_only_email lower email (hash_password password) s.users)
                (rw k (known_in_another_case e k))
          | inr k ↦
              rw (e, any_only_email lower email (hash_password password) s.users)
                (rw
                  (
                    k,
                    enter-entered lower digest verify sign matches hash_password ttl now user t
                        here,
                  )
                  (new_account user _ _ k refl refl (fresh_none s.next_id s.users h.below) here
                    (record {
                      others = others_as_before s t user.id (λ id ne.
                          find-append_other (λ u. u.id == id) s.users user (ground arith));
                      row = record {
                        id = t.next_id;
                        user_id = user.id;
                        token_hash = digest (sign user.id t.next_id);
                        expires_at = now + ttl;
                        revoked_at = none;
                        replaced_by = none;
                      };
                      owner = refl;
                      tokens = refl;
                    })
                    (λ later. signs_in_again later)))
        ]
      ]
    where
      user : User
      user = user_from lower s.next_id (password_user email (hash_password password))

      t : Accounts
      t = with_user lower user s

      here : user_of s.next_id t ≡ some user
      here =
          find-append_new (λ u. u.id == s.next_id) s.users user
            (fresh_none s.next_id s.users h.below) (ground arith)

      signs_in_again :
          (later : ℕ)
          → sign_in digest verify sign matches hash_password ttl later password user
              (issue digest verify sign matches hash_password ttl now user t).1
            ≢ none
      signs_in_again later e =
          let after = (issue digest verify sign matches hash_password ttl now user t).1 in
          let again =
            issue_session-issue lower digest verify sign matches hash_password ttl later user after
              here in
          let k = rw (fits, again) at e in ground arith
