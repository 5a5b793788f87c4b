-- ===== src/Auth/Google/Outcome.antt =====
-- What a sign-in with Google of src/modules/auth/service.ts ends with.
use Prim.Native.String.{String}
use text.Mathlib.Text.{◌==◌ as str_eq}
use job_hunters_api.Common.{
  ℕ, ◌==◌, ◌≡◌, ◌≢◌, ◌⊎◌, true, false, Bool-cases, inl, inr, none, some, [], ◌∷◌, ◌++◌, any, find,
  arith,
}
use job_hunters_api.Auth.{User, Accounts, Session, RefreshToken, is_truthy, user_of}
use job_hunters_api.Auth.SignUp.{
  Failure, not_written, already_linked, SignInResult, failed, entered, has_subject, has_email,
}

-- The account that a sign-in for a subject and an e-mail gets, by its id, before and after it.
pub data IsOwner (sub email : String) (before after : Accounts) (id : ℕ) : Type 0 where
  -- the account of the subject, as it was
  recognised :
      (u : User)
      → has_subject sub u ≡ true
      → user_of id before ≡ some u
      → user_of id after ≡ some u
      → IsOwner sub email before after id
  -- an account of the e-mail that had no subject, which it gets
  linked :
      (u : User)
      → u.email ≡ email
      → is_truthy u.google_subject ≡ false
      → find (has_subject sub) before.users ≡ none
      → user_of id before ≡ some u
      → user_of id after ≡ some (record u { google_subject = some sub })
      → IsOwner sub email before after id
  -- an account of the e-mail that has another subject, as it was
  of_another_subject :
      (u : User)
      → u.email ≡ email
      → is_truthy u.google_subject ≡ true
      → find (has_subject sub) before.users ≡ none
      → user_of id before ≡ some u
      → user_of id after ≡ some u
      → IsOwner sub email before after id
  -- a new account, where neither was known
  created :
      (u : User)
      → u.email ≡ email
      → u.google_subject ≡ some sub
      → find (has_subject sub) before.users ≡ none
      → find (λ x. str_eq x.email email) before.users ≡ none
      → user_of id before ≡ none
      → user_of id after ≡ some u
      → IsOwner sub email before after id

-- Why a sign-in for a subject and an e-mail is refused.
pub data IsRefused (lower : String → String) (sub email : String) (s : Accounts)
    : Failure → Type 0 where
  -- they are those of two accounts
  of_two_accounts :
      (a b : User)
      → has_subject sub a ≡ true
      → b.email ≡ email
      → a.id ≢ b.id
      → user_of a.id s ≡ some a
      → user_of b.id s ≡ some b
      → IsRefused lower sub email s already_linked
  -- neither is known, but the address is in the index in another case
  of_same_address :
      find (λ u. str_eq u.email email) s.users ≡ none
      → any (has_email lower email) s.users ≡ true
      → IsRefused lower sub email s not_written

-- What a sign-in leaves beside its own account: the others as they were, and one token more.
pub record IsAlone (before after : Accounts) (session : Session) : Type 0 where
  pub others : (id : ℕ) → (id ≡ session.user_id) ⊎ (user_of id after ≡ user_of id before)
  pub row : RefreshToken
  pub owner : row.user_id ≡ session.user_id
  pub tokens : after.tokens ≡ before.tokens ++ row ∷ []

pub others_as_before :
    (before after : Accounts) (own : ℕ)
    → ((id : ℕ) → id ≢ own → user_of id after ≡ user_of id before)
    → (id : ℕ) → (id ≡ own) ⊎ (user_of id after ≡ user_of id before)
others_as_before before after own kept id = elim (Bool-cases (id == own)) [
  | inl same ↦ inl (ground arith)
  | inr other ↦ inr (kept id (λ e. ground arith))
]

module _ (lower : String → String) where
  abbrev pub OnEntry : (sub email : String) → Accounts → SignInResult → Type 0
  OnEntry sub email s (failed why after) = (after ≡ s) × IsRefused lower sub email s why
  OnEntry sub email s (entered session after) =
      IsOwner sub email s after session.user_id × IsAlone s after session
