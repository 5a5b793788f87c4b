-- ===== src/Auth/Google/Completed.antt =====
-- The whole of `completeGoogleSignIn` of src/modules/auth/service.ts.
use Prim.Native.String.{String}
use text.Mathlib.TextEquality.{eq_iff}
use job_hunters_api.Common.{
  ℕ, ◌≡◌, ◌≢◌, ◌⊎◌, refl, sym, subst, ◌∙◌, Bool, false, Bool-cases, inl, inr, Option, Option-cases,
  none, some, arith,
}
use job_hunters_api.Redis.{Redis, IsRedis}
use job_hunters_api.Auth.{Accounts, Payload, Session}
use job_hunters_api.Auth.SignUp.{Failure, link_expired, SignInResult, failed, entered}
use job_hunters_api.Auth.Registry.{IsRegistry}
use job_hunters_api.Auth.Google.{
  Google, Identity, unknown, identified, google_identity, enter_identity, state_key,
  consume_google_state, complete_google_sign_in,
}
use job_hunters_api.Auth.Google.Outcome.{IsOwner, IsRefused, IsAlone, OnEntry}
use job_hunters_api.Auth.Google.Entered.{enter_found-OnEntry}
use job_hunters_api.Auth.Google.Vouched.{
  IsVouched, google_identity-IsVouched, IsVouched-google_identity,
}

module _ (lower : String → String) (digest : String → String) (verify : ℕ → String → Option Payload)
    (sign : (user_id token_id : ℕ) → String) (matches : (password hash : String) → Bool)
    (hash_password : String → String) (ttl : ℕ) (redis : Redis) (is_state : String → Bool)
    (google : Google) (clean : String → String) (client : Option String) where
  abbrev stored : String → redis.Store → Option String
  stored state r =
      redis.get (state_key lower digest verify sign matches hash_password ttl redis is_state state)
        r

  abbrev consumed : String → redis.Store → Bool × redis.Store
  consumed state r =
      consume_google_state lower digest verify sign matches hash_password ttl redis is_state state r

  -- The state was there, and is taken: no request takes it again.
  pub record IsSpent (state : String) (r after : redis.Store) : Type 0 where
    pub was_there : stored state r ≢ none
    pub gone : consumed state after ≡ (false, after)

  pub data IsCompleted (code state : String) (s : Accounts) (r : redis.Store)
      : SignInResult → redis.Store → Type 0 where
    no_state :
        (is_state state ≡ false) ⊎ (stored state r ≡ none)
        → IsCompleted code state s r (failed link_expired s) r
    not_identified :
        (why : Failure) (after : redis.Store)
        → ((sub email : String) → ¬ IsVouched google clean client code sub email)
        → IsSpent state r after
        → IsCompleted code state s r (failed why s) after
    refused :
        (why : Failure) (sub email : String) (after : redis.Store)
        → IsVouched google clean client code sub email
        → IsRefused lower sub email s why
        → IsSpent state r after
        → IsCompleted code state s r (failed why s) after
    signed_in :
        (session : Session) (sub email : String) (t : Accounts) (after : redis.Store)
        → IsVouched google clean client code sub email
        → IsOwner sub email s t session.user_id
        → IsAlone s t session
        → IsSpent state r after
        → IsCompleted code state s r (entered session t) after

  taken-IsSpent :
      (state : String) (r : redis.Store) (v : String)
      → IsRedis redis
      → stored state r ≡ some v
      → IsSpent state r (
          redis.del
            (state_key lower digest verify sign matches hash_password ttl redis is_state state)
            r)
  unfolding consume_google_state
  taken-IsSpent state r v laws is = record {
    was_there = λ e. ground arith;
    gone = elim (Bool-cases (is_state state)) [
      | inl fine ↦ rw fine (rw deleted refl)
      | inr wrong ↦ rw wrong refl
    ];
  }
    where
      key : String
      key = state_key lower digest verify sign matches hash_password ttl redis is_state state

      deleted : redis.get key (redis.del key r) ≡ none
      deleted = laws.deleted key r key ∙ rw ((eq_iff key key).1 refl) refl

  entry-IsCompleted :
      (now : ℕ) (random code state : String) (s : Accounts) (r after : redis.Store)
      → IsRegistry lower s
      → IsSpent state r after
      → IsCompleted code state s r
          (enter_identity lower digest verify sign matches hash_password ttl now random
            (google_identity google clean client code)
            s
            s)
          after
  unfolding enter_identity
  entry-IsCompleted now random code state s r after h spent =
      of_identity (google_identity google clean client code) refl
    where
      of_entry :
          (sub email : String) (entry : SignInResult)
          → IsVouched google clean client code sub email
          → OnEntry lower sub email s entry
          → IsCompleted code state s r entry after
      of_entry sub email (failed why t) vouched (same, because) =
          subst (λ x. IsCompleted code state s r (failed why x) after) (sym same)
            (refused why sub email after vouched because spent)
      of_entry sub email (entered session t) vouched (own, alone) =
          signed_in session sub email t after vouched own alone spent

      of_identity :
          (i : Identity)
          → google_identity google clean client code ≡ i
          → IsCompleted code state s r
              (enter_identity lower digest verify sign matches hash_password ttl now random i s s)
              after
      of_identity (unknown why) e =
          not_identified why after
            (λ sub email v.
              let k = sym e ∙ IsVouched-google_identity google clean client code sub email v in
              ground arith)
            spent
      of_identity (identified sub email) e =
          let vouched = google_identity-IsVouched google clean client code sub email e in
          of_entry sub email _ vouched (
            enter_found-OnEntry lower digest verify sign matches hash_password ttl now sub email
              random s vouched.profile.not_empty h)

  -- A sign-in with Google, where no two accounts share an id, an address or a subject and no other
  -- request comes in between, fails without a stored state; else it takes the state, and a second request with it would fail. It then fails
  -- unless Google vouches for a subject and its checked address, and where these are of two
  -- accounts, or the address is known in another case only. What fails writes no account. Else it
  -- gives a session of the account of the subject, as it was; or else of that of the address, which
  -- gets the subject if it has none; or else of a new one with both. It adds one refresh token and
  -- leaves every other account as it was.
  pub complete_google_sign_in-IsCompleted :
      (now : ℕ) (random code state : String) (s : Accounts) (r : redis.Store)
      → IsRedis redis
      → IsRegistry lower s
      → IsCompleted code state s r
          (complete_google_sign_in lower digest verify sign matches hash_password ttl redis is_state
            google clean client now random code state s s r).0
          (complete_google_sign_in lower digest verify sign matches hash_password ttl redis is_state
            google clean client now random code state s s r).1
  unfolding complete_google_sign_in consume_google_state
  complete_google_sign_in-IsCompleted now random code state s r laws h =
      elim (Bool-cases (is_state state)) [
        | inr wrong ↦ rw wrong (no_state (inl wrong))
        | inl fine ↦ elim (Option-cases (stored state r)) [
          | inl gone ↦ rw (fine, gone) (no_state (inr gone))
          | inr (v, there) ↦
              rw (fine, there)
                (entry-IsCompleted now random code state s r _ h
                  (taken-IsSpent state r v laws there))
        ]
      ]
