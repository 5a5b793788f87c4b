-- ===== src/Auth/Google.antt =====
-- The sign-in with Google of src/modules/auth/service.ts and src/modules/auth/oauth-state.ts.
--
-- Google's endpoints are given by their answers, and `clean` is `trim` and `toLowerCase`. The state
-- is a key of a Redis server, where a script is one step; a server that fails, which ends the
-- sign-in before anything else, is left out.
pub mod Rows
pub mod Outcome
pub mod Entered
pub mod Vouched
pub mod Completed
use Prim.Native.String.{String}
use Prim.Native.String.{◌++◌}
use text.Mathlib.Text.{◌==◌ as str_eq}
use job_hunters_api.Common.{
  ℕ, ◌==◌, Bool, true, false, not, ◌&&◌, ◌||◌, Option, none, some, find, if◌then◌else◌,
}
use job_hunters_api.Redis.{Redis}
use job_hunters_api.Auth.{User, Accounts, Payload, is_truthy}
use job_hunters_api.Auth.SignUp.{
  NewUser, Failure, account_changed, not_written, link_expired, not_configured, unreachable,
  rejected, unreadable, no_access_token, wrong_identity, unverified, already_linked, SignInResult,
  failed, has_subject, link_google, create_account, enter, enter_created,
}

-- What `googleJson` ends with.
pub data Reply (A : Type 0) : Type 0 where
  no_reply : Failure → Reply A
  reply : A → Reply A

pub record GoogleTokens : Type 0 where
  pub access_token : Option String
  pub id_token : Option String

pub record TokenInfo : Type 0 where
  pub aud : Option String
  pub iss : Option String

pub record GoogleProfile : Type 0 where
  pub sub : Option String
  pub email : Option String
  pub email_verified : Bool

pub record Response : Type 0 where
  pub ok : Bool
  pub body : String

-- `googleJson` of what a request gave, if it gave anything, by a parser of the body.
unfoldable pub google_json : {A : Type 0} → (String → Option A) → Option Response → Reply A
google_json parse none = no_reply unreachable
google_json {A = A} parse (some response) =
    if response.ok then of_body (parse response.body) else no_reply rejected
  where
    of_body : Option A → Reply A
    of_body none = no_reply unreadable
    of_body (some value) = reply value

-- Google's answers to a code, to an id token and to an access token, and what JSON makes of them.
pub record Google : Type 0 where
  pub token_request : String → Option Response
  pub token_info_request : String → Option Response
  pub userinfo_request : String → Option Response
  pub parse_tokens : String → Option GoogleTokens
  pub parse_token_info : String → Option TokenInfo
  pub parse_profile : String → Option GoogleProfile

abbrev pub exchange : Google → String → Reply GoogleTokens
exchange google code = google_json google.parse_tokens (google.token_request code)

abbrev pub token_info : Google → String → Reply TokenInfo
token_info google id_token =
    google_json google.parse_token_info (google.token_info_request id_token)

abbrev pub userinfo : Google → String → Reply GoogleProfile
userinfo google access = google_json google.parse_profile (google.userinfo_request access)

pub data Identity : Type 0 where
  unknown : Failure → Identity
  identified : (sub email : String) → Identity

-- A text of JavaScript that is true as a test.
abbrev pub present : Option String → Option String
present none = none
present (some text) = if str_eq text "" then none else some text

abbrev pub is_client : String → Option String → Bool
is_client client none = false
is_client client (some aud) = str_eq aud client

abbrev pub is_issuer : Option String → Bool
is_issuer none = true
is_issuer (some iss) = str_eq iss "accounts.google.com" || str_eq iss "https://accounts.google.com"

module _ (google : Google) (clean : String → String) where
  abbrev pub cleaned : Option String → Option String
  cleaned none = none
  cleaned (some email) = some (clean email)

  abbrev pub verified_identity : Option String → Option String → Bool → Identity
  verified_identity (some sub) (some email) true = identified sub email
  verified_identity (some sub) (some email) false = unknown unverified
  verified_identity (some sub) none verified = unknown unverified
  verified_identity none email verified = unknown unverified

  abbrev pub of_profile : Reply GoogleProfile → Identity
  of_profile (no_reply why) = unknown why
  of_profile (reply p) =
      verified_identity (present p.sub) (present (cleaned p.email)) p.email_verified

  abbrev pub of_token_info : String → String → Reply TokenInfo → Identity
  of_token_info client access (no_reply why) = unknown why
  of_token_info client access (reply info) =
      if is_client client info.aud && is_issuer (present info.iss)
      then of_profile (userinfo google access)
      else unknown wrong_identity

  abbrev pub of_access : String → Option String → Option String → Identity
  of_access client none id_token = unknown no_access_token
  of_access client (some access) none = of_profile (userinfo google access)
  of_access client (some access) (some id_token) =
      of_token_info client access (token_info google id_token)

  abbrev pub of_tokens : String → Reply GoogleTokens → Identity
  of_tokens client (no_reply why) = unknown why
  of_tokens client (reply tokens) =
      of_access client (present tokens.access_token) (present tokens.id_token)

  -- The part of `completeGoogleSignIn` that asks Google, for the client that is configured.
  unfoldable pub google_identity : Option String → (code : String) → Identity
  google_identity none code = unknown not_configured
  google_identity (some client) code = of_tokens client (exchange google code)

-- The account of a sign-in: by its subject or, without one, by its e-mail.
pub data Found : Type 0 where
  conflicting : Found
  no_user : Found
  one_user : User → Found

abbrev pub chosen : Option User → Option User → Found
chosen none none = no_user
chosen none (some by_email) = one_user by_email
chosen (some by_subject) none = one_user by_subject
chosen (some by_subject) (some by_email) =
    if by_subject.id == by_email.id then one_user by_subject else conflicting

abbrev pub find_user : (sub email : String) → Accounts → Found
find_user sub email seen =
    chosen (find (has_subject sub) seen.users) (find (λ u. str_eq u.email email) seen.users)

module _ (lower : String → String) (digest : String → String) (verify : ℕ → String → Option Payload)
    (sign : (user_id token_id : ℕ) → String) (matches : (password hash : String) → Bool)
    (hash_password : String → String) (ttl : ℕ) where
  abbrev enter_linked : ℕ → User → Option (Option User × Accounts) → Accounts → SignInResult
  enter_linked now user none s = failed not_written s
  enter_linked now user (some (none, after)) s =
      enter lower digest verify sign matches hash_password ttl now user after
  enter_linked now user (some (some row, after)) s =
      enter lower digest verify sign matches hash_password ttl now row after

  abbrev pub enter_found : ℕ → (sub email random : String) → Found → Accounts → SignInResult
  enter_found now sub email random conflicting s = failed already_linked s
  enter_found now sub email random no_user s =
      enter_created lower digest verify sign matches hash_password ttl now
        (create_account lower
          (record {
            email = email;
            google_subject = some sub;
            password_hash = hash_password random;
          })
          s)
        s
  enter_found now sub email random (one_user user) s =
      if is_truthy user.google_subject
      then enter lower digest verify sign matches hash_password ttl now user s
      else enter_linked now user (link_google user.id sub s) s

  -- The part of `completeGoogleSignIn` that reads and writes the accounts; `random` is the password
  -- of a new one, and `seen` the state in which it looked for the account.
  unfoldable pub enter_identity :
      ℕ → (random : String) → Identity → (seen : Accounts) → Accounts → SignInResult
  enter_identity now random (unknown why) seen s = failed why s
  enter_identity now random (identified sub email) seen s =
      enter_found now sub email random (find_user sub email seen) s

  module _ (redis : Redis) (is_state : String → Bool) where
    abbrev pub state_key : String → String
    state_key state = "huntly:oauth:google:" ++ digest state

    -- `saveGoogleState`; a key that is there is left.
    unfoldable pub save_google_state : (state : String) → redis.Store → redis.Store
    save_google_state state r = saved (redis.set_nx (state_key state) "1" r)
      where
        saved : Option redis.Store → redis.Store
        saved none = r
        saved (some after) = after

    abbrev pub taken : String → Option String → redis.Store → Bool × redis.Store
    taken state none r = (false, r)
    taken state (some v) r = (true, redis.del (state_key state) r)

    -- `consumeGoogleState`.
    unfoldable pub consume_google_state : (state : String) → redis.Store → Bool × redis.Store
    consume_google_state state r =
        if is_state state then taken state (redis.get (state_key state) r) r else (false, r)

    module _ (google : Google) (clean : String → String) (client : Option String) where
      abbrev entry_unless :
          Bool × redis.Store → SignInResult → Accounts → SignInResult × redis.Store
      entry_unless (false, r) entry s = (failed link_expired s, r)
      entry_unless (true, r) entry s = (entry, r)

      -- `startGoogleSignIn`, whose URL is left out; `state` is random.
      unfoldable pub start_google_sign_in : (state : String) → redis.Store → Option redis.Store
      start_google_sign_in state r = start_for client
        where
          start_for : Option String → Option redis.Store
          start_for none = none
          start_for (some id) = some (save_google_state state r)

      -- `completeGoogleSignIn`.
      unfoldable pub complete_google_sign_in :
          (now : ℕ)
          → (random code state : String) → (seen : Accounts) → Accounts
          → redis.Store
          → SignInResult × redis.Store
      complete_google_sign_in now random code state seen s r =
          entry_unless (consume_google_state state r)
            (enter_identity now random (google_identity google clean client code) seen s) s
