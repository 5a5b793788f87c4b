-- ===== src/Examples/Google.antt =====
-- Concrete accounts, a sign-up and a sign-in with Google.
use Prim.Native.String.{String}
use job_hunters_api.Common.{
  ◌==◌, ◌≡◌, refl, Bool, true, false, Option, none, some, [], ◌∷◌, arith, count-le-length,
}
use job_hunters_api.Auth.{User, Accounts}
use job_hunters_api.Auth.SignUp.{
  NewUser, has_email, has_subject, user_from, with_user, create_account, sign_up, SignInResult,
  entered, failed, email_taken,
}
use job_hunters_api.Auth.SignUp.Created.{IsSignedUp, sign_up-IsSignedUp}
use job_hunters_api.Auth.Trace.{here, next, creates}
use job_hunters_api.Auth.Registry.{IsRegistry}
use job_hunters_api.Auth.Registry.Requests.{Reach-IsRegistry}
use job_hunters_api.Auth.Google.{
  Response, Google, google_json, save_google_state, start_google_sign_in, google_identity,
  enter_identity, consume_google_state, complete_google_sign_in,
}
use job_hunters_api.Auth.Google.Completed.{IsCompleted, complete_google_sign_in-IsCompleted}
use job_hunters_api.Examples.Auth.{
  digest, same_case, hashed, fits, sign_token, check_token, ann, accounts,
}
use job_hunters_api.Examples.Lanes.{memory, memory-IsRedis}

accounts-IsRegistry : IsRegistry same_case accounts
accounts-IsRegistry = record {
  below = (omega arith, tt);
  own_id = λ i. count-le-length (λ u. u.id == i) (ann ∷ []);
  own_email = λ email. count-le-length (has_email same_case email) (ann ∷ []);
  own_subject = λ sub. count-le-length (has_subject sub) (ann ∷ []);
  kits = refl;
  specs = refl;
}

abbrev bob : NewUser
bob = record { email = "bob@mail.test"; google_subject = some "g-2"; password_hash = "random" }

abbrev bob_row : User
bob_row = user_from same_case accounts.next_id bob

bob_test :
    create_account same_case bob accounts ≡ some (bob_row, with_user same_case bob_row accounts)
unfolding create_account
bob_test = refl

Reach-IsRegistry_example : IsRegistry same_case (with_user same_case bob_row accounts)
Reach-IsRegistry_example =
    Reach-IsRegistry same_case digest check_token sign_token fits hashed 1000 accounts
      (with_user same_case bob_row accounts) accounts-IsRegistry
      (next here (creates bob accounts bob_row (with_user same_case bob_row accounts) bob_test))

sign_up-IsSignedUp_example :
    IsSignedUp same_case digest check_token sign_token fits hashed 1000 "eve@mail.test" "word"
      accounts
      (sign_up same_case digest check_token sign_token fits hashed 1000 10 "eve@mail.test" "word"
        accounts accounts)
sign_up-IsSignedUp_example =
    sign_up-IsSignedUp same_case digest check_token sign_token fits hashed 1000 10 "eve@mail.test"
      "word" accounts refl accounts-IsRegistry

-- Ann signs in with Google for the first time.
abbrev answered : String → Option Response
answered body = some (record { ok = true; body = body })

abbrev google : Google
google = record {
  token_request = λ code. answered "tokens";
  token_info_request = λ token. none;
  userinfo_request = λ access. answered access;
  parse_tokens = λ body. some (record { access_token = some "access"; id_token = none });
  parse_token_info = λ body. none;
  parse_profile = λ body.
      some (record { sub = some "g-1"; email = some "ann@mail.test"; email_verified = true });
}

abbrev any_state : String → Bool
any_state state = true

abbrev store : String → Option String
store =
    save_google_state same_case digest check_token sign_token fits hashed 1000 memory any_state
      "state" (λ key. none)

start_test :
    start_google_sign_in same_case digest check_token sign_token fits hashed 1000 memory any_state
      google same_case
      (some "client")
      "state"
      (λ key. none)
    ≡ some store
unfolding start_google_sign_in
start_test = refl

complete_google_sign_in-IsCompleted_example :
    IsCompleted same_case digest check_token sign_token fits hashed 1000 memory any_state google
      same_case
      (some "client")
      "code"
      "state"
      accounts
      store
      (complete_google_sign_in same_case digest check_token sign_token fits hashed 1000 memory
        any_state google same_case
        (some "client")
        10
        "random"
        "code"
        "state"
        accounts
        accounts
        store).0
      (complete_google_sign_in same_case digest check_token sign_token fits hashed 1000 memory
        any_state google same_case
        (some "client")
        10
        "random"
        "code"
        "state"
        accounts
        accounts
        store).1
complete_google_sign_in-IsCompleted_example =
    complete_google_sign_in-IsCompleted same_case digest check_token sign_token fits hashed 1000
      memory any_state google same_case (some "client") 10 "random" "code" "state" accounts store
      memory-IsRedis accounts-IsRegistry

-- Whoever has the address gets the account of another subject.
abbrev linked_accounts : Accounts
linked_accounts = record accounts { users = record ann { google_subject = some "g-0" } ∷ [] }

abbrev is_ann : SignInResult → Bool
is_ann (failed why s) = false
is_ann (entered session s) = session.user_id == 0

of_another_subject_test :
    is_ann
      (complete_google_sign_in same_case digest check_token sign_token fits hashed 1000 memory
        any_state google same_case
        (some "client")
        10
        "random"
        "code"
        "state"
        linked_accounts
        linked_accounts
        store).0
    ≡ true
unfolding google_json complete_google_sign_in consume_google_state save_google_state google_identity
    enter_identity
of_another_subject_test = refl

known_address_test :
    sign_up same_case digest check_token sign_token fits hashed 1000 10 "ann@mail.test" "word"
      accounts accounts
    ≡ failed email_taken accounts
unfolding sign_up
known_address_test = refl
