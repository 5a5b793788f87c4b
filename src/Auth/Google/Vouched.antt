-- ===== src/Auth/Google/Vouched.antt =====
-- What Google says of the person who signs in, as `completeGoogleSignIn` of
-- src/modules/auth/service.ts reads it.
use Prim.Native.String.{String}
use text.Mathlib.Text.{◌==◌ as str_eq}
use text.Mathlib.TextEquality.{eq_iff}
use job_hunters_api.Common.{
  ◌&&◌, ◌≡◌, refl, ap, subst, ◌∙◌, Bool, true, false, sym, Bool-cases, inl, inr, Option, none, some,
  arith,
}
use job_hunters_api.Auth.Google.{
  Reply, no_reply, reply, GoogleTokens, TokenInfo, GoogleProfile, Google, identified, present,
  is_client, is_issuer, cleaned, verified_identity, of_profile, of_token_info, of_access, of_tokens,
  exchange, token_info, userinfo, google_identity,
}

present-some :
    (o : Option String) (text : String)
    → present o ≡ some text
    → (o ≡ some text) × (str_eq text "" ≡ false)
present-some none text e = absurd (ground arith)
present-some (some t) text e = elim (Bool-cases (str_eq t "")) [
  | inl empty ↦ absurd (let k = rw empty at e in ground arith)
  | inr full ↦
      let same : t ≡ text = ground arith in
      (ap some same, subst (λ x. str_eq x "" ≡ false) same full)
]

-- Google's names for itself; no name is taken for one.
pub data IsIssuer : Option String → Type 0 where
  no_issuer : IsIssuer none
  empty_issuer : IsIssuer (some "")
  short_issuer : IsIssuer (some "accounts.google.com")
  long_issuer : IsIssuer (some "https://accounts.google.com")

is_issuer-IsIssuer : (o : Option String) → is_issuer (present o) ≡ true → IsIssuer o
is_issuer-IsIssuer none e = no_issuer
is_issuer-IsIssuer (some iss) e = elim (Bool-cases (str_eq iss "")) [
  | inl empty ↦ named "" empty empty_issuer
  | inr full ↦ elim (Bool-cases (str_eq iss "accounts.google.com")) [
    | inl short ↦ named "accounts.google.com" short short_issuer
    | inr other ↦
        named "https://accounts.google.com" (let k = rw full at e in ground arith) long_issuer
  ]
]
  where
    named : (name : String) → str_eq iss name ≡ true → IsIssuer (some name) → IsIssuer (some iss)
    named name same is = subst (λ x. IsIssuer (some x)) (sym ((eq_iff iss name).0 same)) is

IsIssuer-is_issuer : (o : Option String) → IsIssuer o → is_issuer (present o) ≡ true
IsIssuer-is_issuer _ no_issuer = refl
IsIssuer-is_issuer _ empty_issuer = refl
IsIssuer-is_issuer _ short_issuer = refl
IsIssuer-is_issuer _ long_issuer = refl

module _ (google : Google) (clean : String → String) where
  -- Google says, to whoever holds the token, that the subject's address was checked.
  pub record IsProfile (access sub email : String) : Type 0 where
    pub profile : GoogleProfile
    pub replied : userinfo google access ≡ reply profile
    pub subject : profile.sub ≡ some sub
    pub not_empty : str_eq sub "" ≡ false
    pub gives_email : str_eq email "" ≡ false
    pub address : String
    pub given : profile.email ≡ some address
    pub cleaned_email : clean address ≡ email
    pub verified : profile.email_verified ≡ true

  -- An id token, where there is one, was made by Google for this client.
  pub data IsAudience (client : String) : Option String → Type 0 where
    no_id_token : IsAudience client none
    empty_id_token : IsAudience client (some "")
    for_client :
        (id_token : String) (info : TokenInfo)
        → str_eq id_token "" ≡ false
        → token_info google id_token ≡ reply info
        → info.aud ≡ some client
        → IsIssuer info.iss
        → IsAudience client (some id_token)

  pub record IsVouched (client : Option String) (code sub email : String) : Type 0 where
    pub client_id : String
    pub configured : client ≡ some client_id
    pub tokens : GoogleTokens
    pub exchanged : exchange google code ≡ reply tokens
    pub access : String
    pub access_token : tokens.access_token ≡ some access
    pub gives_access : str_eq access "" ≡ false
    pub audience : IsAudience client_id tokens.id_token
    pub profile : IsProfile access sub email

  address_of :
      (email : String) (o : Option String)
      → cleaned google clean o ≡ some email
      → (address : String) × (o ≡ some address) × (clean address ≡ email)
  address_of email none e = absurd (ground arith)
  address_of email (some address) e = (address, refl, inj _ _ e)
    where
      inj : (a b : String) → some a ≡ some b → a ≡ b
      inj a b e = cc

  verified_identity-IsProfile :
      (access sub email : String) (p : GoogleProfile) (own mail : Option String) (verified : Bool)
      → userinfo google access ≡ reply p
      → present p.sub ≡ own
      → present (cleaned google clean p.email) ≡ mail
      → p.email_verified ≡ verified
      → verified_identity google clean own mail verified ≡ identified sub email
      → IsProfile access sub email
  verified_identity-IsProfile access sub email p (some a) (some b) true replied is_sub is_mail
        verified e =
      let (given_sub, full) = present-some p.sub sub (is_sub ∙ ap some (sub_inj e)) in
      let (given_mail, some_mail) = present-some _ email (is_mail ∙ ap some (email_inj e)) in
      let (address, given, same) = address_of email p.email given_mail in
      record {
        profile = p;
        replied = replied;
        subject = given_sub;
        not_empty = full;
        gives_email = some_mail;
        address = address;
        given = given;
        cleaned_email = same;
        verified = verified;
      }
    where
      sub_inj : identified a b ≡ identified sub email → a ≡ sub
      sub_inj e = cc

      email_inj : identified a b ≡ identified sub email → b ≡ email
      email_inj e = cc
  verified_identity-IsProfile access sub email p (some a) (some b) false replied is_sub is_mail
        verified e =
      absurd (ground arith)
  verified_identity-IsProfile access sub email p (some a) none verified replied is_sub is_mail v e =
      absurd (ground arith)
  verified_identity-IsProfile access sub email p none mail verified replied is_sub is_mail v e =
      absurd (ground arith)

  of_profile-IsProfile :
      (access sub email : String)
      → of_profile google clean (userinfo google access) ≡ identified sub email
      → IsProfile access sub email
  of_profile-IsProfile access sub email e = of_reply (userinfo google access) refl e
    where
      of_reply :
          (r : Reply GoogleProfile)
          → userinfo google access ≡ r
          → of_profile google clean r ≡ identified sub email
          → IsProfile access sub email
      of_reply (no_reply why) replied e = absurd (ground arith)
      of_reply (reply p) replied e =
          verified_identity-IsProfile access sub email p _ _ _ replied refl refl refl e

  of_access-IsProfile :
      (client access sub email : String) (id_token : Option String)
      → of_access google clean client (some access) (present id_token) ≡ identified sub email
      → IsAudience client id_token × IsProfile access sub email
  of_access-IsProfile client access sub email none e =
      (no_id_token, of_profile-IsProfile access sub email e)
  of_access-IsProfile client access sub email (some id_token) e =
      elim (Bool-cases (str_eq id_token "")) [
        | inl empty ↦ (
          subst (λ x. IsAudience client (some x)) (sym ((eq_iff id_token "").0 empty))
              empty_id_token,
          of_profile-IsProfile access sub email (rw empty at e),
        )
        | inr full ↦ of_info full (token_info google id_token) refl (rw full at e)
      ]
    where
      aud_of : (o : Option String) → is_client client o ≡ true → o ≡ some client
      aud_of none k = absurd (ground arith)
      aud_of (some aud) k = ap some ((eq_iff aud client).0 k)

      of_info :
          str_eq id_token "" ≡ false
          → (r : Reply TokenInfo) → token_info google id_token ≡ r
          → of_token_info google clean client access r ≡ identified sub email
          → IsAudience client (some id_token) × IsProfile access sub email
      of_info full (no_reply why) is e = absurd (ground arith)
      of_info full (reply info) is e =
          elim (Bool-cases (is_client client info.aud && is_issuer (present info.iss))) [
            | inl fine ↦ (
              for_client id_token info full is (aud_of info.aud (ground arith))
                  (is_issuer-IsIssuer info.iss (ground arith)),
              of_profile-IsProfile access sub email (rw fine at e),
            )
            | inr wrong ↦ absurd (let k = rw wrong at e in ground arith)
          ]

  pub google_identity-IsVouched :
      (client : Option String) (code sub email : String)
      → google_identity google clean client code ≡ identified sub email
      → IsVouched client code sub email
  unfolding google_identity
  google_identity-IsVouched none code sub email e = absurd (ground arith)
  google_identity-IsVouched (some client) code sub email e =
      of_exchange (exchange google code) refl e
    where
      of_parts :
          (tokens : GoogleTokens) (access : Option String)
          → exchange google code ≡ reply tokens
          → present tokens.access_token ≡ access
          → of_access google clean client access (present tokens.id_token) ≡ identified sub email
          → IsVouched (some client) code sub email
      of_parts tokens none exchanged is e = absurd (ground arith)
      of_parts tokens (some access) exchanged is e =
          let (audience, profile) = of_access-IsProfile client access sub email tokens.id_token e in
          record {
            client_id = client;
            configured = refl;
            tokens = tokens;
            exchanged = exchanged;
            access = access;
            access_token = (present-some tokens.access_token access is).0;
            gives_access = (present-some tokens.access_token access is).1;
            audience = audience;
            profile = profile;
          }

      of_exchange :
          (r : Reply GoogleTokens)
          → exchange google code ≡ r
          → of_tokens google clean client r ≡ identified sub email
          → IsVouched (some client) code sub email
      of_exchange (no_reply why) exchanged e = absurd (ground arith)
      of_exchange (reply tokens) exchanged e =
          of_parts tokens (present tokens.access_token) exchanged refl e

  IsProfile-of_profile :
      (access sub email : String)
      → IsProfile access sub email
      → of_profile google clean (userinfo google access) ≡ identified sub email
  IsProfile-of_profile access sub email p =
      rw (p.replied, p.subject, p.not_empty, p.given, p.cleaned_email, p.gives_email, p.verified)
        refl

  IsAudience-of_access :
      (client access sub email : String) (id_token : Option String)
      → IsProfile access sub email
      → IsAudience client id_token
      → of_access google clean client (some access) (present id_token) ≡ identified sub email
  IsAudience-of_access client access sub email _ p no_id_token =
      IsProfile-of_profile access sub email p
  IsAudience-of_access client access sub email _ p empty_id_token =
      IsProfile-of_profile access sub email p
  IsAudience-of_access client access sub email _ p (for_client id_token info full is aud iss) =
      rw (full, is, aud, (eq_iff client client).1 refl, IsIssuer-is_issuer info.iss iss)
        (IsProfile-of_profile access sub email p)

  -- Whom Google vouches for is identified.
  pub IsVouched-google_identity :
      (client : Option String) (code sub email : String)
      → IsVouched client code sub email
      → google_identity google clean client code ≡ identified sub email
  unfolding google_identity
  IsVouched-google_identity client code sub email v =
      rw (v.configured, v.exchanged, v.access_token, v.gives_access)
        (IsAudience-of_access v.client_id v.access sub email v.tokens.id_token v.profile v.audience)
