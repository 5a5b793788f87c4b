-- ===== src/Examples/Vault.antt =====
-- A vault with a cipher in plain text, where another request makes the user's key first.
use Prim.Native.Char.{code}
use Prim.Native.String.{String}
use mathlib.Core.Option
use job_hunters_api.Common.{ℕ, zero, suc, ◌≡◌, refl, ◌==◌, Option, none, some, [], if◌then◌else◌}
use job_hunters_api.Common.Dict.{get}
use job_hunters_api.Vault.{Crypto, IsCrypto, Vault, ok, master_key, seal, insert_key}
use job_hunters_api.Vault.Keys.{IsSound, IsOrderly, insert-IsSound}
use job_hunters_api.Vault.RoundTrip.{Around, encrypt_by, decrypt_by, decrypt-encrypt}

-- The version in strokes, a full stop, and the body.
abbrev print_strokes : ℕ → String → String
print_strokes zero body = String.◌∷◌ "." body
print_strokes (suc v) body = String.◌∷◌ "x" (print_strokes v body)

abbrev add_stroke : Option (ℕ × String) → Option (ℕ × String)
add_stroke none = none
add_stroke (some (v, body)) = some (suc v, body)

abbrev parse_strokes : String → Option (ℕ × String)
parse_strokes String.[] = none
parse_strokes (String.◌∷◌ c s) =
    if code c == b'.' then some (0, s) else add_stroke (parse_strokes s)

parse-print_strokes :
    (v : ℕ) (body : String) → parse_strokes (print_strokes v body) ≡ some (v, body)
parse-print_strokes zero body = refl
parse-print_strokes (suc v) body = rw (parse-print_strokes v body) refl

abbrev plain_text : Crypto
plain_text = record {
  Bytes = String;
  Body = String;
  Value = String;
  from_base64url = λ text. text;
  byte_length = λ bytes. 32;
  encrypt = λ key iv plain. plain;
  decrypt = λ key body. some body;
  print_envelope = print_strokes;
  parse_envelope = parse_strokes;
  print_value = λ value. value;
  parse_value = λ bytes. some bytes;
}

plain_text-IsCrypto : IsCrypto plain_text
plain_text-IsCrypto = record {
  decrypts = λ key iv plain. refl;
  envelopes = parse-print_strokes;
  values = λ value. refl;
}

abbrev secret : Option String
secret = some "secret"

configured : master_key plain_text secret ≡ ok "secret"
unfolding master_key
configured = refl

abbrev empty_vault : Vault plain_text
empty_vault = record { keys = []; cache = [] }

empty_vault-IsSound : IsSound plain_text secret empty_vault
unfolding get
empty_vault-IsSound = record {
  unwraps = λ user_id wrapped e. absurd (Option.none-ne-some wrapped e);
  stored = λ user_id dek e. absurd (Option.none-ne-some dek e);
}

abbrev rival : Vault plain_text → Vault plain_text
rival v = insert_key plain_text "ada" (seal plain_text "secret" "iv" "rival key" 1) v

rival-IsOrderly : IsOrderly plain_text secret rival
rival-IsOrderly v sound =
    let (after, keeps, there) =
      insert-IsSound plain_text secret plain_text-IsCrypto configured "ada" "iv" "rival key" v
        sound in
    (after, keeps)

abbrev raced : Around plain_text secret
raced = record {
  fresh = "own key";
  wrap_iv = "iv";
  others = rival;
  meanwhile = rival;
  orderly = rival-IsOrderly;
  orderly_then = rival-IsOrderly;
}

decrypt-encrypt_example :
    let sealed = encrypt_by plain_text secret raced "iv" "ada" "password" empty_vault in
    (text : String) × (sealed.0 ≡ ok text)
    × ((decrypt_by plain_text secret raced "ada" text (rival sealed.1)).0 ≡ ok "password")
decrypt-encrypt_example =
    decrypt-encrypt plain_text secret plain_text-IsCrypto configured raced raced rival
      rival-IsOrderly "iv" "ada" "password" empty_vault empty_vault-IsSound
