-- ===== src/Vault.antt =====
-- src/lib/credential-vault.ts: the sealed credentials of a user, and the data key of each user that
-- is made on first use, wrapped under the master key and read back.
--
-- A vault is the table `user_keys` and the cache of one process. The cipher, base64url and JSON are
-- the interface `Crypto`; `iv`, `wrap_iv` and `fresh` are random bytes. While a call waits for the
-- database, other requests and processes change the vault: `others` is what they do before the
-- insert, `meanwhile` what they do before the key is read back. An error is a value, and the texts of
-- the errors are left out.
pub mod Keys
pub mod RoundTrip
use Prim.Native.String.{String}
use text.Mathlib.Text.{◌==◌ as str_eq}
use job_hunters_api.Common.{ℕ, ◌≡◌, ◌==◌, ◌||◌, Option, none, some, List, [], if◌then◌else◌}
use job_hunters_api.Common.Dict.{get, put}

pub data VaultError : Type 0 where
  not_configured wrong_key_length malformed unsupported_version not_authentic not_stored not_json :
      VaultError

pub data Result {ℓ} (A : Type ℓ) : Type ℓ where
  ok : A → Result A
  err : VaultError → Result A

infixl 5 ◌>>=◌
abbrev pub ◌>>=◌ {ℓ κ} : {A : Type ℓ} {B : Type κ} → Result A → (A → Result B) → Result B
ok a >>= f = f a
err e >>= f = err e

abbrev ok_or {ℓ} : {A : Type ℓ} → VaultError → Option A → Result A
ok_or e none = err e
ok_or e (some a) = ok a

-- `Body` has the initialisation vector, the tag and the ciphertext.
pub record Crypto : Type 1 where
  pub Bytes : Type 0
  pub Body : Type 0
  pub Value : Type 0
  pub from_base64url : String → Bytes
  pub byte_length : Bytes → ℕ
  pub encrypt : Bytes → Bytes → Bytes → Body  -- AES-256-GCM: the key, the vector, the text
  pub decrypt : Bytes → Body → Option Bytes
  pub print_envelope : ℕ → Body → String
  pub parse_envelope : String → Option (ℕ × Body)
  pub print_value : Value → Bytes
  pub parse_value : Bytes → Option Value

-- What was encrypted under a key is decrypted under it, and JSON reads back what it printed.
pub record IsCrypto (c : Crypto) : Type 0 where
  pub decrypts : (key iv plain : c.Bytes) → c.decrypt key (c.encrypt key iv plain) ≡ some plain
  pub envelopes :
      (v : ℕ) (body : c.Body) → c.parse_envelope (c.print_envelope v body) ≡ some (v, body)
  pub values : (value : c.Value) → c.parse_value (c.print_value value) ≡ some value

module _ (c : Crypto) where
  pub record Vault : Type 0 where
    pub keys : List (String × String)
    pub cache : List (String × c.Bytes)

  -- A missing and an empty setting are alike.
  abbrev decoded_key : Option String → Result c.Bytes
  decoded_key none = err not_configured
  decoded_key (some text) =
      if str_eq text "" then err not_configured else ok (c.from_base64url text)

  unfoldable pub master_key : Option String → Result c.Bytes
  master_key setting = decoded_key setting >>= λ key.
      if c.byte_length key == 32 then ok key else err wrong_key_length

  abbrev pub seal : c.Bytes → c.Bytes → c.Bytes → ℕ → String
  seal key iv plain version = c.print_envelope version (c.encrypt key iv plain)

  abbrev open_body : c.Bytes → ℕ × c.Body → Result c.Bytes
  open_body key (v, body) = ok_or not_authentic (c.decrypt key body)

  abbrev supported : ℕ × c.Body → Result (ℕ × c.Body)
  supported (v, body) = if (v == 1) || (v == 2) then ok (v, body) else err unsupported_version

  unfoldable pub parsed : String → Result (ℕ × c.Body)
  parsed encoded = ok_or malformed (c.parse_envelope encoded) >>= supported

  -- `open(masterKey(), parseEnvelope(wrapped))`.
  unfoldable pub unwrap : Option String → String → Result c.Bytes
  unfolding master_key parsed
  unwrap setting wrapped =
      master_key setting >>= λ key. parsed wrapped >>= λ envelope. open_body key envelope

  -- `dekCache.set`, where there is a key.
  abbrev pub cached : String → Result c.Bytes → Vault → Result c.Bytes × Vault
  cached user_id (ok dek) v = (ok dek, record v { cache = put user_id dek v.cache })
  cached user_id (err e) v = (err e, v)

  abbrev pub insert_unless : Option String → String → String → Vault → Vault
  insert_unless (some there) user_id wrapped v = v
  insert_unless none user_id wrapped v = record v { keys = put user_id wrapped v.keys }

  -- `insert … on conflict do nothing`, under the primary key.
  abbrev pub insert_key : String → String → Vault → Vault
  insert_key user_id wrapped v = insert_unless (get user_id v.keys) user_id wrapped v

  module _ (setting : Option String) where
    abbrev read_back : String → Option String → Vault → Result c.Bytes × Vault
    read_back user_id none v = (err not_stored, v)
    read_back user_id (some stored) v = cached user_id (unwrap setting stored) v

    module _ (fresh wrap_iv : c.Bytes) (others meanwhile : Vault → Vault) where
      abbrev pub create_key : String → Result c.Bytes → Vault → Result c.Bytes × Vault
      create_key user_id (err e) v = (err e, v)
      create_key user_id (ok key) v =
          let after = meanwhile (insert_key user_id (seal key wrap_iv fresh 1) (others v)) in
          read_back user_id (get user_id after.keys) after

      abbrev load_key : String → Option String → Vault → Result c.Bytes × Vault
      load_key user_id (some wrapped) v = cached user_id (unwrap setting wrapped) v
      load_key user_id none v = create_key user_id (master_key setting) v

      abbrev from_cache : String → Option c.Bytes → Vault → Result c.Bytes × Vault
      from_cache user_id (some dek) v = (ok dek, v)
      from_cache user_id none v = load_key user_id (get user_id v.keys) v

      unfoldable pub data_key_for : String → Vault → Result c.Bytes × Vault
      unfolding unwrap
      data_key_for user_id v = from_cache user_id (get user_id v.cache) v

      abbrev sealed_value : c.Bytes → c.Value → Result c.Bytes × Vault → Result String × Vault
      sealed_value iv value (key, v) = (key >>= λ dek. ok (seal dek iv (c.print_value value) 2), v)

      unfoldable pub encrypt_credential :
          (iv : c.Bytes) (user_id : String) → c.Value → Vault → Result String × Vault
      unfolding data_key_for
      encrypt_credential iv user_id value v = sealed_value iv value (data_key_for user_id v)

      abbrev pub opened : ℕ × c.Body → Result c.Bytes × Vault → Result c.Value × Vault
      opened envelope (key, v) =
          (key >>= λ k. open_body k envelope >>= λ plain. ok_or not_json (c.parse_value plain), v)

      -- A value of version 1 is sealed under the master key.
      abbrev key_of_version : ℕ → String → Vault → Result c.Bytes × Vault
      key_of_version version user_id v =
          if version == 1 then (master_key setting, v) else data_key_for user_id v

      abbrev decrypt_parsed : Result (ℕ × c.Body) → String → Vault → Result c.Value × Vault
      decrypt_parsed (err e) user_id v = (err e, v)
      decrypt_parsed (ok (version, body)) user_id v =
          opened (version, body) (key_of_version version user_id v)

      unfoldable pub decrypt_credential :
          (user_id encoded : String) → Vault → Result c.Value × Vault
      unfolding data_key_for parsed master_key
      decrypt_credential user_id encoded v = decrypt_parsed (parsed encoded) user_id v

  unfoldable pub clear_data_key_cache : Vault → Vault
  clear_data_key_cache v = record v { cache = [] }
