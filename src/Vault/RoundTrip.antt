-- ===== src/Vault/RoundTrip.antt =====
-- A credential of src/lib/credential-vault.ts that was sealed is opened again, also by another
-- process, and whichever request made the user's key.
use Prim.Native.String.{String}
use mathlib.Core.Option.{none-ne-some}
use job_hunters_api.Common.{◌≡◌, refl, Option}
use job_hunters_api.Common.Dict.{get}
use job_hunters_api.Vault.{
  Crypto, IsCrypto, Vault, Result, ok, master_key, unwrap, seal, parsed, data_key_for,
  encrypt_credential, decrypt_credential, clear_data_key_cache,
}
use job_hunters_api.Vault.Keys.{HasKey, IsSound, Keeps, IsOrderly, IsLoaded, data_key_for-IsLoaded}

module _ (c : Crypto) (setting : Option String) where
  -- The random bytes of a call, and what others do while it waits.
  pub record Around : Type 0 where
    pub fresh : c.Bytes
    pub wrap_iv : c.Bytes
    pub others : Vault c → Vault c
    pub meanwhile : Vault c → Vault c
    pub orderly : IsOrderly c setting others
    pub orderly_then : IsOrderly c setting meanwhile

  abbrev key_by : Around → String → Vault c → Result c.Bytes × Vault c
  key_by a user_id v = data_key_for c setting a.fresh a.wrap_iv a.others a.meanwhile user_id v

  abbrev pub encrypt_by : Around → c.Bytes → String → c.Value → Vault c → Result String × Vault c
  encrypt_by a iv user_id value v =
      encrypt_credential c setting a.fresh a.wrap_iv a.others a.meanwhile iv user_id value v

  abbrev pub decrypt_by : Around → String → String → Vault c → Result c.Value × Vault c
  decrypt_by a user_id encoded v =
      decrypt_credential c setting a.fresh a.wrap_iv a.others a.meanwhile user_id encoded v

  HasKey-unique :
      (user_id : String) (dek other : c.Bytes) (v : Vault c)
      → HasKey c setting user_id dek v
      → HasKey c setting user_id other v
      → dek ≡ other
  HasKey-unique user_id dek other v (w, row, opened) (w', row', opened') =
      let same : w ≡ w' = cc in let opens : unwrap c setting w' ≡ ok dek = rw same at opened in cc

  HasKey-Keeps :
      (user_id : String) {dek : c.Bytes} (v w : Vault c)
      → Keeps c setting v w
      → HasKey c setting user_id dek v
      → HasKey c setting user_id dek w
  HasKey-Keeps user_id v w keeps (wrapped, row, opened) =
      (wrapped, keeps user_id wrapped row, opened)

  module _ (crypto : IsCrypto c) {key : c.Bytes} (configured : master_key c setting ≡ ok key) where
    loads :
        (a : Around) (user_id : String) (v : Vault c)
        → IsSound c setting v
        → IsLoaded c setting crypto configured v user_id (key_by a user_id v)
    loads a user_id v sound =
        data_key_for-IsLoaded c setting crypto configured a.fresh a.wrap_iv a.others a.meanwhile
          a.orderly a.orderly_then user_id v sound

    parsed-seal :
        (dek iv plain : c.Bytes) → parsed c (seal c dek iv plain 2) ≡ ok (2, c.encrypt dek iv plain)
    unfolding parsed
    parsed-seal dek iv plain = rw crypto.envelopes refl

    -- Where a user's key is the one that a value was sealed under, the value is opened.
    decrypts-sealed :
        (a : Around) (user_id : String) (dek iv : c.Bytes) (value : c.Value) (v : Vault c)
        → IsSound c setting v
        → HasKey c setting user_id dek v
        → (decrypt_by a user_id (seal c dek iv (c.print_value value) 2) v).0 ≡ ok value
    unfolding decrypt_credential
    decrypts-sealed a user_id dek iv value v sound here =
        let loaded = loads a user_id v sound in
        let same =
          HasKey-unique user_id loaded.dek dek (key_by a user_id v).1 loaded.row
            (HasKey-Keeps user_id v (key_by a user_id v).1 loaded.keeps here) in
        rw (parsed-seal dek iv (c.print_value value))
          (rw loaded.given (rw same (rw crypto.decrypts (rw crypto.values refl))))

    -- A value that is encrypted for a user, from any vault in which every key can be unwrapped, is
    -- sealed without an error; and it is opened again as it was by any process, with a cache of its
    -- own, while other requests make keys of their own, also for this user, before a first key is
    -- inserted, before it is read back, and between the two calls.
    pub decrypt-encrypt :
        (a b : Around) (later : Vault c → Vault c) (between : IsOrderly c setting later)
        (iv : c.Bytes) (user_id : String) (value : c.Value) (v : Vault c)
        → IsSound c setting v
        → (text : String) × ((encrypt_by a iv user_id value v).0 ≡ ok text)
          × ((decrypt_by b user_id text (later (encrypt_by a iv user_id value v).1)).0 ≡ ok value)
    unfolding encrypt_credential
    decrypt-encrypt a b later between iv user_id value v sound =
        let loaded = loads a user_id v sound in
        let (sound_later, keeps) = between (key_by a user_id v).1 loaded.sound in
        (
          seal c loaded.dek iv (c.print_value value) 2,
          rw loaded.given refl,
          decrypts-sealed b user_id loaded.dek iv value (later (key_by a user_id v).1) sound_later (
              HasKey-Keeps user_id (key_by a user_id v).1 (later (key_by a user_id v).1) keeps
                loaded.row),
        )

    -- A value of version 1, sealed under the master key, is still opened, from any vault.
    decrypt-seal_v1 :
        (a : Around) (iv : c.Bytes) (user_id : String) (value : c.Value) (v : Vault c)
        → decrypt_by a user_id (seal c key iv (c.print_value value) 1) v ≡ (ok value, v)
    unfolding decrypt_credential parsed
    decrypt-seal_v1 a iv user_id value v =
        rw crypto.envelopes (rw configured (rw crypto.decrypts (rw crypto.values refl)))

  -- A cache that is cleared holds nothing that the table does not.
  clear_data_key_cache-IsSound :
      (v : Vault c) → IsSound c setting v → IsSound c setting (clear_data_key_cache c v)
  unfolding clear_data_key_cache get
  clear_data_key_cache-IsSound v sound = record {
    unwraps = sound.unwraps;
    stored = λ user_id dek e. absurd (none-ne-some dek e);
  }
