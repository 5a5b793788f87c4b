-- ===== src/Vault/Keys.antt =====
-- The data keys of src/lib/credential-vault.ts: every call gives the key that the row of the user wraps,
-- whichever request made it.
use Prim.Native.String.{String}
use text.Mathlib.Text.{◌==◌ as str_eq}
use text.Mathlib.TextEquality.{eq_iff}
use mathlib.Core.Option.{none-ne-some}
use job_hunters_api.Common.{
  ◌≡◌, refl, sym, ◌∙◌, ◌⊎◌, Option, none, some, Option-cases, Bool-cases, inl, inr,
}
use job_hunters_api.Common.Dict.{get, put, get-put}
use job_hunters_api.Vault.{
  Crypto, IsCrypto, Vault, Result, ok, master_key, unwrap, seal, parsed, insert_key, insert_unless,
  cached, create_key, data_key_for,
}

module _ (c : Crypto) (setting : Option String) where
  -- The row of a user, and the key that it wraps.
  abbrev pub HasKey : String → c.Bytes → Vault c → Type 0
  HasKey user_id dek v =
      (wrapped : String) × (get user_id v.keys ≡ some wrapped) × (unwrap c setting wrapped ≡ ok dek)

  -- Every row can be unwrapped, and what is cached is what the row of the user wraps.
  pub record IsSound (v : Vault c) : Type 0 where
    pub unwraps :
        (user_id wrapped : String)
        → get user_id v.keys ≡ some wrapped
        → (dek : c.Bytes) × (unwrap c setting wrapped ≡ ok dek)
    pub stored :
        (user_id : String) (dek : c.Bytes) → get user_id v.cache ≡ some dek → HasKey user_id dek v

  abbrev pub Keeps : Vault c → Vault c → Type 0
  Keeps v w =
      (user_id wrapped : String)
      → get user_id v.keys ≡ some wrapped
      → get user_id w.keys ≡ some wrapped

  -- Other requests and processes add users' keys and change what is cached, and replace no key.
  abbrev pub IsOrderly : (Vault c → Vault c) → Type 0
  IsOrderly others = (v : Vault c) → IsSound v → IsSound (others v) × Keeps v (others v)

  move_key :
      {user_id other : String} {dek key : c.Bytes} (v : Vault c)
      → user_id ≡ other
      → dek ≡ key
      → HasKey user_id dek v
      → HasKey other key v
  move_key v same alike (wrapped, row, opened) = (wrapped, rw (← same) row, opened ∙ rw alike refl)

  cache-IsSound :
      (user_id : String) (dek : c.Bytes) (v : Vault c)
      → IsSound v
      → HasKey user_id dek v
      → IsSound (record v { cache = put user_id dek v.cache })
  cache-IsSound user_id dek v sound here = record {
    unwraps = sound.unwraps;
    stored = λ other key e. elim (Bool-cases (str_eq user_id other)) [
      | inl same ↦
          let put_here = rw same at (sym (get-put dek user_id other v.cache) ∙ e) in
          move_key v ((eq_iff user_id other).0 same) (cc) here
      | inr different ↦
          sound.stored other key (rw different at (sym (get-put dek user_id other v.cache) ∙ e))
    ];
  }

  module _ (crypto : IsCrypto c) {key : c.Bytes} (configured : master_key c setting ≡ ok key) where
    unwrap-seal : (iv dek : c.Bytes) → unwrap c setting (seal c key iv dek 1) ≡ ok dek
    unfolding unwrap parsed
    unwrap-seal iv dek = rw configured (rw crypto.envelopes (rw crypto.decrypts refl))

    -- A row that an insert leaves at a free key.
    row_of_put :
        (user_id other text wrapped : String) (v : Vault c)
        → get other (put user_id text v.keys) ≡ some wrapped
        → (wrapped ≡ text) ⊎ (get other v.keys ≡ some wrapped)
    row_of_put user_id other text wrapped v e = elim (Bool-cases (str_eq user_id other)) [
      | inl same ↦
          let put_here = rw same at (sym (get-put text user_id other v.keys) ∙ e) in inl (cc)
      | inr different ↦ inr (rw different at (sym (get-put text user_id other v.keys) ∙ e))
    ]

    put-Keeps :
        (user_id text : String) (v : Vault c)
        → get user_id v.keys ≡ none
        → Keeps v (record v { keys = put user_id text v.keys })
    put-Keeps user_id text v free other wrapped e = elim (Bool-cases (str_eq user_id other)) [
      | inl same ↦
          let there : user_id ≡ other = (eq_iff user_id other).0 same in
          absurd (none-ne-some wrapped (sym (rw there at free) ∙ e))
      | inr different ↦ get-put text user_id other v.keys ∙ rw different e
    ]

    inserted-IsSound :
        (user_id : String) (iv dek : c.Bytes) (v : Vault c)
        → IsSound v
        → get user_id v.keys ≡ none
        → let w = insert_unless c none user_id (seal c key iv dek 1) v in
          IsSound w × Keeps v w × ((wrapped : String) × (get user_id w.keys ≡ some wrapped))
    inserted-IsSound user_id iv dek v sound free =
        let text = seal c key iv dek 1 in
        let kept = put-Keeps user_id text v free in
        (
          record {
            unwraps = λ other wrapped e. elim (row_of_put user_id other text wrapped v e) [
              | inl made ↦ (dek, rw made (unwrap-seal iv dek))
              | inr old ↦ sound.unwraps other wrapped old
            ];
            stored = λ other dek' e.
                let (wrapped, row, opened) = sound.stored other dek' e in
                (wrapped, kept other wrapped row, opened);
          },
          kept,
          (text, get-put text user_id user_id v.keys ∙ rw ((eq_iff user_id user_id).1 refl)),
        )

    pub insert-IsSound :
        (user_id : String) (iv dek : c.Bytes) (v : Vault c)
        → IsSound v
        → IsSound (insert_key c user_id (seal c key iv dek 1) v)
          × Keeps v (insert_key c user_id (seal c key iv dek 1) v)
          × ((wrapped : String) × (get user_id (insert_key c user_id (seal c key iv dek 1) v).keys
                ≡ some wrapped))
    insert-IsSound user_id iv dek v sound = elim (Option-cases (get user_id v.keys)) [
      | inl free ↦ rw free (inserted-IsSound user_id iv dek v sound free)
      | inr (there, row) ↦ rw row (sound, (λ other wrapped e. e), (there, row))
    ]

    -- A call that gives the user's key: what it wraps is in the row of the user.
    pub record IsLoaded (before : Vault c) (user_id : String) (r : Result c.Bytes × Vault c)
        : Type 0 where
      pub dek : c.Bytes
      pub given : r.0 ≡ ok dek
      pub row : HasKey user_id dek r.1
      pub sound : IsSound r.1
      pub keeps : Keeps before r.1

    cached-IsLoaded :
        (user_id wrapped : String) (v : Vault c)
        → IsSound v
        → get user_id v.keys ≡ some wrapped
        → IsLoaded v user_id (cached c user_id (unwrap c setting wrapped) v)
    cached-IsLoaded user_id wrapped v sound row =
        let (dek, opened) = sound.unwraps user_id wrapped row in
        rw opened (record {
          dek = dek;
          given = refl;
          row = (wrapped, row, opened);
          sound = cache-IsSound user_id dek v sound (wrapped, row, opened);
          keeps = λ other text e. e;
        })

    IsLoaded-after :
        {v w : Vault c} {user_id : String} {r : Result c.Bytes × Vault c}
        → Keeps v w
        → IsLoaded w user_id r
        → IsLoaded v user_id r
    IsLoaded-after keeps loaded = record {
      dek = loaded.dek;
      given = loaded.given;
      row = loaded.row;
      sound = loaded.sound;
      keeps = λ other text e. loaded.keeps other text (keeps other text e);
    }

    module _ (fresh wrap_iv : c.Bytes) (others meanwhile : Vault c → Vault c)
        (orderly : IsOrderly others) (orderly_then : IsOrderly meanwhile) where
      created-IsLoaded :
          (user_id : String) (v : Vault c)
          → IsSound v
          → IsLoaded v user_id
              (create_key c setting fresh wrap_iv others meanwhile user_id (ok key) v)
      created-IsLoaded user_id v sound =
          let (sound_1, keeps_1) = orderly v sound in
          let (sound_2, keeps_2, (wrapped, row)) =
            insert-IsSound user_id wrap_iv fresh (others v) sound_1 in
          let inserted = insert_key c user_id (seal c key wrap_iv fresh 1) (others v) in
          let (sound_3, keeps_3) = orderly_then inserted sound_2 in
          let there = keeps_3 user_id wrapped row in
          rw there (
            IsLoaded-after
              (λ other text e. keeps_3 other text (keeps_2 other text (keeps_1 other text e)))
              (cached-IsLoaded user_id wrapped (meanwhile inserted) sound_3 there))

      pub data_key_for-IsLoaded :
          (user_id : String) (v : Vault c)
          → IsSound v
          → IsLoaded v user_id (data_key_for c setting fresh wrap_iv others meanwhile user_id v)
      unfolding data_key_for
      data_key_for-IsLoaded user_id v sound = elim (Option-cases (get user_id v.cache)) [
        | inr (dek, kept) ↦ rw kept (record {
          dek = dek;
          given = refl;
          row = sound.stored user_id dek kept;
          sound = sound;
          keeps = λ other text e. e;
        })
        | inl no_copy ↦ rw no_copy (elim (Option-cases (get user_id v.keys)) [
          | inr (wrapped, row) ↦ rw row (cached-IsLoaded user_id wrapped v sound row)
          | inl no_row ↦ rw no_row (rw configured (created-IsLoaded user_id v sound))
        ])
      ]
