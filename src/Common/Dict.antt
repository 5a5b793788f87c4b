-- ===== src/Common/Dict.antt =====
-- A JavaScript `Map` with text keys, as an association list in the order of insertion.
use Prim.Native.String.{String}
use mathlib.Core.Path.{◌≡◌, refl}
use mathlib.Core.List.{List, [], ◌∷◌}
use mathlib.Core.Option.{Option, none, some}
use native.Mathlib.Omega.{arith}
use text.Mathlib.Text.{◌==◌}
use text.Mathlib.TextEquality.{eq_iff}
use job_hunters_api.Common.Tests.{if◌then◌else◌}

module _ {ℓ} {V : Type ℓ} where
  unfoldable pub get : String → List (String × V) → Option V
  get key [] = none
  get key ((k, v) ∷ entries) = if k == key then some v else get key entries

  unfoldable pub put : String → V → List (String × V) → List (String × V)
  put key v [] = (key, v) ∷ []
  put key v ((k, w) ∷ entries) = if k == key then (k, v) ∷ entries else (k, w) ∷ put key v entries

  -- `map.get(key) ?? absent`.
  unfoldable pub get_or : V → String → List (String × V) → V
  get_or absent key [] = absent
  get_or absent key ((k, v) ∷ entries) = if k == key then v else get_or absent key entries

  pub get_or-put :
      (absent v : V) (key other : String) (entries : List (String × V))
      → get_or absent other (put key v entries)
        ≡ (if key == other then v else get_or absent other entries)
  unfolding get_or put
  get_or-put absent v key other [] = refl
  get_or-put absent v key other ((k, w) ∷ entries) =
      ground (
        arith,
        eq_iff k key,
        eq_iff k other,
        eq_iff key other,
        get_or-put absent v key other entries,
      )

  pub get-put :
      (v : V) (key other : String) (entries : List (String × V))
      → get other (put key v entries) ≡ (if key == other then some v else get other entries)
  unfolding get put
  get-put v key other [] = refl
  get-put v key other ((k, w) ∷ entries) =
      ground (arith, eq_iff k key, eq_iff k other, eq_iff key other, get-put v key other entries)
