-- ===== src/Common/Text.antt =====
-- Text walked by code point: case folding and substring tests, as the patterns of the source
-- need them. A pattern under the `i` flag folds only ASCII letters.
use Prim.Native.Nat.{ℕ, ◌+◌}
use Prim.Native.Char.{code}
use Prim.Native.String.{String}
use mathlib.Core.Bool.{Bool, true, false, ◌&&◌, ◌||◌}
use mathlib.Core.List.{List, [], ◌∷◌}
use job_hunters_api.Common.Tests.{leb, ◌==◌, if◌then◌else◌}

abbrev pub codes : String → List ℕ
codes String.[] = []
codes (String.◌∷◌ c s) = code c ∷ codes s

abbrev pub lower : ℕ → ℕ
lower c = if leb b'A' c && leb c b'Z' then c + 32 else c

lowered : List ℕ → List ℕ
lowered [] = []
lowered (c ∷ cs) = lower c ∷ lowered cs

is_prefix : List ℕ → List ℕ → Bool
is_prefix [] cs = true
is_prefix (d ∷ ds) [] = false
is_prefix (d ∷ ds) (c ∷ cs) = d == c && is_prefix ds cs

has_part : List ℕ → List ℕ → Bool
has_part part [] = is_prefix part []
has_part part (c ∷ cs) = is_prefix part (c ∷ cs) || has_part part cs

-- `text.includes(part)`.
unfoldable pub includes : String → String → Bool
unfolding has_part is_prefix
includes part text = has_part (codes part) (codes text)

-- `/part/i.test(text)`, for a part with no special characters.
unfoldable pub includes_ignoring_case : String → String → Bool
unfolding has_part is_prefix lowered
includes_ignoring_case part text = has_part (lowered (codes part)) (lowered (codes text))

is_same : List ℕ → List ℕ → Bool
is_same [] [] = true
is_same (d ∷ ds) (c ∷ cs) = d == c && is_same ds cs
is_same _ _ = false

has_suffix : List ℕ → List ℕ → Bool
has_suffix part [] = is_same part []
has_suffix part (c ∷ cs) = is_same part (c ∷ cs) || has_suffix part cs

-- `text.endsWith(part)`.
unfoldable pub ends_with : String → String → Bool
unfolding has_suffix is_same
ends_with part text = has_suffix (codes part) (codes text)
