-- ===== src/Prelude/Text.antt =====
-- Text: a `KString` or `std::string` that is only compared is a native `String`, and a
-- `std::map<KString, V>` that is filled once is an association list.
use Prim.Native.String.{String}
use text.Mathlib.Text.{◌==◌ as str_eq}
use mathlib.Core.Bool.{Bool}
use mathlib.Core.List.{List, [], ◌∷◌}
use mathlib.Core.Option.{Option, none, some}
use conntop.Prelude.Tests.{if◌then◌else◌}

abbrev pub text_eq : String → String → Bool
text_eq a b = str_eq a b

-- `map.find(key)`: the value under the key, `none` for `map.end()`.
abbrev pub find {ℓ} : {V : Type ℓ} → String → List (String × V) → Option V
find k [] = none
find k ((j, v) ∷ m) = if text_eq j k then some v else find k m
