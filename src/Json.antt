-- ===== src/Json.antt =====
-- What the program calls of RapidJSON (vendored in Library/RapidJSON, not modelled): a parameter.
-- A document that the program builds is an object of members in the order of `AddMember`. An `int`
-- is its 32-bit pattern.
use conntop.Prelude.{
  ℕ, ◌<◌, ◌^◌, ◌≡◌, Bool, true, false, String, List, [], ◌∷◌, Option, none, some, find,
  if◌then◌else◌, ◌==◌,
}
use Prim.Native.Char.{code}

abbrev pub has_nul : String → Bool
has_nul String.[] = false
has_nul (String.◌∷◌ c s) = if code c == 0 then true else has_nul s

pub record JsonLib : Type 1 where
  pub Value : Type 0
  pub object : List (String × Value) → Value
  pub set_string : String → Value
  pub set_int : ℕ → Value
  pub set_uint : ℕ → Value
  pub set_uint64 : ℕ → Value
  pub set_bool : Bool → Value
  -- An array, by `PushBack` of its elements.
  pub array : List Value → Value
  pub is_object : Value → Bool
  pub is_string : Value → Bool
  pub is_int : Value → Bool
  pub is_uint : Value → Bool
  pub is_uint64 : Value → Bool
  pub is_bool : Value → Bool
  pub is_array : Value → Bool
  -- `FindMember` is for objects: of any other value, what it gives says nothing of the program.
  pub find_member : String → Value → Option Value
  pub get_string : Value → String
  pub get_int : Value → ℕ
  pub get_uint : Value → ℕ
  pub get_uint64 : Value → ℕ
  pub get_bool : Value → Bool
  -- From `Begin` to `End`.
  pub elements : Value → List Value
  -- The text that `Writer` makes of a document.
  pub write : Value → List ℕ
  pub object_lem : (ms : List (String × Value)) → is_object (object ms) ≡ true
  pub find_member-object :
      (k : String) (ms : List (String × Value)) → find_member k (object ms) ≡ find k ms
  -- `GetString` points at a C string, which a NUL would cut short.
  pub string_lem :
      (s : String)
      → has_nul s ≡ false
      → (is_string (set_string s) ≡ true) × (get_string (set_string s) ≡ s)
  pub int_lem : (n : ℕ) → n < 2 ^ 32 → (is_int (set_int n) ≡ true) × (get_int (set_int n) ≡ n)
  pub uint_lem : (n : ℕ) → n < 2 ^ 32 → (is_uint (set_uint n) ≡ true) × (get_uint (set_uint n) ≡ n)
  pub uint64_lem :
      (n : ℕ) → n < 2 ^ 64 → (is_uint64 (set_uint64 n) ≡ true) × (get_uint64 (set_uint64 n) ≡ n)
  pub bool_lem : (b : Bool) → (is_bool (set_bool b) ≡ true) × (get_bool (set_bool b) ≡ b)
  pub array_lem : (vs : List Value) → (is_array (array vs) ≡ true) × (elements (array vs) ≡ vs)

-- A value, or the text of the `std::invalid_argument` that was thrown, as the pieces that make it up.
pub data Result {ℓ} (A : Type ℓ) : Type ℓ where
  ok : A → Result A
  err : List String → Result A

infixl 5 ◌>>=◌
abbrev pub ◌>>=◌ {ℓ κ} : {A : Type ℓ} {B : Type κ} → Result A → (A → Result B) → Result B
ok a >>= f = f a
err e >>= f = err e

-- `it == MemberEnd()` throws one text, a value of the wrong type another.
abbrev pub require {ℓ κ} :
    {V : Type ℓ} {A : Type κ} → (V → Bool) → (V → A) → String → String → Option V → Result A
require is get missing invalid none = err (missing ∷ [])
require is get missing invalid (some v) = if is v then ok (get v) else err (invalid ∷ [])
