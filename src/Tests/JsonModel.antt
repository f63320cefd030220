-- ===== src/Tests/JsonModel.antt =====
-- A small JSON library that meets what the program relies on.
use conntop.Prelude.{
  ℕ, ◌^◌, ◌≡◌, refl, Bool, true, false, String, List, [], ◌∷◌, Option, none, some, find, ltb,
  lt→ltb, text_eq, if◌then◌else◌,
}
use conntop.Json.{JsonLib}

mutual
  pub data Json : Type 0 where
    text : String → Json
    int : ℕ → Json
    uint : ℕ → Json
    bool : Bool → Json
    obj : Members → Json
    arr : Items → Json

  pub data Items : Type 0 where
    stop : Items
    item : Json → Items → Items

  pub data Members : Type 0 where
    end : Members
    member : String → Json → Members → Members

abbrev items : List Json → Items
items [] = stop
items (v ∷ vs) = item v (items vs)

abbrev listed : Items → List Json
listed stop = []
listed (item v vs) = v ∷ listed vs

pub listed-items : (vs : List Json) → listed (items vs) ≡ vs
listed-items [] = refl
listed-items (v ∷ vs) = rw (listed-items vs)

abbrev elements_of : Json → List Json
elements_of (arr vs) = listed vs
elements_of _ = []

abbrev is_arr : Json → Bool
is_arr (arr vs) = true
is_arr _ = false

abbrev members : List (String × Json) → Members
members [] = end
members ((k, v) ∷ ms) = member k v (members ms)

abbrev look : String → Members → Option Json
look k end = none
look k (member j v ms) = if text_eq j k then some v else look k ms

pub look-members : (k : String) (ms : List (String × Json)) → look k (members ms) ≡ find k ms
look-members k [] = refl
look-members k ((j, v) ∷ ms) = rw (look-members k ms)

abbrev find_in : String → Json → Option Json
find_in k (obj ms) = look k ms
find_in k _ = none

abbrev is_obj : Json → Bool
is_obj (obj ms) = true
is_obj _ = false

abbrev is_text : Json → Bool
is_text (text s) = true
is_text _ = false

abbrev is_num : ℕ → ℕ → Json → Bool
is_num k l (int n) = ltb n (2 ^ k)
is_num k l (uint n) = ltb n (2 ^ l)
is_num k l _ = false

abbrev is_truth : Json → Bool
is_truth (bool b) = true
is_truth _ = false

abbrev text_of : Json → String
text_of (text s) = s
text_of _ = ""

abbrev number_of : Json → ℕ
number_of (int n) = n
number_of (uint n) = n
number_of _ = 0

abbrev truth_of : Json → Bool
truth_of (bool b) = b
truth_of _ = false

abbrev pub json : JsonLib
json = record {
  Value = Json;
  object = λ ms. obj (members ms);
  set_string = text;
  set_int = int;
  set_uint = uint;
  set_uint64 = uint;
  set_bool = bool;
  array = λ vs. arr (items vs);
  is_object = is_obj;
  is_string = is_text;
  is_int = is_num 32 31;
  is_uint = is_num 31 32;
  is_uint64 = is_num 31 64;
  is_bool = is_truth;
  is_array = is_arr;
  find_member = find_in;
  get_string = text_of;
  get_int = number_of;
  get_uint = number_of;
  get_uint64 = number_of;
  get_bool = truth_of;
  elements = elements_of;
  write = λ v. 123 ∷ [];
  object_lem = λ ms. refl;
  find_member-object = look-members;
  string_lem = λ s h. (refl, refl);
  int_lem = λ n h. (lt→ltb _ _ h, refl);
  uint_lem = λ n h. (lt→ltb _ _ h, refl);
  uint64_lem = λ n h. (lt→ltb _ _ h, refl);
  bool_lem = λ b. (refl, refl);
  array_lem = λ vs. (refl, listed-items vs);
}
