-- ===== src/Setter/Tests.antt =====
-- The OptionsSetter of src/common/options/OptionsHelper.h on short options.
use cli_cpp.Prelude.{
  ◌≡◌, refl, inl, some, List, [], ◌∷◌, ◌++◌, Str, codes, Option, true, false, arith, str_eq,
}
use cli_cpp.StrMap.{lookup}
use cli_cpp.Optparse.{Values, value_of, is_set}
use cli_cpp.Optparse.Numbers.{is_space}
use cli_cpp.CppString.Fields.{fields}
use cli_cpp.Setter.Split.{kept, split-fields}
use cli_cpp.Setter.{split, set_map, get_content}
use cli_cpp.Setter.Maps.{render, AllPairs, inserted, set_map-render}
use cli_cpp.Setter.Content.{IsWord, get_content-last}

abbrev two_pairs : List (Str × Str)
two_pairs = (codes "k", codes "1") ∷ (codes "l", codes "2") ∷ []

abbrev pairs_given : Values
pairs_given = record {
  values = (codes "map", render two_pairs) ∷ [];
  append_map = [];
  user_set = [];
}

map_is_set : is_set (codes "map") pairs_given ≡ true
unfolding is_set str_eq
map_is_set = refl

map_value : value_of (codes "map") pairs_given ≡ render two_pairs
unfolding value_of lookup str_eq
map_value = refl

value_not_empty : (str_eq (codes "1") [] ≡ false) × (str_eq (codes "2") [] ≡ false)
unfolding str_eq
value_not_empty = (refl, refl)

two_pairs-AllPairs : AllPairs two_pairs
two_pairs-AllPairs = (
  record {
    key_colon = ground arith;
    key_semicolon = ground arith;
    value_colon = ground arith;
    value_semicolon = ground arith;
    value_given = value_not_empty.0;
    short = omega arith;
  },
  (
    record {
      key_colon = ground arith;
      key_semicolon = ground arith;
      value_colon = ground arith;
      value_semicolon = ground arith;
      value_given = value_not_empty.1;
      short = omega arith;
    },
    tt,
  ),
)

set_map-render_example :
    set_map (codes "map") pairs_given (codes ";") (codes ":") (λ m old. m) []
    ≡ inserted two_pairs []
set_map-render_example =
    set_map-render (codes "map") pairs_given (λ m old. m) [] (codes "k", codes "1")
      ((codes "l", codes "2") ∷ []) map_is_set map_value two_pairs-AllPairs (omega arith)

abbrev file_given : Values
file_given = record {
  values = (codes "msg-content-from-file", codes "f") ∷ [];
  append_map = [];
  user_set = [];
}

abbrev one_file : Str → Option Str
one_file name = some (codes "hello big" ++ b' ' ∷ codes "world")

no_content : is_set (codes "msg-content") file_given ≡ false
unfolding is_set str_eq
no_content = refl

file_is_set : is_set (codes "msg-content-from-file") file_given ≡ true
unfolding is_set str_eq
file_is_set = refl

world-IsWord : IsWord (codes "world")
unfolding is_space
world-IsWord = (refl, (refl, (refl, (refl, (refl, tt)))))

get_content-last_example : get_content one_file file_given ≡ inl (codes "world")
get_content-last_example =
    get_content-last one_file file_given (codes "hello big") b'w' (codes "orld") no_content
      file_is_set refl world-IsWord

split-fields_example : split (codes "a,,b,") (b',' ∷ []) ≡ kept (fields b',' (codes "a,,b,"))
split-fields_example = split-fields (codes "a,,b,") b',' (omega arith)
