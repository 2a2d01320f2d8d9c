-- ===== src/Append/Tests.antt =====
-- The callback of src/common/options/modern/StringAppendCallback.cpp on three strings.
use cli_cpp.Prelude.{
  ◌≡◌, some, List, [], ◌∷◌, foldl, arith, Str, codes, ltb, ◌==◌, if◌then◌else◌, length,
}
use cli_cpp.CppString.{npos, find}
use cli_cpp.CppString.Fields.{fields}
use cli_cpp.Append.{append, get_strings}
use cli_cpp.Append.Strings.{decode, AllItems, get_strings-fields, get_strings-append}

get_strings-fields_example : get_strings (codes "a;;'';") ≡ (
    if find (codes "a;;'';") (codes ";") 0 == npos
    then some (if ltb 0 (length (codes "a;;'';")) then codes "a;;'';" ∷ [] else [])
    else some (decode (fields b';' (codes "a;;'';"))))
get_strings-fields_example = get_strings-fields (codes "a;;'';") (omega arith)

abbrev three_strings : List Str
three_strings = codes "a=1" ∷ [] ∷ codes "b~2" ∷ []

three_strings-AllItems : AllItems three_strings
three_strings-AllItems = ground arith

get_strings-append_example : get_strings (foldl append [] three_strings) ≡ some three_strings
get_strings-append_example =
    get_strings-append three_strings three_strings-AllItems (unfold append in omega arith)
