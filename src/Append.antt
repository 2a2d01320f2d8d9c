-- ===== src/Append.antt =====
-- StringAppendCallback: src/common/options/modern/StringAppendCallback.cpp and .h, which collects
-- the values of a repeated option in one text and takes it apart again.
pub mod Strings
mod Tests
use cli_cpp.Prelude.{
  ℕ, zero, suc, ◌+◌, ◌-◌, ◌*◌, ◌/◌, ◌%◌, ◌≤◌, ◌<◌, String, ◌≡◌, refl, sym, ap, ◌∙◌, subst, ◌≢◌, ◌↔◌,
  ◌⊎◌, inl, inr, Bool, true, false, not, ◌&&◌, ◌||◌, Option, none, some, List, [], ◌∷◌, ◌++◌, map,
  foldl, append-nil, append_assoc, arith, Str, codes, str_eq, str_lt, str_eq→eq, str_eq_refl,
  ne→str_eq, ltb, leb, ◌==◌, if◌then◌else◌, ltb→lt, lt→ltb, leb→le, le→leb, lt→leb_false, eq→==,
  ne→==, ==→eq, Bool-cases, Option-cases, length, take, drop, length-append, take-length_append,
  drop-length_append, take-all, length-drop-le, select, select-append, cons?,
}
use cli_cpp.CppString.{npos, add64, sub64, find, substr}

-- append(s)
unfoldable pub append : Str → Str → Str
append str s = if ltb 0 (length s) then (str ++ s) ++ codes ";" else str ++ codes "'';"

-- What one piece between semicolons adds to the result of getStrings.
unfoldable pub push_piece : Str → List Str → List Str
push_piece piece strings =
    if str_eq piece (codes "''")
    then [] ∷ strings
    else if ltb 0 (length piece)
    then piece ∷ strings
    else strings

-- The loop of getStrings, with the strings that it pushes from here on; `none` is an exception of
-- substr, or that the fuel ran out.
unfoldable pub collect : ℕ → Str → ℕ → ℕ → Option (List Str)
collect zero str colon_position start = none
collect (suc fuel) str colon_position start =
    let colon_position' = find str (codes ";") start in
    let rest = collect fuel str colon_position' (add64 colon_position' 1) in
    let length' = sub64 colon_position' start in
    if colon_position == npos then some [] else elim (substr str start length') [
      | none ↦ none
      | some piece ↦ elim rest [ none ↦ none | some strings ↦ some (push_piece piece strings) ]
    ]

-- getStrings(); each round but the last passes a semicolon, so the fuel is enough.
unfoldable pub get_strings : Str → Option (List Str)
unfolding collect
get_strings str =
    let colon_position = find str (codes ";") 0 in
    if not (colon_position == npos)
    then collect (length str + 3) str colon_position 0
    else if ltb 0 (length str)
    then some (str ∷ [])
    else some []
