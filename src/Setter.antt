-- ===== src/Setter.antt =====
-- OptionsSetter: src/common/options/OptionsHelper.h and .cpp, with the setters of src/common/BeanUtils.h, split and
-- convertToMap of src/common/STLUtils.h and the conversions of the class Value of
-- src/contrib/optparse/OptionParser.h. A bean of type M and its setter are parameters; what a
-- file holds is a parameter of get_content. Maps keep the order of the insertions.
pub mod Split
pub mod Maps
pub mod Ranges
pub mod Content
mod Tests
use cli_cpp.Prelude.{
  ℕ, zero, suc, ◌+◌, ◌-◌, ◌*◌, ◌/◌, ◌%◌, ◌≤◌, ◌<◌, String, ◌≡◌, refl, sym, ap, ◌∙◌, subst, ◌≢◌, ◌↔◌,
  ◌⊎◌, inl, inr, Bool, true, false, not, ◌&&◌, ◌||◌, Option, none, some, List, [], ◌∷◌, ◌++◌, map,
  foldl, append-nil, append_assoc, arith, Str, codes, str_eq, ltb, leb, ◌==◌, if◌then◌else◌, length,
  take, drop,
}
use cli_cpp.Prelude.Int.{ℤ, pos, negsuc, ltb_ℤ}
use cli_cpp.CppString.{npos, pos_or_npos}
use cli_cpp.StrMap.{insert}
use cli_cpp.Optparse.{Values, value_of, is_set}
use cli_cpp.Optparse.Numbers.{read_long, is_space, skip_spaces, signed_digits}

-- Values::get: the text of a Value, or one that is not valid
unfoldable pub get : Str → Values → Option Str
get name vs = if is_set name vs then some (value_of name vs) else none

-- Value as a long
unfoldable pub as_long : Option Str → ℤ
as_long none = pos 0
as_long (some s) = elim (read_long s) [ none ↦ pos 0 | some n ↦ n ]

-- Value as an int: a number out of range fails to be read.
unfoldable pub as_int : Option Str → ℤ
as_int none = pos 0
as_int (some s) = elim (read_long s) [
  | none ↦ pos 0
  | some n ↦ if ltb_ℤ n (negsuc 2147483647) || ltb_ℤ (pos 2147483647) n then pos 0 else n
]

-- Value as an unsigned long: a minus sign wraps around.
unfoldable pub as_ulong : Option Str → ℕ
unfolding skip_spaces signed_digits
as_ulong none = 0
as_ulong (some s) =
    signed_digits 0
      (λ negative n.
        if leb n 18446744073709551615
        then (if negative && not (n == 0) then 18446744073709551616 - n else n)
        else 0)
      (skip_spaces s)

-- The position of the first byte, from pos on, that is one of sep.
unfoldable pub one_of : Str → ℕ → Bool
one_of [] c = false
one_of (p ∷ ps) c = p == c || one_of ps c

unfoldable pub scan_any : Str → Str → ℕ → Option ℕ
unfolding one_of
scan_any sep [] i = none
scan_any sep (x ∷ xs) i =
    let rest = scan_any sep xs (suc i) in if one_of sep x then some i else rest

-- s.find_first_of(sep, pos)
unfoldable pub find_first_of : Str → Str → ℕ → ℕ
unfolding scan_any
find_first_of s sep i = if leb i (length s) then pos_or_npos (scan_any sep (drop i s) i) else npos

-- split: the parts from the position curr on, on fuel; both substr are within the text.
unfoldable pub split_from : ℕ → Str → Str → ℕ → List Str
split_from zero input sep curr = []
split_from (suc fuel) input sep curr =
    let next = find_first_of input sep curr in
    let rest = split_from fuel input sep (next + 1) in
    if next == npos
    then (if curr == 0 || ltb curr (length input) then drop curr input ∷ [] else [])
    else take (next - curr) (drop curr input) ∷ rest

unfoldable pub split : Str → Str → List Str
unfolding split_from
split input sep = split_from (suc (length input)) input sep 0

-- convertToMap, for at least one part; none gives no pair, where the source reads out of bounds.
unfoldable pub convert_to_map : List Str → List (Str × Str) → List (Str × Str)
convert_to_map [] output = output
convert_to_map (key ∷ []) output = output
convert_to_map (key ∷ (value ∷ l)) output = convert_to_map l (insert key value output)

unfoldable pub convert_properties_to_map : List Str → Str → List (Str × Str) → List (Str × Str)
unfolding convert_to_map split
convert_properties_to_map [] sep output = output
convert_properties_to_map (p ∷ l) sep output =
    convert_properties_to_map l sep (convert_to_map (split p sep) output)

-- The while loop of getContent over what is left of the file: `stream >> content` skips spaces and reads a word; if
-- there is none, the content stays. On fuel.
unfoldable pub drop_spaces : Str → Str
drop_spaces [] = []
drop_spaces (c ∷ s) = let rest = drop_spaces s in if is_space c then rest else c ∷ s

unfoldable pub word : Str → Str × Str
word [] = ([], [])
word (c ∷ s) = let r = word s in if is_space c then ([], c ∷ s) else (c ∷ r.0, r.1)

unfoldable pub read_words : ℕ → Str → Str → Str
unfolding drop_spaces word
read_words zero content file = content
read_words (suc fuel) content file = elim (drop_spaces file) [
  | [] ↦ content
  | c ∷ s ↦ let r = word (c ∷ s) in elim r.1 [ [] ↦ r.0 | d ∷ t ↦ read_words fuel r.0 (d ∷ t) ]
]

module _ (file : Str → Option Str) where
  -- getContent, with what is in the file of a name; `inr` is the IOException.
  unfoldable pub get_content : Values → Str ⊎ Str
  unfolding read_words
  get_content vs =
      if is_set (codes "msg-content") vs
      then inl (value_of (codes "msg-content") vs)
      else if is_set (codes "msg-content-from-file") vs
      then elim (file (value_of (codes "msg-content-from-file") vs)) [
        | none ↦ inr (
            codes "The file "
            ++ (value_of (codes "msg-content-from-file") vs ++ codes " does not exist"))
        | some s ↦ inl (read_words (suc (length s)) [] s)
      ]
      else inl []

module _ {ℓ} {M : Type ℓ} (name : Str) (vs : Values) where
  -- set(name, obj, setter)
  unfoldable pub set : (Str → M → M) → M → M
  set setter obj = if is_set name vs then setter (value_of name vs) obj else obj

  -- The same with a normalizer
  unfoldable pub set_normalized {κ} : {K : Type κ} → (Str → K) → (K → M → M) → M → M
  set_normalized normalizer setter obj =
      if is_set name vs then setter (normalizer (value_of name vs)) obj else obj

  -- setNumber with a default, for a conversion of Value
  unfoldable pub set_number_or {κ} : {K : Type κ} → (Option Str → K) → K → (K → M → M) → M → M
  unfolding get
  set_number_or convert default_value setter obj =
      if is_set name vs then setter (convert (get name vs)) obj else setter default_value obj

  -- setNumber
  unfoldable pub set_number : (ℤ → M → M) → M → M
  unfolding as_int get
  set_number setter obj = if is_set name vs then setter (as_int (get name vs)) obj else obj

  -- setBoolean
  unfoldable pub set_boolean : (Bool → M → M) → M → M
  set_boolean setter obj =
      if is_set name vs
      then (let value = value_of name vs in
          setter
            (str_eq value (codes "yes")
              || (str_eq value (codes "true") || str_eq value (codes "True")))
            obj)
      else obj

  -- setMap
  unfoldable pub set_map : Str → Str → (List (Str × Str) → M → M) → M → M
  unfolding split convert_properties_to_map
  set_map key_sep property_sep setter obj =
      if is_set name vs
      then setter (convert_properties_to_map (split (value_of name vs) key_sep) property_sep []) obj
      else obj

  -- setMap with a normalizer
  unfoldable pub set_map_normalized {κ} :
      {K : Type κ} → (List (Str × Str) → K) → Str → Str → (K → M → M) → M → M
  unfolding split convert_properties_to_map
  set_map_normalized normalizer key_sep property_sep setter obj =
      if is_set name vs
      then setter
          (normalizer
            (convert_properties_to_map (split (value_of name vs) key_sep) property_sep []))
          obj
      else obj

  -- setList
  unfoldable pub set_list {κ} : {K : Type κ} → (List Str → K) → Str → (K → M → M) → M → M
  unfolding split
  set_list normalizer key_sep setter obj =
      if is_set name vs then setter (normalizer (split (value_of name vs) key_sep)) obj else obj

-- setMap into a map that is there
unfoldable pub set_map_output : Str → Values → Str → Str → List (Str × Str) → List (Str × Str)
unfolding split convert_properties_to_map
set_map_output name vs key_sep property_sep output =
    if is_set name vs
    then convert_properties_to_map (split (value_of name vs) key_sep) property_sep output
    else output
