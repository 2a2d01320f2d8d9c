-- ===== src/Setter/Maps.antt =====
-- The maps that OptionsSetter of src/common/options/OptionsHelper.h reads from texts like key1:123;key2:764.
use cli_cpp.Prelude.{
  ◌<◌, ◌≡◌, refl, ap, ◌∙◌, true, false, List, [], ◌∷◌, ◌++◌, map, arith, Str, codes, str_eq, length,
}
use cli_cpp.CppString.{npos}
use cli_cpp.CppString.Find.{Free, Free-append}
use cli_cpp.CppString.Fields.{fields, fields-Free, fields-append}
use cli_cpp.StrMap.{insert}
use cli_cpp.Optparse.{Values, value_of, is_set}
use cli_cpp.Client.Segments.{trimmed}
use cli_cpp.Setter.{split, convert_to_map, convert_properties_to_map, set_map}
use cli_cpp.Setter.Split.{kept, split-fields}

abbrev pub pair_text : Str × Str → Str
pair_text (k, v) = k ++ b':' ∷ v

-- The text of a list of pairs.
abbrev pub render : List (Str × Str) → Str
render [] = []
render (p ∷ []) = pair_text p
render (p ∷ (q ∷ l)) = pair_text p ++ b';' ∷ render (q ∷ l)

-- A pair that can be read back: no separator in it, and a value that is not empty.
pub record IsPair (p : Str × Str) : Type 0 where
  pub key_colon : Free b':' p.0
  pub key_semicolon : Free b';' p.0
  pub value_colon : Free b':' p.1
  pub value_semicolon : Free b';' p.1
  pub value_given : str_eq p.1 [] ≡ false
  pub short : length (pair_text p) < npos

abbrev pub AllPairs : List (Str × Str) → Type 0
AllPairs [] = Unit
AllPairs (p ∷ l) = IsPair p × AllPairs l

-- The map with the pairs inserted in their order.
abbrev pub inserted : List (Str × Str) → List (Str × Str) → List (Str × Str)
inserted [] m = m
inserted (p ∷ l) m = inserted l (insert p.0 p.1 m)

pair_text-Free : (p : Str × Str) → IsPair p → Free b';' (pair_text p)
pair_text-Free (k, v) h =
    Free-append b';' k (b':' ∷ v) h.key_semicolon (ground arith, h.value_semicolon)

fields-render :
    (p : Str × Str) (l : List (Str × Str))
    → AllPairs (p ∷ l)
    → fields b';' (render (p ∷ l)) ≡ map pair_text (p ∷ l)
fields-render p [] h = fields-Free b';' (pair_text p) (pair_text-Free p h.0)
fields-render p (q ∷ l) h =
    fields-append b';' (pair_text p) (render (q ∷ l)) (pair_text-Free p h.0)
    ∙ ap (◌∷◌ (pair_text p)) (fields-render q l h.1)

pair_text-given : (p : Str × Str) → str_eq (pair_text p) [] ≡ false
unfolding str_eq
pair_text-given ([], v) = refl
pair_text-given (c ∷ k, v) = refl

trimmed-pairs :
    (p : Str × Str) (l : List (Str × Str)) → trimmed (map pair_text (p ∷ l)) ≡ map pair_text (p ∷ l)
trimmed-pairs p [] = rw (pair_text-given p) refl
trimmed-pairs p (q ∷ l) = ap (◌∷◌ (pair_text p)) (trimmed-pairs q l)

kept-pairs :
    (p : Str × Str) (l : List (Str × Str)) → kept (map pair_text (p ∷ l)) ≡ map pair_text (p ∷ l)
kept-pairs p [] = refl
kept-pairs p (q ∷ l) = ap (◌∷◌ (pair_text p)) (trimmed-pairs q l)

split-pair_text : (p : Str × Str) → IsPair p → split (pair_text p) (codes ":") ≡ p.0 ∷ p.1 ∷ []
split-pair_text (k, v) h =
    split-fields (pair_text (k, v)) b':' h.short
    ∙ (rw (fields-append b':' k v h.key_colon, fields-Free b':' v h.value_colon, h.value_given)
        refl)

convert-pairs :
    (l m : List (Str × Str))
    → AllPairs l
    → convert_properties_to_map (map pair_text l) (codes ":") m ≡ inserted l m
unfolding convert_properties_to_map
convert-pairs [] m h = refl
convert-pairs (p ∷ l) m h =
    ap (λ parts. convert_properties_to_map (map pair_text l) (codes ":") (convert_to_map parts m))
      (split-pair_text p h.0)
    ∙ convert-pairs l (insert p.0 p.1 m) h.1

-- An option that is given as pairs of keys and values, written with a colon in each and a semicolon between them,
-- reaches the setter as the map with these pairs inserted in their order. No key or value has a separator in it, no
-- value is empty, and the texts are shorter than npos.
pub set_map-render :
    {M : Type 0} (name : Str) (vs : Values) (setter : List (Str × Str) → M → M) (obj : M)
    (p : Str × Str) (l : List (Str × Str))
    → is_set name vs ≡ true
    → value_of name vs ≡ render (p ∷ l)
    → AllPairs (p ∷ l)
    → length (render (p ∷ l)) < npos
    → set_map name vs (codes ";") (codes ":") setter obj ≡ setter (inserted (p ∷ l) []) obj
unfolding set_map
set_map-render name vs setter obj p l given e h b =
    let parts : split (value_of name vs) (codes ";") ≡ map pair_text (p ∷ l) =
      ap (λ s. split s (codes ";")) e
      ∙ split-fields (render (p ∷ l)) b';' b
      ∙ ap kept (fields-render p l h)
      ∙ kept-pairs p l in
    rw given (
      ap (λ l'. setter (convert_properties_to_map l' (codes ":") []) obj) parts
      ∙ ap (λ m. setter m obj) (convert-pairs (p ∷ l) [] h))
