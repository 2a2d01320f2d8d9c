-- ===== src/Formatter/Joins.antt =====
-- The separators in the lists and the maps that src/common/formatter/DictFormatter.cpp prints.
use cli_cpp.Prelude.{
  ℕ, suc, ◌+◌, ◌≡◌, refl, List, [], ◌∷◌, ◌++◌, map, append-nil, arith, Str, codes, lt→ltb,
  le→ltb_false, length,
}
use cli_cpp.Formatter.{
  Scalar, scalar_value, map_entry, list_entries, map_entries, format_list, format_map,
}

-- Texts with ", " between them.
abbrev pub joined : List Str → Str
joined [] = []
joined (s ∷ []) = s
joined (s ∷ (t ∷ l)) = s ++ (codes ", " ++ joined (t ∷ l))

list_entries-joined :
    (size index : ℕ) (l : List Scalar)
    → index + length l ≡ size
    → list_entries size index l ≡ joined (map scalar_value l)
unfolding list_entries
list_entries-joined size index [] h = refl
list_entries-joined size index (v ∷ []) h =
    rw (le→ltb_false (suc index) size (omega arith)) (append-nil (scalar_value v))
list_entries-joined size index (v ∷ (w ∷ l)) h = rw (
  lt→ltb (suc index) size (omega arith),
  list_entries-joined size (suc index) (w ∷ l) (omega arith),
)

map_entries-joined :
    (size index : ℕ) (m : List (Str × Scalar))
    → index + length m ≡ size
    → map_entries size index m ≡ joined (map map_entry m)
unfolding map_entries map_entry
map_entries-joined size index [] h = refl
map_entries-joined size index (e ∷ []) h =
    rw (le→ltb_false (suc index) size (omega arith)) (append-nil (map_entry e))
map_entries-joined size index (e ∷ (e' ∷ m)) h = rw (
  lt→ltb (suc index) size (omega arith),
  map_entries-joined size (suc index) (e' ∷ m) (omega arith),
)

-- A printed list is its values, and a printed map its entries, with a separator between any two of
-- them and none before, behind or instead.
pub format_list-joined :
    (l : List Scalar) (m : List (Str × Scalar))
    → (format_list l ≡ codes "[" ++ (joined (map scalar_value l) ++ codes "]"))
      × (format_map m ≡ codes "{" ++ (joined (map map_entry m) ++ codes "}"))
unfolding format_list format_map
format_list-joined l m = (
  rw (list_entries-joined (length l) 0 l (omega arith)) refl,
  rw (map_entries-joined (length m) 0 m (omega arith)) refl,
)
