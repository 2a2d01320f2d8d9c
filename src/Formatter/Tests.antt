-- ===== src/Formatter/Tests.antt =====
-- The printing of src/common/formatter/DictFormatter.cpp on short texts.
use cli_cpp.Prelude.{◌≡◌, some, List, [], ◌∷◌, ◌++◌, map, arith, Str, codes}
use cli_cpp.Formatter.{
  Scalar, text, number, scalar_value, map_entry, escape_quotes, format_list, format_map,
}
use cli_cpp.Formatter.Escapes.{read_quoted, read_quoted-escape_quotes}
use cli_cpp.Formatter.Joins.{joined, format_list-joined}

read_quoted-escape_quotes_example :
    read_quoted (escape_quotes (codes "it's") ++ b'\'' ∷ codes ", ")
    ≡ some (codes "it's", codes ", ")
read_quoted-escape_quotes_example =
    read_quoted-escape_quotes (codes "it's") (codes ", ") (ground arith) (omega arith)

abbrev two_values : List Scalar
two_values = text (codes "a") ∷ number (codes "1") ∷ []

abbrev one_entry : List (Str × Scalar)
one_entry = (codes "k", number (codes "1")) ∷ []

format_list-joined_example :
    (format_list two_values ≡ codes "[" ++ (joined (map scalar_value two_values) ++ codes "]"))
    × (format_map one_entry ≡ codes "{" ++ (joined (map map_entry one_entry) ++ codes "}"))
format_list-joined_example = format_list-joined two_values one_entry
