-- ===== src/Help.antt =====
-- The texts of src/contrib/optparse/OptionParser.cpp: str_replace, str_format and basename, the help of an option and of a
-- parser without option groups, its usage and its version. The width of the terminal, which cols() reads, is an
-- argument; `none` is the exception length_error of a text of more spaces than there can be. A Parser has no place for the texts that
-- only the help prints: they are the record Texts.
pub mod Replace
pub mod Names
pub mod Dashes
pub mod Words
pub mod Wrap
pub mod Format
pub mod Columns
mod Tests
use cli_cpp.Prelude.{
  ℕ, zero, suc, ◌+◌, ◌-◌, ◌*◌, ◌/◌, ◌%◌, ◌≤◌, ◌<◌, String, ◌≡◌, refl, Bool, true, false, not, ◌&&◌,
  ◌||◌, Option, none, some, List, [], ◌∷◌, ◌++◌, map, Str, codes, str_eq, str_lt, ltb, leb, ◌==◌,
  if◌then◌else◌, length, take, drop,
}
use cli_cpp.CppString.{npos, sub64, find, replace, to_lower}
use cli_cpp.Optparse.{Opt}
use cli_cpp.Setter.{find_first_of}

-- The loop of str_replace from a position on, on fuel.
unfoldable pub replace_from : ℕ → Str → Str → Str → ℕ → Str
replace_from zero s patt repl i = s
replace_from (suc fuel) s patt repl i =
    let at = find s patt i in
    let rest = replace_from fuel (replace s at (length patt) repl) patt repl (at + length repl) in
    if at == npos then s else rest

unfoldable pub str_replace : Str → Str → Str → Str
unfolding replace_from
str_replace s patt repl = replace_from (suc (length s)) s patt repl 0

-- string(n, ' ')
unfoldable pub spaces : ℕ → Str
spaces zero = []
spaces (suc n) = b' ' ∷ spaces n

-- s[i]
pub byte_at : Str → ℕ → ℕ
byte_at [] i = 0
byte_at (c ∷ s) zero = c
byte_at (c ∷ s) (suc i) = byte_at s i

-- The loop of str_format, on fuel: what is printed from here on, with the prefix p of the next line.
unfoldable pub format_lines : ℕ → Str → ℕ → ℕ → Str → ℕ → ℕ → ℕ → Str
unfolding spaces byte_at
format_lines zero s pre len p i linestart line = []
format_lines (suc fuel) s pre len p i linestart line =
    let new_pos = find_first_of s (codes " \n\t") i in
    let newline = byte_at s new_pos == b'\n' in
    let i' = if newline then new_pos + 1 else i in
    let p' = if line == 1 then spaces pre else p in
    let wrapped =
      p'
      ++ (take (sub64 (sub64 i' linestart) 1) (drop linestart s)
          ++ (codes "\n" ++ format_lines fuel s pre len p' (new_pos + 1) i' (line + 1))) in
    let rest = format_lines fuel s pre len p' (new_pos + 1) linestart line in
    if new_pos == npos
    then p ++ (drop linestart s ++ codes "\n")
    else if newline || ltb (linestart + len) (new_pos + pre)
    then wrapped
    else rest

unfoldable pub str_format : Str → ℕ → ℕ → Bool → Str
unfolding format_lines spaces
str_format s pre len indent_first =
    format_lines (suc (length s)) s pre len (if indent_first then spaces pre else []) 0 0 0

-- The last position of a byte that passes a test.
unfoldable pub last_index : (ℕ → Bool) → Str → Option ℕ
last_index test [] = none
last_index test (c ∷ s) = elim (last_index test s) [
  | some i ↦ some (suc i)
  | none ↦ if test c then some 0 else none
]

unfoldable pub basename : Str → Str
unfolding last_index
basename s = elim (last_index (λ c. not (c == b'/')) s) [
  | none ↦ take 1 s
  | some i ↦ elim (last_index (λ c. c == b'/') (take (i + 1) s)) [
    | none ↦ take (i + 1) s
    | some j ↦ drop (j + 1) (take (i + 1) s)
  ]
]

-- The names of an option in the order of a std::set.
insert_name : Str → List Str → List Str
insert_name n [] = n ∷ []
insert_name n (m ∷ l) =
    let rest = insert_name n l in
    if str_eq n m then m ∷ l else if str_lt n m then n ∷ (m ∷ l) else m ∷ rest

as_set : List Str → List Str
as_set [] = []
as_set (n ∷ l) = insert_name n (as_set l)

-- str_join_trans with a str_wrap
unfoldable pub str_join_trans : Str → (Str → Str) → List Str → Str
str_join_trans sep op [] = []
str_join_trans sep op (s ∷ []) = op s
str_join_trans sep op (s ∷ (t ∷ l)) = op s ++ (sep ++ str_join_trans sep op (t ∷ l))

to_upper : Str → Str
to_upper = map (λ c. if leb b'a' c && leb c b'z' then c - 32 else c)

metavar_of : Opt → Str
unfolding to_upper
metavar_of o = if str_eq o.metavar [] then to_upper o.type_name else o.metavar

is_empty : List Str → Bool
is_empty [] = true
is_empty (n ∷ l) = false

-- Option::format_option_help
unfoldable pub option_names : ℕ → Opt → Str
unfolding as_set str_join_trans metavar_of is_empty insert_name spaces
option_names indent o =
    let mvar_short = if o.nargs == 1 then codes " " ++ metavar_of o else [] in
    let mvar_long = if o.nargs == 1 then codes "=" ++ metavar_of o else [] in
    spaces indent
    ++ ((if not (is_empty o.short_opts)
          then str_join_trans (codes ", ") (λ n. codes "-" ++ (n ++ mvar_short))
              (as_set o.short_opts)
            ++ (if not (is_empty o.long_opts) then codes ", " else [])
          else [])
        ++ (if not (is_empty o.long_opts)
            then str_join_trans (codes ", ") (λ n. codes "--" ++ (n ++ mvar_long))
                (as_set o.long_opts)
            else []))

-- min(width*3/10, 36u), for an unsigned int
unfoldable pub option_width : ℕ → ℕ
option_width width = let w = width * 3 % 4294967296 / 10 in if ltb w 36 then w else 36

-- What format_help puts behind the names, and whether the help starts a new line; none where opt_width is less than
-- the length of the names and the difference wraps around.
unfoldable pub padding : ℕ → Str → Bool → Option (Str × Bool)
unfolding spaces
padding opt_width h no_help =
    if leb ((opt_width + 4294967295) % 4294967296) (length h)
    then some (codes "\n", true)
    else if ltb opt_width (length h)
    then none
    else some (spaces (opt_width - length h) ++ (if no_help then codes "\n" else []), false)

help_text : Opt → Str
unfolding str_replace
help_text o =
    if not (str_eq o.default []) then str_replace o.help (codes "%default") o.default else o.help

-- Option::format_help
unfoldable pub format_help : ℕ → ℕ → Opt → Option Str
unfolding option_names option_width padding help_text str_format
format_help width indent o =
    let h = option_names indent o in
    elim (padding (option_width width) h (str_eq o.help [])) [
      | none ↦ none
      | some (gap, indent_first) ↦ some (
          h
          ++ (gap
              ++ (if not (str_eq o.help [])
                  then str_format (help_text o) (option_width width) width indent_first
                  else [])))
    ]

-- OptionParser::format_option_help, over the options in their order
unfoldable pub format_options : ℕ → ℕ → List Opt → Option Str
unfolding format_help
format_options width indent [] = some []
format_options width indent (o ∷ l) = elim (format_options width indent l) [
  | none ↦ none
  | some rest ↦
      if not (str_eq o.help (codes "SUPPRESSHELP"))
      then elim (format_help width indent o) [ none ↦ none | some t ↦ some (t ++ rest) ]
      else some rest
]

-- The texts of an OptionParser
pub record Texts : Type 0 where
  pub usage : Str
  pub description : Str
  pub epilog : Str
  pub prog : Str
  pub version : Str

-- set_usage
unfoldable pub set_usage : Str → Texts → Texts
set_usage u t = record t {
  usage = if str_eq (take 7 (to_lower u)) (codes "usage: ") then drop 7 u else u;
}

-- format_usage
unfoldable pub format_usage : Str → Str
format_usage u = codes "Usage: " ++ (u ++ codes "\n")

unfoldable pub get_usage : Texts → Str
unfolding format_usage str_replace
get_usage t =
    if str_eq t.usage (codes "SUPPRESSUSAGE")
    then []
    else format_usage (str_replace t.usage (codes "%prog") t.prog)

unfoldable pub get_version : Texts → Str
unfolding str_replace
get_version t = str_replace t.version (codes "%prog") t.prog

-- What print_usage and print_version write
unfoldable pub print_usage : Texts → Str
unfolding get_usage
print_usage t = if not (str_eq (get_usage t) []) then get_usage t ++ codes "\n" else []

unfoldable pub print_version : Texts → Str
unfolding get_version
print_version t = get_version t ++ codes "\n"

-- OptionParser::format_help, for a parser without groups
unfoldable pub format_help_of : ℕ → Texts → List Opt → Option Str
unfolding get_usage str_format format_options
format_help_of width t opts = elim (format_options width 2 opts) [
  | none ↦ none
  | some options ↦ some (
      (if not (str_eq t.usage (codes "SUPPRESSUSAGE")) then get_usage t ++ codes "\n" else [])
      ++ ((if not (str_eq t.description [])
            then str_format t.description 0 width true ++ codes "\n"
            else [])
          ++ (codes "Options:\n"
              ++ (options
                  ++ (if not (str_eq t.epilog [])
                      then codes "\n" ++ str_format t.epilog 0 width true
                      else [])))))
]
