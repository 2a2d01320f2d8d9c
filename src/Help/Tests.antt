-- ===== src/Help/Tests.antt =====
-- The texts of src/contrib/optparse/OptionParser.cpp on short inputs.
use cli_cpp.Prelude.{
  ◌≡◌, refl, arith, ℕ, List, [], ◌∷◌, ◌++◌, Str, str_eq, str_lt, codes, true, false, not, ◌||◌, leb,
}
use cli_cpp.Optparse.{Opt, new_option}
use cli_cpp.CppString.{find, replace}
use cli_cpp.Setter.{one_of, find_first_of}
use cli_cpp.Help.{option_names, str_replace, str_format, basename, format_help_of, get_usage, Texts}
use cli_cpp.CppString.Find.{Free}
use cli_cpp.Help.Names.{slashes, basename-slashes}
use cli_cpp.Help.Replace.{pieces_with, AllFree, str_replace-pieces}
use cli_cpp.Help.Words.{solid, text_of, Words}
use cli_cpp.Help.Format.{str_format-solid}
use cli_cpp.Help.Columns.{Short, is_some, any_shown, format_help_of-is_some}

free_of_percent : AllFree b'%' (codes "run " ∷ codes " or " ∷ [] ∷ [])
free_of_percent = ground arith

str_replace-pieces_example :
    str_replace
      (pieces_with (codes "%prog") (codes "run " ∷ codes " or " ∷ [] ∷ []))
      (codes "%prog")
      (codes "aac3")
    ≡ pieces_with (codes "aac3") (codes "run " ∷ codes " or " ∷ [] ∷ [])
str_replace-pieces_example =
    str_replace-pieces b'%' (codes "prog") (codes "aac3") (codes "run ") (codes " or " ∷ [] ∷ [])
      free_of_percent (omega arith)

abbrev two_lines : List (ℕ × Str)
two_lines = (b' ', codes "of") ∷ (b'\n', codes "texts") ∷ []

two_lines-Words : Words 6 (codes "help") two_lines
unfolding one_of
two_lines-Words = ground arith

str_format-solid_example :
    solid (str_format (text_of (codes "help") two_lines) 2 8 false)
    ≡ solid (text_of (codes "help") two_lines)
str_format-solid_example =
    str_format-solid 2 8 6 false (codes "help") two_lines two_lines-Words (omega arith)
      (omega arith)

-- The word that ends the text is not wrapped.
last_word_too_long : str_format (codes "of an option") 2 9 true ≡ codes "  of an option\n"
unfolding str_format find_first_of
last_word_too_long = refl

-- A first word that is too long brings the whole text with it, and the text again.
text_doubled : str_format (codes "options a b") 2 8 false ≡ codes "options a b\n  options\n  a b\n"
unfolding str_format find_first_of
text_doubled = refl

stem_of_path : basename (codes "/usr/bin/aac3_sender//") ≡ codes "aac3_sender"
unfolding basename
stem_of_path = refl

abbrev quiet_option : Opt
quiet_option = record new_option {
  short_opts = codes "q" ∷ [];
  long_opts = codes "quiet" ∷ codes "silent" ∷ [];
  dest = codes "quiet";
  help = codes "no output";
}

names_of_quiet : option_names 2 quiet_option ≡ codes "  -q STRING, --quiet=STRING, --silent=STRING"
unfolding option_names str_eq str_lt
names_of_quiet = refl

abbrev texts : Texts
texts = record {
  usage = codes "%prog [options]";
  description = [];
  epilog = [];
  prog = codes "aac3_sender";
  version = codes "%prog 1";
}

usage_of_sender : get_usage texts ≡ codes "Usage: aac3_sender [options]\n"
unfolding get_usage str_eq find replace
usage_of_sender = refl

quiet_option-Short : Short 2 (quiet_option ∷ [])
unfolding option_names
quiet_option-Short = ground arith

format_help_of-is_some_example :
    is_some (format_help_of 3 texts (quiet_option ∷ []))
    ≡ (leb 4 3 || not (any_shown (quiet_option ∷ [])))
format_help_of-is_some_example =
    format_help_of-is_some 3 texts (quiet_option ∷ []) (omega arith) quiet_option-Short

name_of_client-Free : Free b'/' (codes "aac3" ++ b'r' ∷ [])
name_of_client-Free = ground arith

basename-slashes_example :
    (basename (codes "aac3" ++ b'r' ∷ slashes 2) ≡ codes "aac3" ++ b'r' ∷ [])
    × (basename ((codes "/usr" ++ b'/' ∷ codes "aac3") ++ b'r' ∷ slashes 2)
        ≡ codes "aac3" ++ b'r' ∷ [])
basename-slashes_example = basename-slashes (codes "/usr") (codes "aac3") b'r' 2 name_of_client-Free
