-- ===== src/Logger/Tests.antt =====
-- The log of src/common/logger/Logger.cpp in a short program.
use cli_cpp.Prelude.{◌≡◌, refl, none, List, [], ◌∷◌, Str, codes, str_eq}
use cli_cpp.Prelude.Int.{pos}
use cli_cpp.StrMap.{lookup, has_key}
use cli_cpp.Optparse.{Values, is_set, value_of}
use cli_cpp.Logger.{
  debug, int_item, text_item, char_item, flushes, prints, stdout, started, statement, set_log_level,
  c_str,
}
use cli_cpp.Logger.Lines.{Action, sets, logs, run, lines, run-lines}

abbrev level_given : Str → Values
level_given l = record {
  values = (codes "client-log-level", l) ∷ [];
  append_map = [];
  user_set = [];
}

abbrev short_program : List Action
short_program =
    logs debug (text_item (codes "early") ∷ [])
    ∷ sets (level_given (codes "debug"))
    ∷ sets (level_given (codes "info"))
    ∷ logs debug (text_item (codes "late ") ∷ int_item (pos 2) ∷ [])
    ∷ []

run-lines_example : run short_program started ≡ lines none short_program
run-lines_example = run-lines short_program

-- A level that is not one of the three leaves the log as it is, also error.
error_not_known : set_log_level (level_given (codes "error")) started ≡ started
unfolding set_log_level is_set value_of lookup has_key str_eq
error_not_known = refl

early_and_late :
    run short_program started
    ≡ flushes stdout
      ∷ flushes stdout
      ∷ prints stdout (codes "%s") (text_item (codes "[debug]: "))
      ∷ prints stdout (codes "%s") (text_item (codes "late "))
      ∷ prints stdout (codes "%d") (int_item (pos 2))
      ∷ prints stdout (codes "%c") (char_item b'\n')
      ∷ []
unfolding set_log_level is_set value_of lookup has_key str_eq statement c_str
early_and_late = refl
