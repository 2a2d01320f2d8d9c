-- ===== src/Cli.antt =====
-- The options of the clients: src/common/options/modern. This module has the chained calls that
-- set up an option (src/contrib/optparse/OptionParser.h) and the constructor of a parser from the
-- list of its options; the child modules have the lists, in the order of the constructors, without
-- what ENABLE_BLOCKING and UNSUPPORTED_CONNECTOR_OPTS add.
pub mod Modern
pub mod Sender
pub mod Receiver
pub mod Connector
pub mod Names
pub mod Validate
pub mod Passes
pub mod Valid
mod Tests
use cli_cpp.Prelude.{
  ℕ, zero, suc, ◌+◌, ◌-◌, ◌*◌, ◌/◌, ◌%◌, ◌≤◌, ◌<◌, String, ◌≡◌, refl, sym, ap, ◌∙◌, subst, ◌≢◌, ◌↔◌,
  ◌⊎◌, inl, inr, Bool, true, false, not, ◌&&◌, ◌||◌, Option, none, some, List, [], ◌∷◌, ◌++◌, map,
  foldl, append-nil, append_assoc, arith, Str, codes, str_eq, str_lt, str_eq→eq, str_eq_refl,
  ne→str_eq, str_eq-false_sym, ltb, leb, ◌==◌, if◌then◌else◌, ltb→lt, lt→ltb, leb→le, le→leb,
  lt→leb_false, eq→==, ne→==, ==→eq, Bool-cases, Option-cases, length, take, drop, length-append,
  take-length_append, drop-length_append, take-all, length-drop-le, select, select-append, cons?,
}
use cli_cpp.StrMap.{lookup, insert, IsUnique}
use cli_cpp.Optparse.{Opt, Values, Parser, add_option}

unfoldable pub set_dest : Str → Opt → Opt
set_dest d o = record o { dest = d }

unfoldable pub set_type : Str → Opt → Opt
set_type t o = record o { type_name = t }

unfoldable pub set_help : Str → Opt → Opt
set_help h o = record o { help = h }

unfoldable pub set_metavar : Str → Opt → Opt
set_metavar m o = record o { metavar = m }

unfoldable pub set_callback_of : ℕ → Opt → Opt
set_callback_of i o = record o { callback = some i }

-- OptionParser()
abbrev pub new_parser : Parser
new_parser = record {
  add_version_option = true;
  add_help_option = true;
  version = [];
  interspersed_args = true;
  results = record { values = []; append_map = []; user_set = [] };
  nodes = [];
  next_node = 0;
  opts = [];
  optmap_s = [];
  optmap_l = [];
  defaults = [];
  remaining = [];
  leftover = [];
  callbacks = λ i. [];
}

-- The calls of add_option in a constructor.
unfoldable pub with_options : List (List Str × (Opt → Opt)) → Parser → Parser
with_options [] p = p
with_options ((names, set_up) ∷ os) p = with_options os (add_option names set_up p)
