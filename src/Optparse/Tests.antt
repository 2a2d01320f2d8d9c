-- ===== src/Optparse/Tests.antt =====
-- The parser of src/contrib/optparse/OptionParser.cpp with two options.
use cli_cpp.Prelude.{◌≡◌, refl, true, List, [], ◌∷◌, ◌++◌, arith, Str, codes, str_eq}
use cli_cpp.StrMap.{lookup, IsUnique}
use cli_cpp.Optparse.{Opt, new_option, Values, Parser, option_at}
use cli_cpp.Optparse.Loop.{
  done, lookup_short_opt, lookup_long_opt, loop, fill_defaults, fill_options, parse_args,
}
use cli_cpp.Optparse.Defaults.{first_of, default_of, lookup-fill_all}
use cli_cpp.Optparse.Forms.{before, loop-long_value, loop-cluster}
use cli_cpp.Optparse.Ends.{Ended, parse_args-Ended}
use cli_cpp.Optparse.Operands.{loop-operands}

abbrev no_values : Values
no_values = record { values = []; append_map = []; user_set = [] }

abbrev count_option : Opt
count_option = record new_option {
  short_opts = codes "c" ∷ [];
  long_opts = codes "count" ∷ [];
  dest = codes "count";
  default = codes "1";
}

abbrev quiet_option : Opt
quiet_option = record new_option {
  short_opts = codes "q" ∷ [];
  dest = codes "q";
  action = codes "store_true";
  nargs = 0;
}

abbrev two_options : Parser
two_options = record {
  add_version_option = true;
  add_help_option = true;
  version = [];
  interspersed_args = true;
  results = no_values;
  nodes = (0, count_option) ∷ (1, quiet_option) ∷ [];
  next_node = 2;
  opts = 0 ∷ 1 ∷ [];
  optmap_s = (codes "c", 0) ∷ (codes "q", 1) ∷ [];
  optmap_l = (codes "count", 0) ∷ [];
  defaults = (codes "count", codes "5") ∷ [];
  remaining = [];
  leftover = [];
  callbacks = λ i. [];
}

parse_args-Ended_example :
    Ended (parse_args (codes "-q" ∷ codes "--count=3" ∷ codes "x" ∷ []) two_options)
parse_args-Ended_example =
    parse_args-Ended (codes "-q" ∷ codes "--count=3" ∷ codes "x" ∷ []) two_options

count_found : lookup_long_opt (codes "count") two_options ≡ done count_option
unfolding lookup_long_opt lookup str_eq option_at
count_found = refl

c_found : lookup_short_opt (codes "c") two_options ≡ done count_option
unfolding lookup_short_opt lookup str_eq option_at
c_found = refl

q_found : lookup_short_opt (codes "q") two_options ≡ done quiet_option
unfolding lookup_short_opt lookup str_eq option_at
q_found = refl

loop-long_value_example :
    loop 9 (
      before
        ((codes "--" ++ ((b'c' ∷ codes "ount") ++ b'=' ∷ codes "3")) ∷ codes "x" ∷ [])
        two_options)
    ≡ loop 9
        (before ((codes "--" ++ (b'c' ∷ codes "ount")) ∷ (codes "3" ∷ codes "x" ∷ [])) two_options)
loop-long_value_example =
    loop-long_value 8 b'c' (codes "ount") (codes "3") (codes "x" ∷ []) two_options count_option
      (ground arith) (omega arith) count_found refl

loop-cluster_example :
    loop 9 (before (codes "-qc3" ∷ codes "x" ∷ []) two_options)
    ≡ loop 9 (before (codes "-q" ∷ (codes "-c3" ∷ codes "x" ∷ [])) two_options)
loop-cluster_example =
    loop-cluster 8 b'q' b'c' (codes "3") (codes "x" ∷ []) two_options quiet_option (omega arith)
      q_found (omega arith)

two_options-IsUnique : IsUnique two_options.optmap_l
unfolding lookup
two_options-IsUnique = (refl, tt)

lookup-fill_all_example :
    lookup
      (codes "count")
      (fill_options two_options.opts two_options.nodes
        (fill_defaults two_options.defaults no_values)).values
    ≡ first_of (lookup (codes "count") no_values.values) (
        first_of
          (lookup (codes "count") two_options.defaults)
          (default_of (codes "count") two_options.opts two_options.nodes))
lookup-fill_all_example =
    lookup-fill_all (codes "count") two_options.defaults two_options.opts two_options.nodes
      no_values

abbrev two_operands : List Str
two_operands = codes "a" ∷ codes "bc" ∷ []

loop-operands_example :
    loop 9 (record two_options { remaining = two_operands ++ codes "--" ∷ (codes "-q" ∷ []) })
    ≡ done
        (record two_options { remaining = []; leftover = [] ++ (two_operands ++ codes "-q" ∷ []) })
loop-operands_example =
    loop-operands 9 two_operands (codes "-q" ∷ []) two_options (ground arith) refl (omega arith)
