-- ===== src/Cli/Names.antt =====
-- The names of the options that the constructors of src/common/options/modern register.
use cli_cpp.Prelude.{◌≡◌, none, some, List, [], ◌∷◌, ◌++◌, Str, codes}
use cli_cpp.StrMap.{lookup, IsUnique}
use cli_cpp.Optparse.{Opt, Parser, option_at, add_option}
use cli_cpp.Optparse.Loop.{done, failed, lookup_long_opt}
use cli_cpp.Optparse.Lookup.{lookup_long_opt-lookup, add_option-IsUnique}
use cli_cpp.Cli.{new_parser, with_options}

with_options-IsUnique :
    (os : List (List Str × (Opt → Opt))) (p : Parser)
    → IsUnique p.optmap_l
    → IsUnique (with_options os p).optmap_l
unfolding with_options
with_options-IsUnique [] p u = u
with_options-IsUnique ((names, set_up) ∷ os) p u =
    with_options-IsUnique os (add_option names set_up p) (add_option-IsUnique names set_up p u)

-- Whatever options a constructor registers, and however their names coincide, a parser finds a long
-- option by its exact name alone: no command line meets the error for an ambiguous option.
pub lookup_long_opt-with_options :
    (opt : Str) (os : List (List Str × (Opt → Opt)))
    → lookup_long_opt opt (with_options os new_parser)
      ≡ elim (lookup opt (with_options os new_parser).optmap_l) [
        | none ↦ failed (codes "no such option: --" ++ opt)
        | some n ↦ done (option_at n (with_options os new_parser).nodes)
      ]
lookup_long_opt-with_options opt os =
    lookup_long_opt-lookup opt (with_options os new_parser) (with_options-IsUnique os new_parser tt)
