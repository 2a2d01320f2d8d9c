-- ===== src/Optparse/Forms.antt =====
-- The forms in which an option and its value may be written: the loop of parse_args of
-- src/contrib/optparse/OptionParser.cpp does the same with each of them.
use cli_cpp.Prelude.{
  ℕ, suc, ◌<◌, ◌≡◌, refl, ◌≢◌, none, some, List, [], ◌∷◌, ◌++◌, arith, Str, codes, str_eq, lt→ltb,
  ne→==, length, take-length_append, drop-behind,
}
use cli_cpp.CppString.{npos}
use cli_cpp.CppString.Find.{Free, find-append, find-Free}
use cli_cpp.Optparse.{Opt, Parser}
use cli_cpp.Optparse.Loop.{
  done, lookup_short_opt, lookup_long_opt, short_value, handle_short_opt, split_long, long_value,
  handle_long_opt, handle, loop,
}

-- A parser that has these arguments before it.
abbrev pub before : List Str → Parser → Parser
before args p = record p { remaining = args }

split_long-Free : (name : Str) → Free b'=' name → split_long name ≡ (name, none)
unfolding split_long
split_long-Free name h = rw (find-Free [] name b'=' [] 0 {s = name} h refl refl)

split_long-append :
    (name value : Str)
    → Free b'=' name
    → length name < npos
    → split_long (name ++ b'=' ∷ value) ≡ (name, some value)
unfolding split_long
split_long-append name value h b = rw (
  split_long,
  find-append [] name value b'=' 0 (length name) {s = name ++ b'=' ∷ value} h refl refl
      (omega arith),
  ne→== (length name) npos (omega arith),
  take-length_append name (b'=' ∷ value),
  drop-behind b'=' name value,
)

same_long_opt :
    (opt : Str) (args : List Str) (p : Parser)
    → lookup_long_opt opt (before args p) ≡ lookup_long_opt opt p
unfolding lookup_long_opt
same_long_opt opt args p = refl

handle_long_opt-value :
    (name value : Str) (rest : List Str) (p : Parser) (o : Opt)
    → Free b'=' name
    → length name < npos
    → lookup_long_opt name p ≡ done o
    → o.nargs ≡ 1
    → handle_long_opt (name ++ b'=' ∷ value) (before rest p)
      ≡ handle_long_opt name (before (value ∷ rest) p)
unfolding handle_long_opt long_value
handle_long_opt-value name value rest p o free bound found one =
    rw
      (
        split_long-append name value free bound,
        split_long-Free name free,
        same_long_opt name rest p,
        same_long_opt name (value ∷ rest) p,
        found,
      )
      (rw one refl)

-- --name=value is --name value, for an option that takes a value: the loop goes on in the same way, or
-- fails in the same way, also where the value is empty. The name is not empty, has no equals sign and
-- is shorter than npos.
pub loop-long_value :
    (fuel c : ℕ) (name value : Str) (rest : List Str) (p : Parser) (o : Opt)
    → Free b'=' (c ∷ name)
    → length (c ∷ name) < npos
    → lookup_long_opt (c ∷ name) p ≡ done o
    → o.nargs ≡ 1
    → loop (suc fuel) (before ((codes "--" ++ ((c ∷ name) ++ b'=' ∷ value)) ∷ rest) p)
      ≡ loop (suc fuel) (before ((codes "--" ++ (c ∷ name)) ∷ (value ∷ rest)) p)
unfolding loop handle str_eq
loop-long_value fuel c name value rest p o free bound found one =
    rw (handle_long_opt-value (c ∷ name) value rest p o free bound found one)

same_short_opt :
    (opt : Str) (args : List Str) (p : Parser)
    → lookup_short_opt opt (before args p) ≡ lookup_short_opt opt p
unfolding lookup_short_opt
same_short_opt opt args p = refl

-- A short option and its value in one argument or in two: -oVALUE is -o VALUE, where the value is not
-- empty and the option, which is no dash, takes one.
pub loop-short_value :
    (fuel c v : ℕ) (value : Str) (rest : List Str) (p : Parser) (o : Opt)
    → c ≢ b'-'
    → lookup_short_opt (c ∷ []) p ≡ done o
    → o.nargs ≡ 1
    → loop (suc fuel) (before ((b'-' ∷ (c ∷ (v ∷ value))) ∷ rest) p)
      ≡ loop (suc fuel) (before ((b'-' ∷ (c ∷ [])) ∷ ((v ∷ value) ∷ rest)) p)
unfolding loop handle str_eq handle_short_opt short_value
loop-short_value fuel c v value rest p o n found one = rw (
  ne→== c b'-' n,
  lt→ltb 1 (suc (suc (suc (length value)))) (omega arith),
  same_short_opt (c ∷ []) rest p,
  same_short_opt (c ∷ []) ((v ∷ value) ∷ rest) p,
  found,
  one,
)

-- A cluster of short options is the options one by one: -abc is -a -bc, where a takes no value and
-- is no dash.
pub loop-cluster :
    (fuel a b : ℕ) (s : Str) (rest : List Str) (p : Parser) (o : Opt)
    → a ≢ b'-'
    → lookup_short_opt (a ∷ []) p ≡ done o
    → o.nargs ≢ 1
    → loop (suc fuel) (before ((b'-' ∷ (a ∷ (b ∷ s))) ∷ rest) p)
      ≡ loop (suc fuel) (before ((b'-' ∷ (a ∷ [])) ∷ ((b'-' ∷ (b ∷ s)) ∷ rest)) p)
unfolding loop handle str_eq handle_short_opt short_value
loop-cluster fuel a b s rest p o n found none' = rw (
  ne→== a b'-' n,
  lt→ltb 1 (suc (suc (suc (length s)))) (omega arith),
  same_short_opt (a ∷ []) rest p,
  same_short_opt (a ∷ []) ((b'-' ∷ (b ∷ s)) ∷ rest) p,
  found,
  ne→== o.nargs 1 none',
  lt→ltb 2 (suc (suc (suc (length s)))) (omega arith),
)
