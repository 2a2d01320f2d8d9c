-- ===== src/Optparse/Loop.antt =====
-- parse_args of src/contrib/optparse/OptionParser.cpp: the loop over the arguments, the names of the
-- options and their values, and the defaults.
use cli_cpp.Prelude.{
  ℕ, zero, suc, ◌+◌, Bool, not, ◌&&◌, Option, none, some, List, [], ◌∷◌, ◌++◌, Str, codes, str_eq,
  ltb, ◌==◌, if◌then◌else◌, length, take, drop,
}
use cli_cpp.StrMap.{lookup}
use cli_cpp.CppString.{npos, find}
use cli_cpp.Optparse.{Opt, set_action, Values, is_set, set_value, Parser, option_at, add_option}
pub use cli_cpp.Optparse.Process.{Result, done, failed, exited, out_of_fuel, ◌>>=◌}
unfoldable pub use cli_cpp.Optparse.Process.{check_type, process_opt}
use cli_cpp.Optparse.Process.{str_join}

-- lookup_short_opt
unfoldable pub lookup_short_opt : Str → Parser → Result Opt
lookup_short_opt opt p = elim (lookup opt p.optmap_s) [
  | none ↦ failed (codes "no such option: -" ++ opt)
  | some n ↦ done (option_at n p.nodes)
]

-- The names of the map that are equal to the option's.
unfoldable pub matching : Str → List (Str × ℕ) → List Str
matching opt [] = []
matching opt ((name, n) ∷ m) =
    let rest = matching opt m in if str_eq name opt then name ∷ rest else rest

-- lookup_long_opt: it looks for all names that match, and for the first of them.
unfoldable pub lookup_long_opt : Str → Parser → Result Opt
unfolding matching
lookup_long_opt opt p = elim (matching opt p.optmap_l) [
  | [] ↦ failed (codes "no such option: --" ++ opt)
  | name ∷ names ↦ elim names [
    | [] ↦ elim (lookup name p.optmap_l) [ none ↦ failed [] | some n ↦ done (option_at n p.nodes) ]
    | name' ∷ names' ↦ failed (
        codes "ambiguous option: --"
        ++ (opt ++ (codes " (" ++ (str_join (codes ", ") (name ∷ (name' ∷ names')) ++ codes "?)"))))
  ]
]

-- The value that an option takes from the next argument.
next_value : Str → List Str → Parser → Result (Str × Parser)
next_value error [] p = failed error
next_value error (a ∷ rest) p = done (a, record p { remaining = rest })

-- What handle_short_opt does between the lookup and process_opt: the value, and what remains.
unfoldable pub short_value : Opt → Str → Str → Parser → Result (Str × Parser)
unfolding next_value
short_value o opt arg p =
    if o.nargs == 1
    then (let value = drop 2 arg in
        if str_eq value []
        then next_value (codes "-" ++ (opt ++ codes " option requires an argument")) p.remaining p
        else done (value, p))
    else if ltb 2 (length arg)
    then done ([], record p { remaining = (codes "-" ++ drop 2 arg) ∷ p.remaining })
    else done ([], p)

-- handle_short_opt(opt, arg), after its pop_front
unfoldable pub handle_short_opt : Str → Str → Parser → Result Parser
handle_short_opt opt arg p = do
  o ← lookup_short_opt opt p
  (value, q) ← short_value o opt arg p
  process_opt o (codes "-" ++ opt) value q

-- The name and the value of --name=value; `none` without an equals sign.
unfoldable pub split_long : Str → Str × Option Str
split_long optstr =
    let delim = find optstr (codes "=") 0 in
    if delim == npos then (optstr, none) else (take delim optstr, some (drop (delim + 1) optstr))

-- The value of a long option: its own, or the next argument if there is one.
unfoldable pub long_value : Opt → Option Str → Parser → Str × Parser
long_value o (some value) p = (value, p)
long_value o none p =
    if o.nargs == 1
    then elim p.remaining [ [] ↦ ([], p) | a ∷ rest ↦ (a, record p { remaining = rest }) ]
    else ([], p)

-- Whether an option lacks the argument that it needs.
unfoldable pub lacks_argument : Opt → Str → Str → Bool
lacks_argument o opt value =
    o.nargs == 1 && (str_eq value [] && not (str_eq opt (codes "msg-content-list-item")))

-- handle_long_opt(optstr), after its pop_front
unfoldable pub handle_long_opt : Str → Parser → Result Parser
handle_long_opt optstr p =
    let (opt, value) = split_long optstr in
    lookup_long_opt opt p >>= (λ o.
      let r = long_value o value p in
      if lacks_argument o opt r.0
      then failed (codes "--" ++ (opt ++ codes " option requires an argument"))
      else process_opt o (codes "--" ++ opt) r.0 r.1)

-- What the loop does with one argument, which has been taken off the front: go on or stop.
pub data Next : Type 0 where
  go_on stop_here : Parser → Next

unfoldable pub handle : Str → Parser → Result Next
handle arg p =
    if str_eq arg (codes "--")
    then done (stop_here p)
    else if str_eq (take 2 arg) (codes "--")
    then handle_long_opt (drop 2 arg) p >>= (λ q. done (go_on q))
    else if str_eq (take 1 arg) (codes "-") && ltb 1 (length arg)
    then handle_short_opt (take 1 (drop 1 arg)) arg p >>= (λ q. done (go_on q))
    else let q = record p { leftover = p.leftover ++ arg ∷ [] } in
      if p.interspersed_args then done (go_on q) else done (stop_here q)

-- The two loops over what remains: options, then everything else as it stands.

unfoldable pub loop : ℕ → Parser → Result Parser
loop zero p = out_of_fuel
loop (suc fuel) p = elim p.remaining [
  | [] ↦ done p
  | arg ∷ rest ↦ handle arg (record p { remaining = rest }) >>= (elim [
    | go_on q ↦ loop fuel q
    | stop_here q ↦ done (record q { remaining = []; leftover = q.leftover ++ q.remaining })
  ])
]

-- The defaults by name, for what is not set.
unfoldable pub fill_defaults : List (Str × Str) → Values → Values
fill_defaults [] vs = vs
fill_defaults ((d, v) ∷ ds) vs = fill_defaults ds (if is_set d vs then vs else set_value d v vs)

-- The defaults of the options, in their order.
unfoldable pub fill_options : List ℕ → List (ℕ × Opt) → Values → Values
fill_options [] nodes vs = vs
fill_options (n ∷ ns) nodes vs =
    let o = option_at n nodes in
    fill_options ns nodes (
      if not (str_eq o.default []) && not (is_set o.dest vs)
      then set_value o.dest o.default vs
      else vs)

-- The options --version and -h, --help, which parse_args adds at the front.
unfoldable pub add_builtin : Parser → Parser
add_builtin p =
    let q =
      if p.add_version_option && not (str_eq p.version [])
      then (let r = add_option (codes "--version" ∷ []) (set_action (codes "version")) p in
          record r { opts = p.next_node ∷ p.opts })
      else p in
    if q.add_help_option
    then (let r = add_option (codes "-h" ∷ codes "--help" ∷ []) (set_action (codes "help")) q in
        record r { opts = q.next_node ∷ q.opts })
    else q

-- The room that the arguments take; every round of the loop makes it smaller.
abbrev pub room : List Str → ℕ
room [] = 0
room (a ∷ l) = suc (length a) + room l

-- parse_args(v)
unfoldable pub parse_args : List Str → Parser → Result Parser
unfolding loop
parse_args v p = loop (suc (room v)) (add_builtin (record p { remaining = v })) >>= (λ q.
    done (record q { results = fill_options q.opts q.nodes (fill_defaults q.defaults q.results) }))
