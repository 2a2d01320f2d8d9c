-- ===== src/Optparse.antt =====
-- OptionParser: src/contrib/optparse/OptionParser.cpp and .h. This module has the data (Option,
-- Values, OptionParser) and the registration of options; Optparse/Process.antt has process_opt and
-- Optparse/Loop.antt parse_args.
-- Options are nodes of a list that is never reallocated, and the two maps hold pointers to them:
-- here a pointer is the number of the node.
pub mod Numbers
pub mod Process
pub mod Loop
pub mod Lookup
pub mod Forms
pub mod Defaults
pub mod Ends
pub mod Operands
mod Tests
use cli_cpp.Prelude.{
  ℕ, zero, suc, ◌+◌, ◌-◌, ◌*◌, ◌/◌, ◌%◌, ◌≤◌, ◌<◌, String, ◌≡◌, refl, sym, ap, ◌∙◌, subst, ◌≢◌, ◌↔◌,
  ◌⊎◌, inl, inr, Bool, true, false, not, ◌&&◌, ◌||◌, Option, none, some, List, [], ◌∷◌, ◌++◌, map,
  foldl, append-nil, append_assoc, arith, Str, codes, str_eq, str_lt, str_eq→eq, str_eq_refl,
  ne→str_eq, str_eq-false_sym, ltb, leb, ◌==◌, if◌then◌else◌, ltb→lt, lt→ltb, leb→le, le→leb,
  lt→leb_false, eq→==, ne→==, ==→eq, Bool-cases, Option-cases, length, take, drop, length-append,
  take-length_append, drop-length_append, take-all, length-drop-le, select, select-append, cons?,
}
use cli_cpp.StrMap.{lookup, insert, has_key}

-- The class Option. A callback is the number of the text that a StringAppendCallback fills.
pub record Opt : Type 0 where
  pub short_opts : List Str
  pub long_opts : List Str
  pub action : Str
  pub type_name : Str
  pub dest : Str
  pub default : Str
  pub nargs : ℕ
  pub const_value : Str
  pub choices : List Str
  pub help : Str
  pub metavar : Str
  pub callback : Option ℕ

-- Option()
abbrev pub new_option : Opt
new_option = record {
  short_opts = [];
  long_opts = [];
  action = codes "store";
  type_name = codes "string";
  dest = [];
  default = [];
  nargs = 1;
  const_value = [];
  choices = [];
  help = [];
  metavar = [];
  callback = none;
}

-- Option::action(a)
unfoldable pub set_action : Str → Opt → Opt
set_action a o = record o {
  action = a;
  nargs =
      if str_eq a (codes "store_const")
        || (str_eq a (codes "store_true")
            || (str_eq a (codes "store_false")
                || (str_eq a (codes "append_const")
                    || (str_eq a (codes "count")
                        || (str_eq a (codes "help") || str_eq a (codes "version"))))))
      then 0
      else o.nargs;
}

-- The class Values. `user_set` is the set of the names that it maps to true.
pub record Values : Type 0 where
  pub values : List (Str × Str)
  pub append_map : List (Str × List Str)
  pub user_set : List (Str × Bool)

-- values[d], where reading does not insert
unfoldable pub value_of : Str → Values → Str
value_of d vs = elim (lookup d vs.values) [ none ↦ [] | some v ↦ v ]

unfoldable pub is_set : Str → Values → Bool
unfolding has_key
is_set d vs = has_key d vs.values

-- is_set_by_user(d, yes)
unfoldable pub mark_user_set : Str → Bool → Values → Values
mark_user_set d yes' vs = record vs { user_set = insert d yes' vs.user_set }

unfoldable pub is_set_by_user : Str → Values → Bool
is_set_by_user d vs = elim (lookup d vs.user_set) [ none ↦ false | some b ↦ b ]

-- values[d] = v
unfoldable pub set_value : Str → Str → Values → Values
set_value d v vs = record vs { values = insert d v vs.values }

-- values.all(d).push_back(v)
unfoldable pub push_value : Str → Str → Values → Values
push_value d v vs = record vs {
  append_map =
      insert d (elim (lookup d vs.append_map) [ none ↦ [] | some l ↦ l ] ++ v ∷ []) vs.append_map;
}

-- The class OptionParser, less the texts that only the help prints. `nodes` are the options by
-- number, `opts` their order, `callbacks` the texts of the callbacks.
pub record Parser : Type 0 where
  pub add_version_option : Bool
  pub add_help_option : Bool
  pub version : Str
  pub interspersed_args : Bool
  pub results : Values
  pub nodes : List (ℕ × Opt)
  pub next_node : ℕ
  pub opts : List ℕ
  pub optmap_s : List (Str × ℕ)
  pub optmap_l : List (Str × ℕ)
  pub defaults : List (Str × Str)
  pub remaining : List Str
  pub leftover : List Str
  pub callbacks : ℕ → Str

-- The option behind a pointer; all pointers of a parser are to its nodes.
unfoldable pub option_at : ℕ → List (ℕ × Opt) → Opt
option_at n [] = new_option
option_at n ((k, o) ∷ ns) = if k == n then o else option_at n ns

-- str_replace(s, "-", "_")
unfoldable pub underscores : Str → Str
underscores = map (λ c. if c == b'-' then b'_' else c)

-- What add_option works on: the option, the fallback of its destination, and the two maps.
pub record Adding : Type 0 where
  pub option : Opt
  pub dest_fallback : Str
  pub map_s : List (Str × ℕ)
  pub map_l : List (Str × ℕ)

-- One round of the loop of add_option, for the node n.
unfoldable pub add_name : ℕ → Adding → Str → Adding
unfolding underscores
add_name n a name =
    if str_eq (take 2 name) (codes "--")
    then (let s = drop 2 name in
        record a {
          option = record (a.option) {
            dest = if str_eq a.option.dest [] then underscores s else a.option.dest;
            long_opts = s ∷ a.option.long_opts;
          };
          map_l = insert s n a.map_l;
        })
    else (let s = take 1 (drop 1 name) in
        record a {
          option = record (a.option) { short_opts = s ∷ a.option.short_opts };
          dest_fallback = if str_eq a.dest_fallback [] then s else a.dest_fallback;
          map_s = insert s n a.map_s;
        })

-- add_option(names), followed by the calls that set up the option that it returns.
unfoldable pub add_option : List Str → (Opt → Opt) → Parser → Parser
unfolding add_name
add_option names set_up p =
    let a =
      foldl (add_name p.next_node)
        (record { option = new_option; dest_fallback = []; map_s = p.optmap_s; map_l = p.optmap_l })
        names in
    let o =
      if str_eq a.option.dest [] then record (a.option) { dest = a.dest_fallback } else a.option in
    record p {
      nodes = (p.next_node, set_up o) ∷ p.nodes;
      next_node = p.next_node + 1;
      opts = p.opts ++ p.next_node ∷ [];
      optmap_s = a.map_s;
      optmap_l = a.map_l;
    }
