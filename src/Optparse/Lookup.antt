-- ===== src/Optparse/Lookup.antt =====
-- Option names: lookup_long_opt of src/contrib/optparse/OptionParser.cpp against a plain lookup in
-- the map that add_option fills.
use cli_cpp.Prelude.{
  ℕ, ◌≡◌, refl, ◌∙◌, subst, inl, inr, none, some, List, [], ◌∷◌, ◌++◌, foldl, arith, Str, codes,
  str_eq, str_eq→eq, eq→==, Bool-cases, Option-cases, take, drop,
}
use cli_cpp.StrMap.{lookup, IsUnique, insert-IsUnique, lookup-insert_self}
use cli_cpp.Optparse.{Opt, new_option, Parser, option_at, underscores, Adding, add_name, add_option}
use cli_cpp.Optparse.Loop.{Result, done, failed, matching, lookup_long_opt}

matching-none : (k : Str) (m : List (Str × ℕ)) → lookup k m ≡ none → matching k m ≡ []
unfolding matching lookup
matching-none k [] h = refl
matching-none k ((j, n) ∷ m) h = ground (arith, matching-none k m)

matching-some :
    (k : Str) (n : ℕ) (m : List (Str × ℕ))
    → IsUnique m
    → lookup k m ≡ some n
    → matching k m ≡ k ∷ []
unfolding matching lookup
matching-some k n [] u h = ground arith
matching-some k n ((j, i) ∷ m) u h = elim (Bool-cases (str_eq j k)) [
  | inl e ↦
      let p = str_eq→eq j k e in rw (e, matching-none k m (subst (λ x. lookup x m ≡ none) p u.0), p)
  | inr e ↦ ground (arith, matching-some k n m u.1)
]

-- In a map without double names the test for an ambiguous option never succeeds: lookup_long_opt is
-- the exact lookup of the name, and its only error is the one for an unknown option.
pub lookup_long_opt-lookup :
    (opt : Str) (p : Parser)
    → IsUnique p.optmap_l
    → lookup_long_opt opt p ≡ elim (lookup opt p.optmap_l) [
      | none ↦ failed (codes "no such option: --" ++ opt)
      | some n ↦ done (option_at n p.nodes)
    ]
unfolding lookup_long_opt
lookup_long_opt-lookup opt p u = elim (Option-cases (lookup opt p.optmap_l)) [
  | inl e ↦ rw (e, lookup_long_opt, matching-none opt p.optmap_l e)
  | inr (n, e) ↦ rw (e, lookup_long_opt, matching-some opt n p.optmap_l u e, e)
]

foldl-add_name-IsUnique :
    (n : ℕ) (names : List Str) (a : Adding)
    → IsUnique a.map_l
    → IsUnique (foldl (add_name n) a names).map_l
foldl-add_name-IsUnique n [] a u = u
foldl-add_name-IsUnique n (name ∷ names) a u = foldl-add_name-IsUnique n names (add_name n a name) (
    unfold add_name in
    elim (Bool-cases (str_eq (take 2 name) (codes "--"))) [
      | inl e ↦ rw e (insert-IsUnique (drop 2 name) n a.map_l u)
      | inr e ↦ rw e u
    ])

-- Registering an option keeps the names in the map of the long options apart.
pub add_option-IsUnique :
    (names : List Str) (set_up : Opt → Opt) (p : Parser)
    → IsUnique p.optmap_l
    → IsUnique (add_option names set_up p).optmap_l
unfolding add_option
add_option-IsUnique names set_up p u =
    foldl-add_name-IsUnique p.next_node names
      (record { option = new_option; dest_fallback = []; map_s = p.optmap_s; map_l = p.optmap_l }) u

registered :
    (name : Str) (set_up : Opt → Opt) (p : Parser)
    → elim (lookup name (add_option ((codes "--" ++ name) ∷ []) set_up p).optmap_l)
        as (λ x. Result Opt) [
          | none ↦ failed (codes "no such option: --" ++ name)
          | some n ↦ done (option_at n (add_option ((codes "--" ++ name) ∷ []) set_up p).nodes)
        ]
      ≡ done (set_up (record new_option { dest = underscores name; long_opts = name ∷ [] }))
unfolding add_option add_name str_eq option_at
registered name set_up p =
    rw (lookup-insert_self name p.next_node p.optmap_l, eq→== p.next_node p.next_node refl)
      (elim (Bool-cases (str_eq (underscores name) [])) [
        | inl e ↦ rw (e, str_eq→eq (underscores name) [] e)
        | inr e ↦ rw e
      ])

-- What add_option(--name) registers is what lookup_long_opt finds under the name: an option with
-- that long name, whose destination is the name with underscores for its dashes, set up by the calls that
-- follow. The names registered before must be different from each other; one of them may be this name.
pub lookup_long_opt-add_option :
    (name : Str) (set_up : Opt → Opt) (p : Parser)
    → IsUnique p.optmap_l
    → lookup_long_opt name (add_option ((codes "--" ++ name) ∷ []) set_up p)
      ≡ done (set_up (record new_option { dest = underscores name; long_opts = name ∷ [] }))
lookup_long_opt-add_option name set_up p u =
    lookup_long_opt-lookup name (add_option ((codes "--" ++ name) ∷ []) set_up p)
      (add_option-IsUnique ((codes "--" ++ name) ∷ []) set_up p u)
    ∙ registered name set_up p
