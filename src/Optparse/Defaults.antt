-- ===== src/Optparse/Defaults.antt =====
-- The values that parse_args of src/contrib/optparse/OptionParser.cpp leaves: what the arguments
-- set, and the two passes of defaults for the rest.
use cli_cpp.Prelude.{
  ℕ, ◌≡◌, refl, sym, ap, ◌∙◌, subst, inl, inr, Bool, true, false, not, ◌&&◌, Option, none, some,
  List, [], ◌∷◌, Str, str_eq, str_eq→eq, if◌then◌else◌, Bool-cases, Option-cases,
}
use cli_cpp.StrMap.{lookup, has_key, lookup-insert}
use cli_cpp.Optparse.{Opt, Values, is_set, set_value, option_at}
use cli_cpp.Optparse.Loop.{fill_defaults, fill_options}

-- The first of two values that is there.
abbrev pub first_of : Option Str → Option Str → Option Str
first_of none b = b
first_of (some v) b = some v

first_of_assoc : (a b c : Option Str) → first_of (first_of a b) c ≡ first_of a (first_of b c)
first_of_assoc none b c = refl
first_of_assoc (some v) b c = refl

-- The default of the first option that has the destination and a default that is not empty.
abbrev pub default_of : Str → List ℕ → List (ℕ × Opt) → Option Str
default_of d [] nodes = none
default_of d (n ∷ ns) nodes =
    let o = option_at n nodes in
    let rest = default_of d ns nodes in
    if not (str_eq o.default []) && str_eq o.dest d then some o.default else rest

first_of-none : (a : Option Str) → first_of a none ≡ a
first_of-none none = refl
first_of-none (some v) = refl

lookup-fill_one :
    (d e v : Str) (vs : Values)
    → lookup d (if is_set e vs then vs else set_value e v vs).values
      ≡ first_of (lookup d vs.values) (if str_eq e d then some v else none)
unfolding is_set has_key set_value
lookup-fill_one d e v vs = elim (Option-cases (lookup e vs.values)) [
  | inl n ↦
      rw (is_set, has_key, n, lookup-insert e d v vs.values)
        (elim (Bool-cases (str_eq e d)) [
          | inl q ↦ rw (q, subst (λ x. lookup x vs.values ≡ none) (str_eq→eq e d q) n)
          | inr q ↦ rw (q, first_of-none (lookup d vs.values))
        ])
  | inr (w, n) ↦
      rw (is_set, has_key, n)
        (elim (Bool-cases (str_eq e d)) [
          | inl q ↦ rw (q, subst (λ x. lookup x vs.values ≡ some w) (str_eq→eq e d q) n)
          | inr q ↦ rw (q, first_of-none (lookup d vs.values))
        ])
]

lookup-fill_defaults :
    (d : Str) (ds : List (Str × Str)) (vs : Values)
    → lookup d (fill_defaults ds vs).values ≡ first_of (lookup d vs.values) (lookup d ds)
unfolding fill_defaults
lookup-fill_defaults d [] vs = unfold lookup in sym (first_of-none (lookup d vs.values))
lookup-fill_defaults d ((e, v) ∷ ds) vs =
    lookup-fill_defaults d ds (if is_set e vs then vs else set_value e v vs)
    ∙ ap (λ x. first_of x (lookup d ds)) (lookup-fill_one d e v vs)
    ∙ first_of_assoc (lookup d vs.values) (if str_eq e d then some v else none) (lookup d ds)
    ∙ ap (first_of (lookup d vs.values))
        (unfold lookup in elim (Bool-cases (str_eq e d)) [ inl q ↦ rw q | inr q ↦ rw q ])

if-not {ℓ} : {A : Type ℓ} (b : Bool) (x y : A) → (if not b then x else y) ≡ (if b then y else x)
if-not true x y = refl
if-not false x y = refl

lookup-fill_dest :
    (d : Str) (o : Opt) (vs : Values)
    → lookup d
        (if not (str_eq o.default []) && not (is_set o.dest vs)
          then set_value o.dest o.default vs
          else vs).values
      ≡ first_of
          (lookup d vs.values)
          (if not (str_eq o.default []) && str_eq o.dest d then some o.default else none)
lookup-fill_dest d o vs = elim (Bool-cases (str_eq o.default [])) [
  | inl e ↦ rw e (sym (first_of-none (lookup d vs.values)))
  | inr e ↦ rw e (
      ap (λ r. lookup d r.values) (if-not (is_set o.dest vs) (set_value o.dest o.default vs) vs)
      ∙ lookup-fill_one d o.dest o.default vs)
]

first_of-if :
    (b : Bool) (v : Str) (r : Option Str)
    → first_of (if b then some v else none) r ≡ (if b then some v else r)
first_of-if true v r = refl
first_of-if false v r = refl

lookup-fill_options :
    (d : Str) (ns : List ℕ) (nodes : List (ℕ × Opt)) (vs : Values)
    → lookup d (fill_options ns nodes vs).values
      ≡ first_of (lookup d vs.values) (default_of d ns nodes)
unfolding fill_options
lookup-fill_options d [] nodes vs = sym (first_of-none (lookup d vs.values))
lookup-fill_options d (n ∷ ns) nodes vs =
    let o = option_at n nodes in
    let here = not (str_eq o.default []) && str_eq o.dest d in
    lookup-fill_options d ns nodes (
      if not (str_eq o.default []) && not (is_set o.dest vs)
      then set_value o.dest o.default vs
      else vs)
    ∙ ap (λ x. first_of x (default_of d ns nodes)) (lookup-fill_dest d o vs)
    ∙ first_of_assoc (lookup d vs.values) (if here then some o.default else none)
        (default_of d ns nodes)
    ∙ ap (first_of (lookup d vs.values)) (first_of-if here o.default (default_of d ns nodes))

-- The value of a destination after both passes of defaults: what the arguments set, else the parser's
-- default for the name, else the default of the first option with this destination whose default is
-- not empty, else nothing.
pub lookup-fill_all :
    (d : Str) (ds : List (Str × Str)) (ns : List ℕ) (nodes : List (ℕ × Opt)) (vs : Values)
    → lookup d (fill_options ns nodes (fill_defaults ds vs)).values
      ≡ first_of (lookup d vs.values) (first_of (lookup d ds) (default_of d ns nodes))
lookup-fill_all d ds ns nodes vs =
    lookup-fill_options d ns nodes (fill_defaults ds vs)
    ∙ ap (λ x. first_of x (default_of d ns nodes)) (lookup-fill_defaults d ds vs)
    ∙ first_of_assoc (lookup d vs.values) (lookup d ds) (default_of d ns nodes)
