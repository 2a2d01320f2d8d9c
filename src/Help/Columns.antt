-- ===== src/Help/Columns.antt =====
-- The help of src/contrib/optparse/OptionParser.cpp on terminals of few columns.
use cli_cpp.Prelude.{
  ℕ, suc, ◌≤◌, ◌<◌, ◌≡◌, ◌∙◌, arith, Bool, true, false, not, ◌||◌, Option, none, some, List, [],
  ◌∷◌, Str, codes, str_eq, leb, length,
}
use cli_cpp.Optparse.{Opt}
use cli_cpp.Help.{
  spaces, option_names, option_width, padding, format_help, format_options, Texts, format_help_of,
}

abbrev pub is_some {ℓ} : {A : Type ℓ} → Option A → Bool
is_some none = false
is_some (some a) = true

-- An option whose help is not suppressed.
abbrev pub is_shown : Opt → Bool
is_shown o = not (str_eq o.help (codes "SUPPRESSHELP"))

abbrev pub any_shown : List Opt → Bool
any_shown [] = false
any_shown (o ∷ l) = is_shown o || any_shown l

-- The names of every option are shorter than the largest unsigned int.
abbrev pub Short : ℕ → List Opt → Type 0
Short indent [] = Unit
Short indent (o ∷ l) = (length (option_names indent o) < 4294967295) × Short indent l

option_width-leb : (width : ℕ) → width < 1431655766 → leb 1 (option_width width) ≡ leb 4 width
unfolding option_width
option_width-leb width h = ground arith

option_width-bound : (width : ℕ) → option_width width ≤ 36
unfolding option_width
option_width-bound width = ground arith

padding-is_some :
    (w : ℕ) (h : Str) (no_help : Bool)
    → w ≤ 36
    → 1 ≤ length h
    → length h < 4294967295
    → is_some (padding w h no_help) ≡ leb 1 w
unfolding padding
padding-is_some w h no_help p q r = ground arith

option_names-pos : (indent : ℕ) (o : Opt) → 1 ≤ length (option_names (suc indent) o)
unfolding option_names spaces
option_names-pos indent o = omega arith

format_help-is_some :
    (width indent : ℕ) (o : Opt)
    → width < 1431655766
    → length (option_names (suc indent) o) < 4294967295
    → is_some (format_help width (suc indent) o) ≡ leb 4 width
unfolding format_help
format_help-is_some width indent o p q =
    let gap =
      padding-is_some (option_width width) (option_names (suc indent) o) (str_eq o.help [])
        (option_width-bound width) (option_names-pos indent o) q
      ∙ option_width-leb width p in
    ground (arith, gap)

format_options-is_some :
    (width indent : ℕ) (l : List Opt)
    → width < 1431655766
    → Short (suc indent) l
    → is_some (format_options width (suc indent) l) ≡ (leb 4 width || not (any_shown l))
unfolding format_options
format_options-is_some width indent [] p h = ground arith
format_options-is_some width indent (o ∷ l) p h =
    let here = format_help-is_some width indent o p h.0 in
    let rest = format_options-is_some width indent l p h.1 in ground (arith, here, rest)

-- The help of a parser without groups is written on a terminal of four columns or more, or where the help of every option is
-- suppressed; otherwise the exception length_error comes instead. The names of each option are shorter than the largest unsigned int,
-- and three times the width is less than 2^32.
pub format_help_of-is_some :
    (width : ℕ) (t : Texts) (opts : List Opt)
    → width < 1431655766
    → Short 2 opts
    → is_some (format_help_of width t opts) ≡ (leb 4 width || not (any_shown opts))
unfolding format_help_of
format_help_of-is_some width t opts p h =
    let options = format_options-is_some width 1 opts p h in ground (arith, options)
