-- ===== src/Client/Segments.antt =====
-- The connection URLs of src/api/qpid-proton/reactor/ConnectingClient.cpp: the loop over getline.
use cli_cpp.Prelude.{
  ℕ, zero, suc, ◌<◌, ◌≡◌, refl, sym, ap, ◌∙◌, inl, inr, none, some, List, [], ◌∷◌, ◌++◌, arith, Str,
  codes, str_eq, Bool, ◌==◌, if◌then◌else◌, Bool-cases, length, length-append,
}
use cli_cpp.Prelude.Int.{ℤ}
use cli_cpp.CppString.Find.{Free}
use cli_cpp.CppString.Fields.{
  fields, fields-Free, fields-append, longer, last_field, first_field, cut,
}
use cli_cpp.Uri.{Uri}
use cli_cpp.Optparse.{Values, value_of, is_set}
use cli_cpp.Client.{get_line, get_lines, prepare}

-- A list of texts without an empty one at its end.
abbrev pub trimmed : List Str → List Str
trimmed [] = []
trimmed (f ∷ []) = if str_eq f [] then [] else f ∷ []
trimmed (f ∷ (g ∷ gs)) = f ∷ trimmed (g ∷ gs)

get_line-Free : (c : ℕ) (s : Str) → Free c s → get_line c s ≡ (s, none)
unfolding get_line
get_line-Free c [] h = refl
get_line-Free c (x ∷ s) h = ground (arith, h.0, get_line-Free c s h.1)

get_line-append : (c : ℕ) (f rest : Str) → Free c f → get_line c (f ++ c ∷ rest) ≡ (f, some rest)
unfolding get_line
get_line-append c [] rest h = ground arith
get_line-append c (x ∷ f) rest h = ground (arith, h.0, get_line-append c f rest h.1)

abbrev pub Some : List Str → Type 0
Some [] = ⊥
Some (f ∷ fs) = Unit

longer-Some : (c : ℕ) (fs : List Str) → Some (longer c fs)
longer-Some c [] = tt
longer-Some c (f ∷ fs) = tt

pub fields-Some : (c : ℕ) (s : Str) → Some (fields c s)
unfolding fields
fields-Some c [] = tt
fields-Some c (x ∷ s) = elim (Bool-cases (c == x)) [
  | inl e ↦ rw e tt
  | inr e ↦ rw e (longer-Some x (fields c s))
]

pub trimmed-cons : (f : Str) (fs : List Str) → Some fs → trimmed (f ∷ fs) ≡ f ∷ trimmed fs
trimmed-cons f [] h = elim h [ ]
trimmed-cons f (g ∷ gs) h = refl

get_lines-step :
    (fuel c : ℕ) (s f rest : Str)
    → Free c f
    → s ≡ f ++ c ∷ rest
    → get_lines (suc fuel) c s ≡ f ∷ get_lines fuel c rest
unfolding get_lines
get_lines-step fuel c [] [] rest h e = ground arith
get_lines-step fuel c [] (x ∷ f) rest h e = ground arith
get_lines-step fuel c (y ∷ s) f rest h e = rw (e, get_line-append c f rest h) refl

get_lines-last : (fuel c : ℕ) (s : Str) → Free c s → get_lines (suc fuel) c s ≡ trimmed (s ∷ [])
unfolding get_lines str_eq
get_lines-last fuel c [] h = refl
get_lines-last fuel c (x ∷ s) h = rw (get_line-Free c (x ∷ s) h) refl

shorter :
    (c : ℕ) (s f rest : Str) (fuel : ℕ)
    → s ≡ f ++ c ∷ rest
    → length s < suc fuel
    → length rest < fuel
shorter c s f rest fuel e b =
    let l : length s ≡ length (f ++ c ∷ rest) = ap length e in
    omega (arith, length-append {0} f (c ∷ rest))

-- The segments that the loop over getline reads are the fields between the delimiters, without the
-- last one if it is empty: a trailing comma adds no URL, and empty URLs elsewhere stay. Fuel beyond the length of
-- the text is enough.
pub get_lines-fields :
    (fuel c : ℕ) (s : Str) → length s < fuel → get_lines fuel c s ≡ trimmed (fields c s)
get_lines-fields zero c s b = absurd (omega arith)
get_lines-fields (suc fuel) c s b = elim (cut c s) [
  | last_field h ↦ get_lines-last fuel c s h ∙ ap trimmed (sym (fields-Free c s h))
  | first_field f rest h e ↦
      get_lines-step fuel c s f rest h e
      ∙ ap (◌∷◌ f) (get_lines-fields fuel c rest (shorter c s f rest fuel e b))
      ∙ sym (trimmed-cons f (fields c rest) (fields-Some c rest))
      ∙ ap trimmed (sym (ap (fields c) e ∙ fields-append c f rest h))
]

-- The URLs of a connection are the fields between the commas of the option conn-urls, without the last one if it is
-- empty, and none without the option: a trailing comma adds no URL, and empty URLs elsewhere stay.
pub prepare-conn_urls :
    (forever_ms : ℤ) (whole url : Uri) (topic : Bool) (vs : Values)
    → (prepare forever_ms whole url topic vs).conn_urls ≡ (
        if is_set (codes "conn-urls") vs
        then trimmed (fields b',' (value_of (codes "conn-urls") vs))
        else [])
unfolding prepare
prepare-conn_urls forever_ms whole url topic vs =
    rw
      (get_lines-fields (suc (length (value_of (codes "conn-urls") vs))) b','
        (value_of (codes "conn-urls") vs) (omega arith))
      refl
