-- ===== src/Setter/Split.antt =====
-- split of src/common/STLUtils.h, for a separator of one byte.
use cli_cpp.Prelude.{
  ℕ, zero, suc, ◌+◌, ◌-◌, ◌<◌, ◌≡◌, refl, sym, ap, ◌∙◌, ◌||◌, List, [], ◌∷◌, ◌++◌, append_assoc,
  arith, Str, str_eq, ltb, ◌==◌, if◌then◌else◌, length, drop, length-append, drop-length_append,
  take-length_append, ne→==,
}
use cli_cpp.CppString.{npos, find, scan, starts_with}
use cli_cpp.CppString.Find.{Free, find-append, find-Free}
use cli_cpp.CppString.Fields.{fields, fields-Free, fields-append, last_field, first_field, cut}
use cli_cpp.Client.Segments.{trimmed, Some, fields-Some, trimmed-cons}
use cli_cpp.Setter.{one_of, scan_any, find_first_of, split_from, split}

-- The fields without an empty last one, but for the only field of an empty text.
abbrev pub kept : List Str → List Str
kept [] = []
kept (f ∷ []) = f ∷ []
kept (f ∷ (g ∷ gs)) = f ∷ trimmed (g ∷ gs)

scan_any-scan : (c i : ℕ) (s : Str) → scan_any (c ∷ []) s i ≡ scan (c ∷ []) s i
unfolding scan_any scan one_of starts_with
scan_any-scan c i [] = refl
scan_any-scan c i (x ∷ s) = ground (arith, scan_any-scan c (suc i) s)

find_first_of-find : (s : Str) (c i : ℕ) → find_first_of s (c ∷ []) i ≡ find s (c ∷ []) i
unfolding find_first_of find
find_first_of-find s c i = rw (scan_any-scan c i (drop i s)) refl

split_from-last :
    (fuel : ℕ) (input : Str) (c : ℕ) (pre post : Str)
    → input ≡ pre ++ post
    → Free c post
    → split_from (suc fuel) input (c ∷ []) (length pre)
      ≡ (if length pre == 0 || ltb (length pre) (length input) then post ∷ [] else [])
unfolding split_from
split_from-last fuel input c pre post e free =
    rw
      (
        find_first_of-find input c (length pre),
        find-Free pre post c [] (length pre) free e refl,
        e,
        drop-length_append pre post,
      )
      refl

split_from-step :
    (fuel : ℕ) (input : Str) (c : ℕ) (pre f rest : Str)
    → input ≡ pre ++ (f ++ c ∷ rest)
    → Free c f
    → length input < npos
    → split_from (suc fuel) input (c ∷ []) (length pre)
      ≡ f ∷ split_from fuel input (c ∷ []) (length (pre ++ (f ++ c ∷ [])))
unfolding split_from
split_from-step fuel input c pre f rest e free b =
    let l : length input ≡ length pre + suc (length f + length rest) =
      ap length e ∙ omega (arith, length-append pre (f ++ c ∷ rest), length-append f (c ∷ rest)) in
    let n : length (pre ++ (f ++ c ∷ [])) ≡ length pre + length f + 1 =
      omega (arith, length-append pre (f ++ c ∷ []), length-append f (c ∷ [])) in
    let width : length pre + length f - length pre ≡ length f = omega arith in
    rw
      (
        n,
        find_first_of-find input c (length pre),
        find-append pre f rest c (length pre) (length pre + length f) free e refl refl,
        ne→== (length pre + length f) npos (omega arith),
        width,
        e,
        drop-length_append pre (f ++ c ∷ rest),
        take-length_append f (c ∷ rest),
      )
      refl

last_part :
    (n size : ℕ) (post : Str)
    → size ≡ suc n + length post
    → (if suc n == 0 || ltb (suc n) size then post ∷ [] else []) ≡ trimmed (post ∷ [])
unfolding str_eq
last_part n size [] l = ground arith
last_part n size (x ∷ post) l = ground arith

-- Behind a separator, the parts are the fields without an empty last one.
split_from-fields :
    (fuel : ℕ) (input : Str) (c d : ℕ) (pre post : Str)
    → input ≡ (d ∷ pre) ++ post
    → length post < fuel
    → length input < npos
    → split_from fuel input (c ∷ []) (length (d ∷ pre)) ≡ trimmed (fields c post)
split_from-fields zero input c d pre post e h b = absurd (omega arith)
split_from-fields (suc fuel) input c d pre post e h b = elim (cut c post) [
  | last_field free ↦
      split_from-last fuel input c (d ∷ pre) post e free
      ∙ (rw (fields-Free c post free)
          (last_part (length pre) (length input) post (ap length e ∙ length-append (d ∷ pre) post)))
  | first_field f rest free e' ↦
      let k : length post ≡ length f + suc (length rest) =
        ap length e' ∙ length-append f (c ∷ rest) in
      let e'' : input ≡ (d ∷ pre) ++ (f ++ c ∷ rest) = e ∙ ap (◌++◌ (d ∷ pre)) e' in
      split_from-step fuel input c (d ∷ pre) f rest e'' free b
      ∙ ap (◌∷◌ f) (
          split_from-fields fuel input c d (pre ++ (f ++ c ∷ [])) rest (e'' ∙ simp append_assoc)
            (omega arith) b)
      ∙ sym (trimmed-cons f (fields c rest) (fields-Some c rest))
      ∙ ap trimmed (sym (fields-append c f rest free) ∙ ap (fields c) (sym e'))
]

kept-cons : (f : Str) (fs : List Str) → Some fs → kept (f ∷ fs) ≡ f ∷ trimmed fs
kept-cons f [] h = elim h [ ]
kept-cons f (g ∷ gs) h = refl

from_second :
    (input : Str) (c : ℕ) (f rest : Str)
    → input ≡ f ++ c ∷ rest
    → length input ≡ length f + suc (length rest)
    → length input < npos
    → split_from (length input) input (c ∷ []) (length (f ++ c ∷ [])) ≡ trimmed (fields c rest)
from_second input c [] rest e k b =
    split_from-fields (length input) input c c [] rest e (omega arith) b
from_second input c (x ∷ f) rest e k b =
    split_from-fields (length input) input c x (f ++ c ∷ []) rest (e ∙ simp append_assoc)
      (omega arith) b

-- split at a byte gives the fields between its occurrences, the empty ones too, but not an empty one behind the last
-- occurrence. The text is shorter than npos.
pub split-fields :
    (input : Str) (c : ℕ) → length input < npos → split input (c ∷ []) ≡ kept (fields c input)
unfolding split
split-fields input c b = elim (cut c input) [
  | last_field free ↦
      split_from-last (length input) input c [] input refl free
      ∙ ap kept (sym (fields-Free c input free))
  | first_field f rest free e ↦
      let k : length input ≡ length f + suc (length rest) =
        ap length e ∙ length-append f (c ∷ rest) in
      split_from-step (length input) input c [] f rest e free b
      ∙ ap (◌∷◌ f) (from_second input c f rest e k b)
      ∙ sym (kept-cons f (fields c rest) (fields-Some c rest))
      ∙ ap kept (sym (fields-append c f rest free) ∙ ap (fields c) (sym e))
]
