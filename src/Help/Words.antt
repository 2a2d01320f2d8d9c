-- ===== src/Help/Words.antt =====
-- Words and the white space between them, as str_format of src/contrib/optparse/OptionParser.cpp finds it.
use cli_cpp.Prelude.{
  ℕ, suc, ◌+◌, ◌≤◌, ◌≡◌, refl, ap, arith, Bool, true, none, some, List, [], ◌∷◌, ◌++◌, Str, codes,
  length, length-append, if◌then◌else◌, le→leb, drop-length_append,
}
use cli_cpp.CppString.{npos}
use cli_cpp.Setter.{one_of, scan_any, find_first_of}
use cli_cpp.Help.Names.{Fails}

abbrev pub is_blank : ℕ → Bool
is_blank c = one_of (codes " \n\t") c

-- A text without its white space.
abbrev pub solid : Str → Str
solid [] = []
solid (c ∷ s) = if is_blank c then solid s else c ∷ solid s

pub solid-append : (s t : Str) → solid (s ++ t) ≡ solid s ++ solid t
solid-append [] t = refl
solid-append (c ∷ s) t = ground (arith, solid-append s t)

pub solid-Fails : (w : Str) → Fails is_blank w → solid w ≡ w
solid-Fails [] h = refl
solid-Fails (c ∷ w) h = rw (h.0, solid-Fails w h.1) refl

-- A first word, and further words with the white space in front of each.
abbrev pub text_of : Str → List (ℕ × Str) → Str
text_of w [] = w
text_of w ((c, v) ∷ l) = w ++ c ∷ text_of v l

-- The words have no white space and at most a number of bytes; white space is between them.
abbrev pub Words : ℕ → Str → List (ℕ × Str) → Type 0
Words room w [] = Fails is_blank w × (length w ≤ room)
Words room w ((c, v) ∷ l) =
    Fails is_blank w × (length w ≤ room) × (is_blank c ≡ true) × Words room v l

scan_any-Fails : (w : Str) (i : ℕ) → Fails is_blank w → scan_any (codes " \n\t") w i ≡ none
unfolding scan_any
scan_any-Fails [] i h = refl
scan_any-Fails (c ∷ w) i h = rw (scan_any-Fails w (suc i) h.1, h.0) refl

scan_any-append :
    (w : Str) (c : ℕ) (t : Str) (i : ℕ)
    → Fails is_blank w
    → is_blank c ≡ true
    → scan_any (codes " \n\t") (w ++ c ∷ t) i ≡ some (i + length w)
unfolding scan_any
scan_any-append [] c t i h p = rw p (ap some (omega arith))
scan_any-append (x ∷ w) c t i h p =
    rw (scan_any-append w c t (suc i) h.1 p, h.0) (ap some (omega arith))

pub find_first_of-Fails :
    (a w : Str) (i : ℕ) {s : Str}
    → s ≡ a ++ w
    → i ≡ length a
    → Fails is_blank w
    → find_first_of s (codes " \n\t") i ≡ npos
unfolding find_first_of
find_first_of-Fails a w i e p h =
    rw
      (
        e,
        p,
        le→leb (length a) (length (a ++ w)) (omega (arith, length-append a w)),
        drop-length_append a w,
        scan_any-Fails w (length a) h,
      )
      refl

pub find_first_of-append :
    (a w : Str) (c : ℕ) (t : Str) (i : ℕ) {s : Str}
    → s ≡ a ++ (w ++ c ∷ t)
    → i ≡ length a
    → Fails is_blank w
    → is_blank c ≡ true
    → find_first_of s (codes " \n\t") i ≡ length a + length w
unfolding find_first_of
find_first_of-append a w c t i e p h q =
    rw
      (
        e,
        p,
        le→leb (length a) (length (a ++ (w ++ c ∷ t)))
            (omega (arith, length-append a (w ++ c ∷ t))),
        drop-length_append a (w ++ c ∷ t),
        scan_any-append w c t (length a) h q,
      )
      refl
