-- ===== src/CppString/Find.antt =====
-- Where `find` stops on a text that is given in parts.
use cli_cpp.Prelude.{
  ℕ, suc, ◌+◌, ◌≡◌, ◌≢◌, refl, none, some, [], ◌∷◌, ◌++◌, arith, Str, true, le→leb, length,
  length-append, drop-length_append,
}
use cli_cpp.CppString.{npos, starts_with, scan, find}

-- The byte c does not occur in the text.
abbrev pub Free : ℕ → Str → Type 0
Free c [] = Unit
Free c (x ∷ xs) = (c ≢ x) × Free c xs

pub Free-append : (c : ℕ) (xs ys : Str) → Free c xs → Free c ys → Free c (xs ++ ys)
Free-append c [] ys h k = k
Free-append c (x ∷ xs) ys h k = (h.0, Free-append c xs ys h.1 k)

starts_with-append : (p d : Str) → starts_with p (p ++ d) ≡ true
unfolding starts_with
starts_with-append [] d = refl
starts_with-append (x ∷ p) d = ground (arith, starts_with-append p d)

scan-append :
    (c : ℕ) (ps : Str) (i : ℕ) (xs ys : Str)
    → Free c xs
    → scan (c ∷ ps) (xs ++ c ∷ (ps ++ ys)) i ≡ some (i + length xs)
unfolding scan starts_with
scan-append c ps i [] ys h = ground (arith, starts_with-append ps ys)
scan-append c ps i (x ∷ xs) ys h = ground (arith, h.0, scan-append c ps (suc i) xs ys h.1)

scan-Free : (c : ℕ) (ps : Str) (i : ℕ) (xs : Str) → Free c xs → scan (c ∷ ps) xs i ≡ none
unfolding scan starts_with
scan-Free c ps i [] h = refl
scan-Free c ps i (x ∷ xs) h = ground (arith, h.0, scan-Free c ps (suc i) xs h.1)

-- The pattern is found behind the part that is free of its first byte.
pub find-pattern :
    (a b d : Str) (c : ℕ) (ps : Str) (pos at : ℕ) {s : Str}
    → Free c b
    → s ≡ a ++ (b ++ c ∷ (ps ++ d))
    → pos ≡ length a
    → at ≡ length a + length b
    → find s (c ∷ ps) pos ≡ at
unfolding find
find-pattern a b d c ps pos at free e p q =
    rw
      (
        e,
        p,
        q,
        le→leb (length a) (length (a ++ (b ++ c ∷ (ps ++ d))))
            (omega (arith, length-append a (b ++ c ∷ (ps ++ d)))),
        drop-length_append a (b ++ c ∷ (ps ++ d)),
      )
      (rw (scan-append c ps (length a) b d free))

pub find-append :
    (a b d : Str) (c pos at : ℕ) {s : Str}
    → Free c b
    → s ≡ a ++ (b ++ c ∷ d)
    → pos ≡ length a
    → at ≡ length a + length b
    → find s (c ∷ []) pos ≡ at
find-append a b d c pos at free e p q = find-pattern a b d c [] pos at free e p q

-- A text that lacks the first byte of the pattern from the position on does not have the pattern.
pub find-Free :
    (a b : Str) (c : ℕ) (ps : Str) (pos : ℕ) {s : Str}
    → Free c b
    → s ≡ a ++ b
    → pos ≡ length a
    → find s (c ∷ ps) pos ≡ npos
unfolding find
find-Free a b c ps pos free e p =
    rw
      (
        e,
        p,
        le→leb (length a) (length (a ++ b)) (omega (arith, length-append a b)),
        drop-length_append a b,
      )
      (rw (scan-Free c ps (length a) b free))
