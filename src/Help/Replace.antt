-- ===== src/Help/Replace.antt =====
-- str_replace of src/contrib/optparse/OptionParser.cpp, which puts the program's name and the defaults into the help.
use cli_cpp.Prelude.{
  ℕ, zero, suc, ◌+◌, ◌≤◌, ◌<◌, ◌≡◌, refl, false, sym, ap, ◌∙◌, List, [], ◌∷◌, ◌++◌, append_assoc,
  arith, Str, length, length-append, ◌==◌, ne→==, drop, take-length_append, drop-length_append,
}
use cli_cpp.CppString.{npos, find, replace}
use cli_cpp.CppString.Find.{Free, find-pattern, find-Free}
use cli_cpp.Help.{replace_from, str_replace}

-- The pieces with the separator between them.
abbrev pub pieces_with : Str → List Str → Str
pieces_with sep [] = []
pieces_with sep (s ∷ []) = s
pieces_with sep (s ∷ (t ∷ l)) = s ++ (sep ++ pieces_with sep (t ∷ l))

abbrev pub AllFree : ℕ → List Str → Type 0
AllFree c [] = Unit
AllFree c (s ∷ l) = Free c s × AllFree c l

-- A part that is replaced.
replace-append :
    (a b d repl : Str) (at n : ℕ) {s : Str}
    → s ≡ a ++ (b ++ d)
    → at ≡ length a
    → n ≡ length b
    → replace s at n repl ≡ (a ++ repl) ++ d
unfolding replace
replace-append a b d repl at n e p q =
    let behind : drop (length a + length b) (a ++ (b ++ d)) ≡ d =
      ap (λ k. drop k (a ++ (b ++ d))) (sym (length-append a b))
      ∙ ap (drop (length (a ++ b))) (sym (append_assoc a b d))
      ∙ drop-length_append (a ++ b) d in
    rw (e, p, q, take-length_append a (b ++ d), behind) (sym (append_assoc a repl d))

module _ (c : ℕ) (ps repl : Str) where
  replace_from-pieces :
      (fuel : ℕ) (pre s : Str) (l : List Str)
      → length l < fuel
      → AllFree c (s ∷ l)
      → length pre + length (pieces_with repl (s ∷ l)) < npos
      → replace_from fuel (pre ++ pieces_with (c ∷ ps) (s ∷ l)) (c ∷ ps) repl (length pre)
        ≡ pre ++ pieces_with repl (s ∷ l)
  unfolding replace_from
  replace_from-pieces zero pre s l f h b = absurd (omega arith)
  replace_from-pieces (suc fuel) pre s [] f h b =
      rw (find-Free pre s c ps (length pre) {s = pre ++ s} h.0 refl refl) refl
  replace_from-pieces (suc fuel) pre s (t ∷ l) f h b =
      let rest : Str = pieces_with (c ∷ ps) (t ∷ l) in
      let whole : Str = pre ++ (s ++ c ∷ (ps ++ rest)) in
      let sizes : length (pieces_with repl (s ∷ t ∷ l))
          ≡ length s + (length repl + length (pieces_with repl (t ∷ l))) =
        length-append s (repl ++ pieces_with repl (t ∷ l))
        ∙ ap (λ k. length s + k) (length-append repl (pieces_with repl (t ∷ l))) in
      let at : find whole (c ∷ ps) (length pre) ≡ length (pre ++ s) =
        find-pattern pre s rest c ps (length pre) (length (pre ++ s)) {s = whole} h.0 refl refl
          (length-append pre s) in
      let found : (length (pre ++ s) == npos) ≡ false =
        ne→== (length (pre ++ s)) npos (omega (arith, length-append pre s, sizes)) in
      let replaced : replace whole (length (pre ++ s)) (suc (length ps)) repl
          ≡ ((pre ++ s) ++ repl) ++ rest =
        replace-append (pre ++ s) (c ∷ ps) rest repl (length (pre ++ s)) (suc (length ps))
          {s = whole} (sym (append_assoc pre s (c ∷ (ps ++ rest)))) refl refl in
      rw (at, found, replaced, ← length-append (pre ++ s) repl)
        (replace_from-pieces fuel ((pre ++ s) ++ repl) t l (omega arith) h.1
            (omega (arith, length-append (pre ++ s) repl, length-append pre s, sizes))
          ∙ (simp append_assoc))

pieces_length :
    (c : ℕ) (ps s : Str) (l : List Str) → length l ≤ length (pieces_with (c ∷ ps) (s ∷ l))
pieces_length c ps s [] = omega arith
pieces_length c ps s (t ∷ l) =
    let h = pieces_length c ps t l in
    let n = length-append s (c ∷ (ps ++ pieces_with (c ∷ ps) (t ∷ l))) in
    let k = length-append ps (pieces_with (c ∷ ps) (t ∷ l)) in omega (arith, h, n, k)

-- str_replace replaces every occurrence of the pattern: pieces with the pattern between them become the same pieces
-- with the replacement between them, and a pattern that comes with a replacement stays. The first byte of the pattern is in none of the pieces, and the
-- result is shorter than npos.
pub str_replace-pieces :
    (c : ℕ) (ps repl s : Str) (l : List Str)
    → AllFree c (s ∷ l)
    → length (pieces_with repl (s ∷ l)) < npos
    → str_replace (pieces_with (c ∷ ps) (s ∷ l)) (c ∷ ps) repl ≡ pieces_with repl (s ∷ l)
unfolding str_replace
str_replace-pieces c ps repl s l h b =
    let enough = pieces_length c ps s l in
    replace_from-pieces c ps repl (suc (length (pieces_with (c ∷ ps) (s ∷ l)))) [] s l (omega arith)
      h (omega (arith, b))
