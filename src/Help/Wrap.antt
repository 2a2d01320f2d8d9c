-- ===== src/Help/Wrap.antt =====
-- str_format of src/contrib/optparse/OptionParser.cpp, which wraps the texts of the help.
use cli_cpp.Prelude.{
  ℕ, zero, suc, ◌+◌, ◌≤◌, ◌<◌, ◌≡◌, refl, sym, ap, ◌∙◌, arith, Bool, true, false, ◌||◌, Option,
  none, some, [], ◌∷◌, ◌++◌, append_assoc, append-nil, Str, codes, length, length-append, ltb, ◌==◌,
  if◌then◌else◌, ne→==, take, drop, take-length_append, drop-length_append,
}
use cli_cpp.CppString.{npos, sub64}
use cli_cpp.Setter.{one_of, find_first_of}
use cli_cpp.Help.{spaces, byte_at, format_lines}
use cli_cpp.Help.Names.{Fails}
use cli_cpp.Help.Words.{is_blank, solid, solid-append, find_first_of-Fails}

-- What stands on the line that is open: nothing, or a text with white space behind it.
abbrev pub line_of : Option (Str × ℕ) → Str
line_of none = []
line_of (some (b, d)) = b ++ d ∷ []

abbrev pub EndsBlank : Option (Str × ℕ) → Type 0
EndsBlank none = Unit
EndsBlank (some (b, d)) = is_blank d ≡ true

pub solid-spaces : (n : ℕ) → solid (spaces n) ≡ []
unfolding spaces one_of
solid-spaces zero = refl
solid-spaces (suc n) = solid-spaces n

solid-blank : (b : Str) (d : ℕ) → is_blank d ≡ true → solid (b ++ d ∷ []) ≡ solid b
solid-blank b d h = solid-append b (d ∷ []) ∙ (rw h (append-nil (solid b)))

pub byte_at-append : (a : Str) (c : ℕ) (t : Str) (i : ℕ) → i ≡ length a → byte_at (a ++ c ∷ t) i ≡ c
unfolding byte_at
byte_at-append [] c t i p = rw p refl
byte_at-append (x ∷ a) c t i p = rw p (byte_at-append a c t (length a) refl)

-- A line that is printed: a part of the text, between a prefix and the end of the line.
solid-line :
    (p part rest : Str)
    → solid p ≡ []
    → solid (p ++ (part ++ (codes "\n" ++ rest))) ≡ solid part ++ solid rest
unfolding one_of
solid-line p part rest h =
    solid-append p (part ++ (codes "\n" ++ rest)) ∙ (rw h (solid-append part (codes "\n" ++ rest)))

-- The part of the text that a line shows.
part_of :
    (a b t : Str) (n : ℕ) {s : Str}
    → s ≡ a ++ (b ++ t)
    → n ≡ length b
    → take n (drop (length a) s) ≡ b
part_of a b t n e p = rw (e, p, drop-length_append a (b ++ t)) (take-length_append b t)

two_tests :
    (n t : Bool) (f : ℕ → Str) (x y : ℕ) (r : Str)
    → (if n || t then f (if n then x else y) else r) ≡ (if n then f x else if t then f y else r)
two_tests true t f x y r = refl
two_tests false true f x y r = refl
two_tests false false f x y r = refl

module _ (s : Str) (pre len : ℕ) where
  pub format_lines-last :
      (fuel : ℕ) (a : Str) (b : Option (Str × ℕ)) (w p : Str) (i linestart line : ℕ)
      → s ≡ a ++ (line_of b ++ w)
      → linestart ≡ length a
      → i ≡ length a + length (line_of b)
      → solid p ≡ []
      → Fails is_blank w
      → solid (format_lines (suc fuel) s pre len p i linestart line) ≡ solid (line_of b ++ w)
  unfolding format_lines one_of
  format_lines-last fuel a b w p i linestart line e q r h f =
      let found =
        find_first_of-Fails (a ++ line_of b) w i {s = s} (e ∙ sym (append_assoc a (line_of b) w))
          (r ∙ sym (length-append a (line_of b))) f in
      let shown : drop linestart s ≡ line_of b ++ w =
        ap (drop linestart) e
        ∙ ap (λ n. drop n (a ++ (line_of b ++ w))) q
        ∙ drop-length_append a (line_of b ++ w) in
      rw (found, shown)
        (solid-append p ((line_of b ++ w) ++ codes "\n")
          ∙ (rw h
              (solid-append (line_of b ++ w) (codes "\n") ∙ append-nil (solid (line_of b ++ w)))))

  -- The prefix of a line behind the first.
  abbrev pub prefix : Str → ℕ → Str
  prefix p line = if line == 1 then spaces pre else p

  pub solid-prefix : (p : Str) (line : ℕ) → solid p ≡ [] → solid (prefix p line) ≡ []
  solid-prefix p line h = ground (arith, h, solid-spaces pre)

  -- What the loop does at a position of white space.
  pub format_lines-step :
      (fuel : ℕ) (c new_pos : ℕ) (p : Str) (i linestart line : ℕ)
      → find_first_of s (codes " \n\t") i ≡ new_pos
      → new_pos < npos
      → byte_at s new_pos ≡ c
      → format_lines (suc fuel) s pre len p i linestart line ≡ (
          if c == b'\n'
          then prefix p line
            ++ (take (sub64 (sub64 (new_pos + 1) linestart) 1) (drop linestart s)
                ++ (codes "\n"
                    ++ format_lines fuel s pre len
                        (prefix p line)
                        (new_pos + 1)
                        (new_pos + 1)
                        (line + 1)))
          else if ltb (linestart + len) (new_pos + pre)
          then prefix p line
            ++ (take (sub64 (sub64 i linestart) 1) (drop linestart s)
                ++ (codes "\n"
                    ++ format_lines fuel s pre len (prefix p line) (new_pos + 1) i (line + 1)))
          else format_lines fuel s pre len (prefix p line) (new_pos + 1) linestart line)
  unfolding format_lines
  format_lines-step fuel c new_pos p i linestart line e h k =
      rw (e, ne→== new_pos npos (omega arith), k)
        (two_tests (c == b'\n') (ltb (linestart + len) (new_pos + pre))
          (λ x.
            prefix p line
            ++ (take (sub64 (sub64 x linestart) 1) (drop linestart s)
                ++ (codes "\n"
                    ++ format_lines fuel s pre len (prefix p line) (new_pos + 1) x (line + 1))))
          (new_pos + 1) i
          (format_lines fuel s pre len (prefix p line) (new_pos + 1) linestart line))

  -- A line that is printed, and what comes behind it.
  pub solid-wrapped :
      (a b t p rest : Str) (n linestart : ℕ)
      → s ≡ a ++ (b ++ t)
      → linestart ≡ length a
      → n ≡ length b
      → solid p ≡ []
      → solid (p ++ (take n (drop linestart s) ++ (codes "\n" ++ rest))) ≡ solid b ++ solid rest
  solid-wrapped a b t p rest n linestart e q r h =
      solid-line p (take n (drop linestart s)) rest h
      ∙ ap (λ x. solid x ++ solid rest)
          (ap (λ k. take n (drop k s)) q ∙ part_of a b t n {s = s} e r)

  -- A line that is full: the words that stand on it are printed, the word that is too much is not.
  pub solid-full :
      (a : Str) (b : Option (Str × ℕ)) (w t p rest : Str) (i linestart new_pos : ℕ)
      → s ≡ a ++ (line_of b ++ t)
      → linestart ≡ length a
      → i ≡ length a + length (line_of b)
      → new_pos ≡ length a + length (line_of b) + length w
      → length s < npos
      → solid p ≡ []
      → EndsBlank b
      → length w + pre ≤ len
      → ltb (linestart + len) (new_pos + pre) ≡ true
      → solid (p ++ (take (sub64 (sub64 i linestart) 1) (drop linestart s) ++ (codes "\n" ++ rest)))
        ≡ solid (line_of b) ++ solid rest
  solid-full a none w t p rest i linestart new_pos e q r k m h f g l = absurd (ground arith)
  solid-full a (some (b, d)) w t p rest i linestart new_pos e q r k m h f g l =
      let size : length s ≡ length a + (length b + 1 + length t) =
        ap length e
        ∙ omega (
          arith,
          length-append a ((b ++ d ∷ []) ++ t),
          length-append (b ++ d ∷ []) t,
          length-append b (d ∷ []),
        ) in
      let width : sub64 (sub64 i linestart) 1 ≡ length b =
        omega (arith, r, q, size, length-append b (d ∷ [])) in
      solid-wrapped a b (d ∷ t) p rest (sub64 (sub64 i linestart) 1) linestart
        (e ∙ ap (◌++◌ a) (append_assoc b (d ∷ []) t)) q width h
      ∙ ap (λ x. x ++ solid rest) (sym (solid-blank b d f))

pub solid-glue :
    (b w t : Str) (c : ℕ)
    → is_blank c ≡ true
    → solid (b ++ w) ++ solid t ≡ solid (b ++ (w ++ c ∷ t))
solid-glue b w t c h =
    sym (ap solid (sym (append_assoc b w (c ∷ t))) ∙ solid-append (b ++ w) (c ∷ t) ∙ (rw h refl))

pub three_ways :
    (n t : Bool) (x y z r : Str)
    → (n ≡ true → solid x ≡ r)
    → (t ≡ true → solid y ≡ r)
    → (t ≡ false → solid z ≡ r)
    → solid (if n then x else if t then y else z) ≡ r
three_ways true t x y z r f g h = f refl
three_ways false true x y z r f g h = g refl
three_ways false false x y z r f g h = h refl
