-- ===== src/Help/Format.antt =====
-- str_format of src/contrib/optparse/OptionParser.cpp as a whole: nothing of a text is lost where its words fit.
use cli_cpp.Prelude.{
  ℕ, zero, suc, ◌+◌, ◌≤◌, ◌<◌, ◌≡◌, refl, sym, ap, ◌∙◌, arith, Bool, true, Option, none, some, List,
  [], ◌∷◌, ◌++◌, append_assoc, Str, codes, length, length-append, ltb, ◌==◌, if◌then◌else◌,
}
use cli_cpp.CppString.{npos, sub64}
use cli_cpp.Setter.{find_first_of}
use cli_cpp.Help.{spaces, byte_at, format_lines, str_format}
use cli_cpp.Help.Names.{Fails}
use cli_cpp.Help.Words.{is_blank, solid, solid-append, text_of, Words, find_first_of-append}
use cli_cpp.Help.Wrap.{
  line_of, EndsBlank, prefix, byte_at-append, format_lines-last, format_lines-step, solid-prefix,
  solid-wrapped, solid-full, solid-glue, solid-spaces, three_ways,
}

-- Where the next white space is.
next_blank :
    (s a b w t : Str) (c i : ℕ)
    → s ≡ a ++ (b ++ (w ++ c ∷ t))
    → i ≡ length a + length b
    → Fails is_blank w
    → is_blank c ≡ true
    → (find_first_of s (codes " \n\t") i ≡ length a + length b + length w)
      × (byte_at s (length a + length b + length w) ≡ c)
      × (length s ≡ length a + length b + length w + suc (length t))
next_blank s a b w t c i e r ws wc =
    let ab = length-append a b in
    let bw = length-append b w in
    let abw = length-append a (b ++ w) in
    let whole : s ≡ (a ++ (b ++ w)) ++ c ∷ t = e ∙ simp append_assoc in
    (
      find_first_of-append (a ++ b) w c t i {s = s} (e ∙ sym (append_assoc a b (w ++ c ∷ t)))
            (r ∙ sym ab) ws wc
          ∙ ap (λ k. k + length w) ab,
      ap (λ x. byte_at x (length a + length b + length w)) whole
          ∙ byte_at-append (a ++ (b ++ w)) c t (length a + length b + length w)
              (omega (arith, abw, bw)),
      ap length whole ∙ omega (arith, length-append (a ++ (b ++ w)) (c ∷ t), abw, bw),
    )

format_lines-solid :
    (s : Str) (pre len room : ℕ)
    → length s < npos
    → room + pre ≤ len
    → (fuel : ℕ) (a : Str) (b : Option (Str × ℕ)) (w : Str) (l : List (ℕ × Str)) (p : Str)
      (i linestart line : ℕ)
    → s ≡ a ++ (line_of b ++ text_of w l)
    → linestart ≡ length a
    → i ≡ length a + length (line_of b)
    → length l < fuel
    → solid p ≡ []
    → EndsBlank b
    → Words room w l
    → solid (format_lines fuel s pre len p i linestart line) ≡ solid (line_of b ++ text_of w l)
format_lines-solid s pre len room m fit zero a b w l p i linestart line e q r f h g ws =
    absurd (omega arith)
format_lines-solid s pre len room m fit (suc fuel) a b w [] p i linestart line e q r f h g ws =
    format_lines-last s pre len fuel a b w p i linestart line e q r h ws.0
format_lines-solid s pre len room m fit (suc fuel) a b w ((c, v) ∷ l) p i linestart line e q r f h g
      (ws, wl, wc, vs) =
    let t : Str = text_of v l in
    let new_pos : ℕ = length a + length (line_of b) + length w in
    let p' : Str = prefix s pre len p line in
    let hp : solid p' ≡ [] = solid-prefix s pre len p line h in
    let shown : s ≡ a ++ ((line_of b ++ w) ++ c ∷ t) = e ∙ simp append_assoc in
    let next_line : s ≡ (a ++ line_of b) ++ ((w ++ c ∷ []) ++ t) = e ∙ simp append_assoc in
    let next_start : s ≡ ((a ++ (line_of b ++ w)) ++ c ∷ []) ++ t = e ∙ simp append_assoc in
    let same_line : s ≡ a ++ (((line_of b ++ w) ++ c ∷ []) ++ t) = e ∙ simp append_assoc in
    let bw = length-append (line_of b) w in
    let ab = length-append a (line_of b) in
    let abw = length-append a (line_of b ++ w) in
    let (found, at, size) = next_blank s a (line_of b) w t c i e r ws wc in
    ap solid (
      format_lines-step s pre len fuel c new_pos p i linestart line found (omega (arith, m, size))
        at)
    ∙ three_ways (c == b'\n') (ltb (linestart + len) (new_pos + pre)) _ _ _
        (solid (line_of b ++ (w ++ c ∷ t)))
        (λ _.
          solid-wrapped s pre len a (line_of b ++ w) (c ∷ t) p'
            (format_lines fuel s pre len p' (new_pos + 1) (new_pos + 1) (line + 1))
            (sub64 (sub64 (new_pos + 1) linestart) 1) linestart shown q
            (omega (arith, m, size, q, bw)) hp
          ∙ ap (◌++◌ (solid (line_of b ++ w))) (
              format_lines-solid s pre len room m fit fuel ((a ++ (line_of b ++ w)) ++ c ∷ []) none
                v l p' (new_pos + 1) (new_pos + 1) (line + 1) next_start
                (omega (arith, length-append (a ++ (line_of b ++ w)) (c ∷ []), abw, bw))
                (omega (arith, length-append (a ++ (line_of b ++ w)) (c ∷ []), abw, bw))
                (omega (arith, f)) hp tt vs)
          ∙ solid-glue (line_of b) w t c wc)
        (λ full.
          solid-full s pre len a b w (w ++ c ∷ t) p'
            (format_lines fuel s pre len p' (new_pos + 1) i (line + 1)) i linestart new_pos e q r
            refl m hp g (omega (arith, wl, fit)) full
          ∙ ap (◌++◌ (solid (line_of b))) (
              format_lines-solid s pre len room m fit fuel (a ++ line_of b) (some (w, c)) v l p'
                (new_pos + 1) i (line + 1) next_line (r ∙ sym ab)
                (omega (arith, ab, length-append w (c ∷ []))) (omega (arith, f)) hp wc vs)
          ∙ sym (solid-append (line_of b) ((w ++ c ∷ []) ++ t))
          ∙ ap (λ x. solid (line_of b ++ x)) (append_assoc w (c ∷ []) t))
        (λ _.
          format_lines-solid s pre len room m fit fuel a (some (line_of b ++ w, c)) v l p'
            (new_pos + 1) linestart line same_line q
            (omega (arith, length-append (line_of b ++ w) (c ∷ []), bw)) (omega (arith, f)) hp wc vs
          ∙ ap solid (simp append_assoc))

text_of-length : (w : Str) (l : List (ℕ × Str)) → length l ≤ length (text_of w l)
text_of-length w [] = omega arith
text_of-length w ((c, v) ∷ l) =
    let h = text_of-length v l in let n = length-append w (c ∷ text_of v l) in omega (arith, h, n)

-- str_format changes only the white space of a text: without it, what is printed is the text, for every prefix, width and
-- choice of indenting the first line. Each word fits on a line behind the prefix, and the text is shorter than npos.
pub str_format-solid :
    (pre len room : ℕ) (indent_first : Bool) (w : Str) (l : List (ℕ × Str))
    → Words room w l
    → room + pre ≤ len
    → length (text_of w l) < npos
    → solid (str_format (text_of w l) pre len indent_first) ≡ solid (text_of w l)
unfolding str_format
str_format-solid pre len room indent_first w l ws fit m =
    let enough = text_of-length w l in
    let blank : solid (if indent_first then spaces pre else []) ≡ [] =
      ground (arith, solid-spaces pre) in
    format_lines-solid (text_of w l) pre len room m fit (suc (length (text_of w l))) [] none w l
      (if indent_first then spaces pre else []) 0 0 0 refl refl refl (omega (arith, enough)) blank
      tt ws
