-- ===== src/Formatter/Escapes.antt =====
-- The quotes in the texts that src/common/formatter/DictFormatter.cpp prints.
use cli_cpp.Prelude.{
  ℕ, zero, suc, ◌+◌, ◌<◌, ◌≡◌, refl, sym, ap, ◌∙◌, inl, inr, false, Option, none, some, [], ◌∷◌,
  ◌++◌, append_assoc, arith, Str, codes, ◌==◌, if◌then◌else◌, ne→==, ==→eq, Bool-cases, length,
  length-append, take-length_append, drop-behind,
}
use cli_cpp.CppString.{npos, find}
use cli_cpp.CppString.Find.{Free, find-append, find-Free}
use cli_cpp.CppString.Fields.{last_field, first_field, cut}
use cli_cpp.Formatter.{escape_loop, escape_quotes}

-- A backslash before each quote.
unfoldable pub escaped : Str → Str
escaped [] = []
escaped (c ∷ s) = let rest = escaped s in if c == b'\'' then b'\\' ∷ (b'\'' ∷ rest) else c ∷ rest

escaped-Free : (s : Str) → Free b'\'' s → escaped s ≡ s
unfolding escaped
escaped-Free [] h = refl
escaped-Free (c ∷ s) h = ground (arith, h.0, escaped-Free s h.1)

escaped-append :
    (f rest : Str)
    → Free b'\'' f
    → escaped (f ++ b'\'' ∷ rest) ≡ f ++ (b'\\' ∷ (b'\'' ∷ escaped rest))
unfolding escaped
escaped-append [] rest h = refl
escaped-append (c ∷ f) rest h = ground (arith, h.0, escaped-append f rest h.1)

-- One round of the loop, in terms of the text before the next quote and the text behind it.
escape_step :
    (fuel from : ℕ) (g rest : Str)
    → find (g ++ b'\'' ∷ rest) (codes "'") from ≡ length g
    → length g < npos
    → escape_loop (suc fuel) (g ++ b'\'' ∷ rest) (find (g ++ b'\'' ∷ rest) (codes "'") from)
      ≡ escape_loop fuel
          ((g ++ codes "\\'") ++ rest)
          (find ((g ++ codes "\\'") ++ rest) (codes "'") (length (g ++ codes "\\'")))
unfolding escape_loop
escape_step fuel from g rest e l =
    rw
      (
        e,
        ne→== (length g) npos (omega arith),
        take-length_append g (b'\'' ∷ rest),
        drop-behind b'\'' g rest,
        ← append_assoc g (codes "\\'") rest,
        length-append g (codes "\\'"),
      )
      refl

escape_loop-escaped :
    (fuel : ℕ) (before rest : Str)
    → length rest < fuel
    → length before + length rest + length rest < npos
    → escape_loop fuel (before ++ rest) (find (before ++ rest) (codes "'") (length before))
      ≡ before ++ escaped rest
unfolding escape_loop
escape_loop-escaped zero before rest b l = absurd (omega arith)
escape_loop-escaped (suc fuel) before rest b l = elim (cut b'\'' rest) [
  | last_field h ↦
      rw
        (
          escape_loop,
          find-Free before rest b'\'' [] (length before) {s = before ++ rest} h refl refl,
          escaped-Free rest h,
        )
        refl
  | first_field f r h e ↦
      let sizes : length rest ≡ length f + suc (length r) =
        ap length e ∙ length-append f (b'\'' ∷ r) in
      let at : find ((before ++ f) ++ b'\'' ∷ r) (codes "'") (length before)
          ≡ length (before ++ f) =
        find-append before f r b'\'' (length before) (length (before ++ f))
          {s = (before ++ f) ++ b'\'' ∷ r} h (append_assoc before f (b'\'' ∷ r)) refl
          (length-append before f) in
      let regroup : before ++ rest ≡ (before ++ f) ++ b'\'' ∷ r =
        ap (◌++◌ before) e ∙ sym (append_assoc before f (b'\'' ∷ r)) in
      ap (λ s. escape_loop (suc fuel) s (find s (codes "'") (length before))) regroup
      ∙ escape_step fuel (length before) (before ++ f) r at
          (omega (arith, sizes, length-append before f))
      ∙ escape_loop-escaped fuel ((before ++ f) ++ codes "\\'") r (omega (arith, sizes))
          (omega (arith, sizes, length-append (before ++ f) (codes "\\'"), length-append before f))
      ∙ (simp append_assoc)
      ∙ ap (◌++◌ before) (sym (ap escaped e ∙ escaped-append f r h))
]

-- escapeQuotes puts a backslash before each quote and changes nothing else. Twice the length of the text
-- is less than npos.
pub escape_quotes-escaped : (s : Str) → length s + length s < npos → escape_quotes s ≡ escaped s
unfolding escape_quotes
escape_quotes-escaped s l = escape_loop-escaped (suc (length s)) [] s (omega arith) (omega arith)

-- Reading a text in quotes, as Python does for quotes and backslashes: the text up to the quote that
-- ends it, and what follows.
abbrev pub prefixed : ℕ → Option (Str × Str) → Option (Str × Str)
prefixed c none = none
prefixed c (some (t, r)) = some (c ∷ t, r)

unfoldable pub read_quoted : Str → Option (Str × Str)
read_quoted [] = none
read_quoted (c ∷ []) = if c == b'\'' then some ([], []) else none
read_quoted (c ∷ (d ∷ s)) =
    let escaped_rest = read_quoted s in
    let rest = read_quoted (d ∷ s) in
    if c == b'\''
    then some ([], d ∷ s)
    else if c == b'\\'
    then prefixed d escaped_rest
    else prefixed c rest

read_quoted-cons :
    (c : ℕ) (s : Str)
    → (c == b'\'') ≡ false
    → (c == b'\\') ≡ false
    → read_quoted (c ∷ s) ≡ prefixed c (read_quoted s)
unfolding read_quoted
read_quoted-cons c [] e f = rw e refl
read_quoted-cons c (d ∷ s) e f = rw (e, f) refl

read_quoted-quote : (s : Str) → read_quoted (b'\'' ∷ s) ≡ some ([], s)
unfolding read_quoted
read_quoted-quote [] = refl
read_quoted-quote (d ∷ s) = refl

read_quoted-escaped :
    (s rest : Str) → Free b'\\' s → read_quoted (escaped s ++ b'\'' ∷ rest) ≡ some (s, rest)
unfolding read_quoted escaped
read_quoted-escaped [] rest h = read_quoted-quote rest
read_quoted-escaped (c ∷ s) rest h = elim (Bool-cases (c == b'\'')) [
  | inl e ↦ rw (e, read_quoted-escaped s rest h.1, ==→eq c b'\'' e) refl
  | inr e ↦ rw e (
      read_quoted-cons c (escaped s ++ b'\'' ∷ rest) e (ne→== c b'\\' (λ q. h.0 (sym q)))
      ∙ ap (prefixed c) (read_quoted-escaped s rest h.1))
]

-- A text without backslashes is read back from what escapeQuotes makes of it, and the reading ends at the
-- quote behind it. Twice the length of the text is less than npos.
pub read_quoted-escape_quotes :
    (s rest : Str)
    → Free b'\\' s
    → length s + length s < npos
    → read_quoted (escape_quotes s ++ b'\'' ∷ rest) ≡ some (s, rest)
read_quoted-escape_quotes s rest h l = rw (escape_quotes-escaped s l) (read_quoted-escaped s rest h)
