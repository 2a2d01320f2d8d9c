-- ===== src/Setter/Content.antt =====
-- getContent of src/common/options/OptionsHelper.cpp: what is left of a file.
use cli_cpp.Prelude.{
  ℕ, zero, suc, ◌≤◌, ◌<◌, ◌≡◌, refl, ap, ◌∙◌, inl, inr, true, false, Option, some, arith, [], ◌∷◌,
  ◌++◌, length, length-append, Str, codes, Bool-cases,
}
use cli_cpp.Optparse.{Values, value_of, is_set}
use cli_cpp.Optparse.Numbers.{is_space}
use cli_cpp.Setter.{drop_spaces, word, read_words, get_content}

-- No byte is a space.
abbrev pub IsWord : Str → Type 0
IsWord [] = Unit
IsWord (c ∷ s) = (is_space c ≡ false) × IsWord s

word-IsWord : (s : Str) → IsWord s → word s ≡ (s, [])
unfolding word
word-IsWord [] h = refl
word-IsWord (c ∷ s) (a, h) = rw (a, word-IsWord s h) refl

-- What is left behind the first word of a text that ends with a space and a word.
word-append :
    (s w : Str)
    → (f : Str) × (t : Str) × (word (s ++ b' ' ∷ w) ≡ (f, t ++ b' ' ∷ w)) × (length t ≤ length s)
unfolding word is_space
word-append [] w = ([], [], refl, omega arith)
word-append (c ∷ s) w = elim (Bool-cases (is_space c)) [
  | inl e ↦ ([], c ∷ s, rw e refl, omega arith)
  | inr e ↦ let (f, t, p, l) = word-append s w in (c ∷ f, t, rw (e, p) refl, omega arith)
]

data Skipped (s w : Str) : Type 0 where
  at_end : drop_spaces (s ++ b' ' ∷ w) ≡ w → Skipped s w
  inside :
      (c : ℕ) (t : Str)
      → is_space c ≡ false
      → drop_spaces (s ++ b' ' ∷ w) ≡ c ∷ (t ++ b' ' ∷ w)
      → length t < length s
      → Skipped s w

skip : (s : Str) (c : ℕ) (w : Str) → is_space c ≡ false → Skipped s (c ∷ w)
unfolding drop_spaces is_space
skip [] c w h = at_end (rw h refl)
skip (x ∷ s) c w h = elim (Bool-cases (is_space x)) [
  | inl e ↦ elim (skip s c w h) [
    | at_end p ↦ at_end (rw e p)
    | inside d t n p l ↦ inside d t n (rw e p) (omega arith)
  ]
  | inr e ↦ inside x s e (rw e refl) (omega arith)
]

word-cons : (d : ℕ) (s f t : Str) → is_space d ≡ false → word s ≡ (f, t) → word (d ∷ s) ≡ (d ∷ f, t)
unfolding word
word-cons d s f t n q = rw (n, q) refl

-- What a round makes of a word and what is behind it.
abbrev after_word : ℕ → Str × Str → Str
after_word fuel r = elim r.1 [ [] ↦ r.0 | d ∷ u ↦ read_words fuel r.0 (d ∷ u) ]

read_next :
    (fuel : ℕ) (f t rest : Str)
    → after_word fuel (f, t ++ b' ' ∷ rest) ≡ read_words fuel f (t ++ b' ' ∷ rest)
read_next fuel f [] rest = refl
read_next fuel f (x ∷ t) rest = refl

read_words-last :
    (fuel : ℕ) (content s : Str) (c : ℕ) (w : Str)
    → IsWord (c ∷ w)
    → length s < fuel
    → read_words fuel content (s ++ b' ' ∷ (c ∷ w)) ≡ c ∷ w
unfolding read_words
read_words-last zero content s c w h b = absurd (omega arith)
read_words-last (suc fuel) content s c w h b = elim (skip s c w h.0) [
  | at_end p ↦ rw (p, read_words, word-IsWord (c ∷ w) h) (ap (λ r. r.0) (word-IsWord (c ∷ w) h))
  | inside d t n p l ↦
      let (f, t', q, k) = word-append t (c ∷ w) in
      rw (p, read_words)
        (ap (after_word fuel) (word-cons d _ f (t' ++ b' ' ∷ (c ∷ w)) n q)
          ∙ read_next fuel (d ∷ f) t' (c ∷ w)
          ∙ read_words-last fuel (d ∷ f) t' c w h (omega arith))
]

-- If the content comes from a file whose text ends with a space and a word, the content is that word alone: what stands
-- in front of it is lost.
pub get_content-last :
    (file : Str → Option Str) (vs : Values) (s : Str) (c : ℕ) (w : Str)
    → is_set (codes "msg-content") vs ≡ false
    → is_set (codes "msg-content-from-file") vs ≡ true
    → file (value_of (codes "msg-content-from-file") vs) ≡ some (s ++ b' ' ∷ (c ∷ w))
    → IsWord (c ∷ w)
    → get_content file vs ≡ inl (c ∷ w)
unfolding get_content
get_content-last file vs s c w e g f h =
    rw (e, g, f, get_content)
      (ap inl (
        read_words-last (suc (length (s ++ b' ' ∷ (c ∷ w)))) [] s c w h
          (omega (arith, length-append s (b' ' ∷ (c ∷ w))))))
