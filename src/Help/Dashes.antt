-- ===== src/Help/Dashes.antt =====
-- The dest of an option in src/contrib/optparse/OptionParser.cpp, its long name with underscores, by str_replace.
use cli_cpp.Prelude.{
  ℕ, suc, ◌<◌, ◌≡◌, refl, sym, ap, ◌∙◌, subst, List, [], ◌∷◌, arith, Str, codes, length, ◌==◌,
  ==→eq, false, ◌≢◌, Bool-cases, inl, inr,
}
use cli_cpp.CppString.{npos}
use cli_cpp.Optparse.{underscores}
use cli_cpp.Help.{str_replace}
use cli_cpp.Help.Replace.{pieces_with, AllFree, str_replace-pieces}

-- A text as its pieces between dashes.
data Pieces : Str → Type 0 where
  pieces :
      {s : Str} (w : Str) (l : List Str)
      → AllFree b'-' (w ∷ l)
      → s ≡ pieces_with (codes "-") (w ∷ l)
      → underscores s ≡ pieces_with (codes "_") (w ∷ l)
      → Pieces s

pieces_with-cons :
    (sep : Str) (c : ℕ) (w : Str) (l : List Str)
    → pieces_with sep ((c ∷ w) ∷ l) ≡ c ∷ pieces_with sep (w ∷ l)
pieces_with-cons sep c w [] = refl
pieces_with-cons sep c w (v ∷ l) = refl

length-underscores : (s : Str) → length (underscores s) ≡ length s
unfolding underscores
length-underscores [] = refl
length-underscores (c ∷ s) = ap suc (length-underscores s)

no_dash : (c : ℕ) → (c == b'-') ≡ false → b'-' ≢ c
no_dash c d = ground arith

cut_at_dashes : (s : Str) → Pieces s
unfolding underscores
cut_at_dashes [] = pieces [] [] (tt, tt) refl refl
cut_at_dashes (c ∷ s) = elim (cut_at_dashes s) [
  | pieces w l h e u ↦ elim (Bool-cases (c == b'-')) [
    | inl d ↦
        pieces [] (w ∷ l) (tt, h)
          (ap (◌∷◌ c) e ∙ ap (λ k. k ∷ pieces_with (codes "-") (w ∷ l)) (==→eq c b'-' d))
          (rw (d, u) refl)
    | inr d ↦
        pieces (c ∷ w) l ((no_dash c d, h.0), h.1)
          (ap (◌∷◌ c) e ∙ sym (pieces_with-cons (codes "-") c w l))
          (rw (d, u) (sym (pieces_with-cons (codes "_") c w l)))
  ]
]

-- Replacing every dash by str_replace gives the text with an underscore for each dash, for a text that is shorter than npos.
pub str_replace-underscores :
    (s : Str) → length s < npos → str_replace s (codes "-") (codes "_") ≡ underscores s
str_replace-underscores s b = elim (cut_at_dashes s) [
  | pieces w l h e u ↦
      ap (λ x. str_replace x (codes "-") (codes "_")) e
      ∙ str_replace-pieces b'-' [] (codes "_") w l h
          (subst (λ x. length x < npos) u (omega (arith, b, length-underscores s)))
      ∙ sym u
]
