-- ===== src/Decoder/Entries.antt =====
-- The text that src/api/qpid-proton/reactor/formatter/ReactorDecoder.cpp writes through
-- src/common/formatter/DictWriter.cpp and UpstreamWriter.cpp, against a description of the dictionary.
use mathlib.Core.Option
use cli_cpp.Prelude.{
  ℕ, suc, ◌+◌, ◌<◌, ◌≡◌, refl, sym, ap, ◌∙◌, ◌⊎◌, inl, inr, Option, none, some, List, [], ◌∷◌, ◌++◌,
  arith, append-nil, append_assoc, Str, codes, ltb, if◌then◌else◌, Option-cases, length, lt→ltb,
  le→ltb_false,
}
use cli_cpp.Formatter.Joins.{joined}
use cli_cpp.Decoder.{next_index}

-- The texts of all entries, unless one throws.
abbrev pub texts {ℓ} : {X : Type ℓ} → (X → Option Str) → List X → Option (List Str)
texts text [] = some []
texts text (x ∷ l) = elim (text x) [ none ↦ none | some t ↦ Option.map (◌∷◌ t) (texts text l) ]

texts-none :
    {X : Type 0} (text : X → Option Str) (x : X) (l : List X)
    → text x ≡ none
    → texts text (x ∷ l) ≡ none
texts-none text x l e = rw (e, texts) refl

texts-some :
    {X : Type 0} (text : X → Option Str) (x : X) (l : List X) (t : Str)
    → text x ≡ some t
    → texts text (x ∷ l) ≡ Option.map (◌∷◌ t) (texts text l)
texts-some text x l t e = rw (e, texts) refl

texts-cons :
    {X : Type 0} (text : X → Option Str) (x : X) (l : List X)
    → (texts text (x ∷ l) ≡ none)
      ⊎ ((t : Str) × (ts : List Str) × (texts text (x ∷ l) ≡ some (t ∷ ts)))
texts-cons text x l = elim (Option-cases (text x)) [
  | inl e ↦ inl (texts-none text x l e)
  | inr (t, e) ↦ elim (Option-cases (texts text l)) [
    | inl f ↦ inl (texts-some text x l t e ∙ ap (Option.map (◌∷◌ t)) f)
    | inr (ts, f) ↦ inr (t, ts, texts-some text x l t e ∙ ap (Option.map (◌∷◌ t)) f)
  ]
]

pub map-map :
    {A B C : Type 0} (f : B → C) (g : A → B) (o : Option A)
    → Option.map (λ a. f (g a)) o ≡ Option.map f (Option.map g o)
map-map f g none = refl
map-map f g (some a) = refl

joined-texts :
    {X : Type 0} (text : X → Option Str) (x : X) (l : List X) (s t : Str)
    → Option.map (λ ts. ((s ++ t) ++ codes ", ") ++ joined ts) (texts text (x ∷ l))
      ≡ Option.map (λ ts. s ++ joined (t ∷ ts)) (texts text (x ∷ l))
joined-texts text x l s t = elim (texts-cons text x l) [
  | inl e ↦ rw e refl
  | inr (u, us, e) ↦ rw e (ap some (simp append_assoc))
]

-- A loop over entries that puts the text of each behind the stream, and ", " if the index is less than
-- the size.
module _ {X : Type 0} (text : X → Option Str) (size : ℕ) (loop : ℕ → List X → Str → Option Str)
    (ends : (i : ℕ) (s : Str) → loop i [] s ≡ some s)
    (throws : (i : ℕ) (x : X) (l : List X) (s : Str) → text x ≡ none → loop i (x ∷ l) s ≡ none)
    (puts : (i : ℕ) (x : X) (l : List X) (s t : Str)
      → text x ≡ some t
      → loop i (x ∷ l) s
        ≡ loop (next_index i) l (if ltb i size then (s ++ t) ++ codes ", " else s ++ t)) where
  pub loop-joined :
      (i : ℕ) (l : List X) (s : Str)
      → i + length l ≡ suc size
      → size < 4294967296
      → loop i l s ≡ Option.map (λ ts. s ++ joined ts) (texts text l)
  unfolding next_index
  loop-joined i [] s h b = ends i s ∙ ap some (sym (append-nil s))
  loop-joined i (x ∷ []) s h b = elim (Option-cases (text x)) [
    | inl e ↦ throws i x [] s e ∙ ap (Option.map _) (sym (texts-none text x [] e))
    | inr (t, e) ↦
        puts i x [] s t e
        ∙ (rw (le→ltb_false i size (omega arith)) (ends (next_index i) (s ++ t)))
        ∙ ap (Option.map (λ ts. s ++ joined ts)) (sym (texts-some text x [] t e))
  ]
  loop-joined i (x ∷ (y ∷ l)) s h b = elim (Option-cases (text x)) [
    | inl e ↦ throws i x (y ∷ l) s e ∙ ap (Option.map _) (sym (texts-none text x (y ∷ l) e))
    | inr (t, e) ↦
        let next : next_index i ≡ i + 1 = omega arith in
        puts i x (y ∷ l) s t e
        ∙ (rw (lt→ltb i size (omega arith), next)
            (loop-joined (i + 1) (y ∷ l) _ (omega arith) b ∙ joined-texts text y l s t))
        ∙ map-map _ (◌∷◌ t) (texts text (y ∷ l))
        ∙ ap (Option.map (λ ts. s ++ joined ts)) (sym (texts-some text x (y ∷ l) t e))
  ]
