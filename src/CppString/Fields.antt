-- ===== src/CppString/Fields.antt =====
-- The fields of a text between separators: the reference for the splitting loops of getStrings in
-- src/common/options/modern/StringAppendCallback.cpp and of the connection URLs in
-- src/api/qpid-proton/reactor/ConnectingClient.cpp.
use cli_cpp.Prelude.{
  ℕ, ◌≡◌, refl, sym, ap, ◌≢◌, inl, inr, List, [], ◌∷◌, ◌++◌, arith, Str, ◌==◌, if◌then◌else◌, eq→==,
  ==→eq, Bool-cases,
}
use cli_cpp.CppString.Find.{Free}

-- A field that begins one byte earlier.
abbrev pub longer : ℕ → List Str → List Str
longer c [] = (c ∷ []) ∷ []
longer c (f ∷ fs) = (c ∷ f) ∷ fs

-- The texts between the separators; one more than there are separators.
unfoldable pub fields : ℕ → Str → List Str
fields sep [] = [] ∷ []
fields sep (c ∷ s) = let rest = fields sep s in if sep == c then [] ∷ rest else longer c rest

pub fields-Free : (sep : ℕ) (s : Str) → Free sep s → fields sep s ≡ s ∷ []
unfolding fields
fields-Free sep [] h = refl
fields-Free sep (c ∷ s) h = ground (arith, h.0, fields-Free sep s h.1)

pub fields-append :
    (sep : ℕ) (f rest : Str) → Free sep f → fields sep (f ++ sep ∷ rest) ≡ f ∷ fields sep rest
unfolding fields
fields-append sep [] rest h = ground arith
fields-append sep (c ∷ f) rest h = ground (arith, h.0, fields-append sep f rest h.1)

-- A text has no separator, or a first field and a rest behind the separator.
pub data Cut (sep : ℕ) (s : Str) : Type 0 where
  last_field : Free sep s → Cut sep s
  first_field : (f rest : Str) → Free sep f → s ≡ f ++ sep ∷ rest → Cut sep s

extend_cut : (sep c : ℕ) (s : Str) → sep ≢ c → Cut sep s → Cut sep (c ∷ s)
extend_cut sep c s n (last_field h) = last_field (n, h)
extend_cut sep c s n (first_field f rest h e) = first_field (c ∷ f) rest (n, h) (ap (◌∷◌ c) e)

pub cut : (sep : ℕ) (s : Str) → Cut sep s
cut sep [] = last_field tt
cut sep (c ∷ s) = elim (Bool-cases (sep == c)) [
  | inl e ↦ first_field [] s tt (ap (λ x. x ∷ s) (sym (==→eq sep c e)))
  | inr e ↦ extend_cut sep c s (λ p. cc (eq→== sep c p)) (cut sep s)
]
