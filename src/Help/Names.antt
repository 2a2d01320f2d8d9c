-- ===== src/Help/Names.antt =====
-- basename of src/contrib/optparse/OptionParser.cpp: the name of the program in its usage.
use cli_cpp.Prelude.{
  ℕ, zero, suc, ◌+◌, ◌≡◌, refl, subst, sym, ap, ◌∙◌, [], ◌∷◌, ◌++◌, append_assoc, arith, Str,
  length, ◌==◌, ne→==, take, drop, drop-behind, not, Bool, true, false, none, some,
}
use cli_cpp.CppString.Find.{Free}
use cli_cpp.Help.{last_index, basename}

-- No byte passes the test.
abbrev pub Fails : (ℕ → Bool) → Str → Type 0
Fails test [] = Unit
Fails test (c ∷ s) = (test c ≡ false) × Fails test s

last_index-Fails : (test : ℕ → Bool) (s : Str) → Fails test s → last_index test s ≡ none
unfolding last_index
last_index-Fails test [] h = refl
last_index-Fails test (c ∷ s) h = rw (last_index-Fails test s h.1, h.0) refl

-- The last byte that passes stands in front of those that fail.
last_index-append :
    (test : ℕ → Bool) (a : Str) (c : ℕ) (b : Str)
    → test c ≡ true
    → Fails test b
    → last_index test (a ++ c ∷ b) ≡ some (length a)
unfolding last_index
last_index-append test [] c b p h = rw (last_index-Fails test b h, p) refl
last_index-append test (x ∷ a) c b p h = rw (last_index-append test a c b p h) refl

abbrev pub slashes : ℕ → Str
slashes zero = []
slashes (suc n) = b'/' ∷ slashes n

slashes-Fails : (n : ℕ) → Fails (λ c. not (c == b'/')) (slashes n)
slashes-Fails zero = tt
slashes-Fails (suc n) = (refl, slashes-Fails n)

Free-Fails : (s : Str) → Free b'/' s → Fails (λ c. c == b'/') s
Free-Fails [] h = tt
Free-Fails (c ∷ s) h = (ne→== c b'/' (λ e. h.0 (sym e)), Free-Fails s h.1)

Fails-append : (test : ℕ → Bool) (s t : Str) → Fails test s → Fails test t → Fails test (s ++ t)
Fails-append test [] t h k = k
Fails-append test (c ∷ s) t h k = (h.0, Fails-append test s t h.1 k)

take-behind : (z : ℕ) (b t : Str) → take (length b + 1) (b ++ z ∷ t) ≡ b ++ z ∷ []
take-behind z [] t = refl
take-behind z (x ∷ b) t =
    let e : suc (length b + 1) ≡ suc (length b) + 1 = omega arith in
    subst (λ n. take n (x ∷ (b ++ z ∷ t)) ≡ x ∷ (b ++ z ∷ [])) e (ap (◌∷◌ x) (take-behind z b t))

-- The part of a path up to its last byte that is no slash.
trimmed_path :
    (a : Str) (z n : ℕ)
    → (z == b'/') ≡ false
    → (last_index (λ c. not (c == b'/')) (a ++ z ∷ slashes n) ≡ some (length a))
      × (take (length a + 1) (a ++ z ∷ slashes n) ≡ a ++ z ∷ [])
trimmed_path a z n h = (
  last_index-append (λ c. not (c == b'/')) a z (slashes n) (ap not h) (slashes-Fails n),
  take-behind z a (slashes n),
)

last_Fails : (stem : Str) (z : ℕ) → Fails (λ c. c == b'/') (stem ++ z ∷ []) → (z == b'/') ≡ false
last_Fails [] z h = h.0
last_Fails (x ∷ stem) z h = last_Fails stem z h.1

-- What stands behind the last slash.
abbrev after_slash : Str → Str
after_slash t = elim (last_index (λ c. c == b'/') t) [ none ↦ t | some j ↦ drop (j + 1) t ]

basename-trimmed :
    (a : Str) (z n : ℕ)
    → (z == b'/') ≡ false
    → basename (a ++ z ∷ slashes n) ≡ after_slash (a ++ z ∷ [])
unfolding basename
basename-trimmed a z n h = let e = trimmed_path a z n h in rw (e.0, basename) (ap after_slash e.1)

-- The name of a path is what stands behind its last slash, or all of it without a slash in front, slashes at its end not
-- counted. The name ends with the byte z and has no slash.
pub basename-slashes :
    (dir stem : Str) (z n : ℕ)
    → Free b'/' (stem ++ z ∷ [])
    → (basename (stem ++ z ∷ slashes n) ≡ stem ++ z ∷ [])
      × (basename ((dir ++ b'/' ∷ stem) ++ z ∷ slashes n) ≡ stem ++ z ∷ [])
basename-slashes dir stem z n h =
    let plain : Fails (λ c. c == b'/') (stem ++ z ∷ []) = Free-Fails (stem ++ z ∷ []) h in
    let last : (z == b'/') ≡ false = last_Fails stem z plain in
    let alone = last_index-Fails (λ c. c == b'/') (stem ++ z ∷ []) plain in
    let regroup : (dir ++ b'/' ∷ stem) ++ z ∷ [] ≡ dir ++ b'/' ∷ (stem ++ z ∷ []) =
      simp append_assoc in
    let behind = last_index-append (λ c. c == b'/') dir b'/' (stem ++ z ∷ []) refl plain in
    (
      basename-trimmed stem z n last ∙ (rw (alone, after_slash) refl),
      basename-trimmed (dir ++ b'/' ∷ stem) z n last
          ∙ (ap after_slash regroup
              ∙ (rw (behind, after_slash) (drop-behind b'/' dir (stem ++ z ∷ [])))),
    )
