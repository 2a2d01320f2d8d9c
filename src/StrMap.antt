-- ===== src/StrMap.antt =====
-- std::map with text keys, as an association list without double keys. Its order is that of the
-- insertions and not of the keys: nothing that the sources compute depends on it.
use cli_cpp.Prelude.{
  ◌≡◌, refl, sym, ◌∙◌, subst, inl, inr, Bool, true, false, Option, none, some, List, [], ◌∷◌, arith,
  Str, str_eq, str_eq→eq, str_eq_refl, str_eq-false_sym, if◌then◌else◌, Bool-cases,
}

module _ {ℓ} {V : Type ℓ} where
  -- m.find(k)
  unfoldable pub lookup : Str → List (Str × V) → Option V
  lookup k [] = none
  lookup k ((j, v) ∷ m) = if str_eq j k then some v else lookup k m

  -- m[k] = v
  unfoldable pub insert : Str → V → List (Str × V) → List (Str × V)
  insert k v [] = (k, v) ∷ []
  insert k v ((j, w) ∷ m) = if str_eq j k then (j, v) ∷ m else (j, w) ∷ insert k v m

  -- m.find(k) != m.end()
  unfoldable pub has_key : Str → List (Str × V) → Bool
  unfolding lookup
  has_key k m = elim (lookup k m) [ none ↦ false | some v ↦ true ]

  pub lookup-insert_self : (k : Str) (v : V) (m : List (Str × V)) → lookup k (insert k v m) ≡ some v
  unfolding lookup insert
  lookup-insert_self k v [] = rw (str_eq_refl k)
  lookup-insert_self k v ((j, w) ∷ m) = ground (arith, lookup-insert_self k v m)

  pub lookup-insert_ne :
      (k j : Str) (v : V) (m : List (Str × V))
      → str_eq k j ≡ false
      → lookup j (insert k v m) ≡ lookup j m
  unfolding lookup insert
  lookup-insert_ne k j v [] n = rw n
  lookup-insert_ne k j v ((i, w) ∷ m) n = elim (Bool-cases (str_eq i k)) [
    | inl e ↦ rw (e, subst (λ x. str_eq x j ≡ false) (sym (str_eq→eq i k e)) n)
    | inr e ↦ ground (arith, lookup-insert_ne k j v m n)
  ]

  -- One law for every key.
  pub lookup-insert :
      (k j : Str) (v : V) (m : List (Str × V))
      → lookup j (insert k v m) ≡ (if str_eq k j then some v else lookup j m)
  lookup-insert k j v m = elim (Bool-cases (str_eq k j)) [
    | inl e ↦
        rw (e) (
          subst (λ x. lookup x (insert k v m) ≡ some v) (str_eq→eq k j e)
            (lookup-insert_self k v m))
    | inr e ↦ rw (e) (lookup-insert_ne k j v m e)
  ]

  -- No key occurs twice.
  abbrev pub IsUnique : List (Str × V) → Type ℓ
  IsUnique [] = Unit
  IsUnique ((j, w) ∷ m) = (lookup j m ≡ none) × IsUnique m

  pub insert-IsUnique :
      (k : Str) (v : V) (m : List (Str × V)) → IsUnique m → IsUnique (insert k v m)
  unfolding insert
  insert-IsUnique k v [] u = (unfold lookup in refl, tt)
  insert-IsUnique k v ((j, w) ∷ m) u = elim (Bool-cases (str_eq j k)) [
    | inl e ↦ rw e u
    | inr e ↦
        let n = lookup-insert_ne k j v m (str_eq-false_sym j k e) in
        rw e (n ∙ u.0, insert-IsUnique k v m u.1)
  ]
