-- ===== src/Cli/Passes.antt =====
-- The single tests of the validation in src/common/options/modern, and what they let through.
use cli_cpp.Prelude.{
  ℕ, ◌≤◌, ◌<◌, String, ◌≡◌, refl, sym, subst, ◌≢◌, ◌⊎◌, inl, inr, Bool, true, false, not, ◌&&◌,
  ◌||◌, arith, Str, codes, str_eq, str_eq→eq, str_eq_refl, ltb, Bool-cases,
}
use cli_cpp.CppString.{to_lower}
use cli_cpp.Prelude.Int.{ℤ, pos, negsuc}
use cli_cpp.Optparse.{Values, value_of, is_set}
use cli_cpp.Optparse.Loop.{Result, done, failed, exited, out_of_fuel}
use cli_cpp.Cli.Validate.{◌>>◌, reject, less_than_1, validate_boolean, is_listener}

-- Whether an option is given.
abbrev pub IsGiven : String → Values → Type 0
IsGiven d vs = is_set (codes d) vs ≡ true

-- An option that is not given, or is true or false.
abbrev pub IsTruth : Str → Type 0
IsTruth s = (s ≡ codes "true") ⊎ (s ≡ codes "false")

abbrev pub IsBoolean : String → Values → Type 0
IsBoolean d vs = IsGiven d vs → IsTruth (to_lower (value_of (codes d) vs))

pub reject-done : (b : Bool) (msg : Str) → reject b msg ≡ done tt → b ≡ false
unfolding reject
reject-done true msg h = ground arith
reject-done false msg h = refl

pub done-reject : (b : Bool) (msg : Str) → b ≡ false → reject b msg ≡ done tt
unfolding reject
done-reject b msg h = rw h refl

pub seq-done : (r s : Result {0} Unit) → (r >> s) ≡ done tt → (r ≡ done tt) × (s ≡ done tt)
seq-done (done tt) s h = (refl, h)
seq-done (failed e) s h = ground arith
seq-done exited s h = ground arith
seq-done out_of_fuel s h = ground arith

pub done-seq : (r s : Result {0} Unit) → r ≡ done tt → s ≡ done tt → (r >> s) ≡ done tt
done-seq r s h k = rw (h, k) refl

pub given : (a b : Bool) → (a && b) ≡ false → a ≡ true → b ≡ false
given a b h k = ground arith

pub withheld : (a b : Bool) → (a ≡ true → b ≡ false) → (a && b) ≡ false
withheld true b h = h refl
withheld false b h = refl

pub truth :
    (v : Str)
    → (not (str_eq v (codes "true")) && not (str_eq v (codes "false"))) ≡ false
    → IsTruth v
truth v h = elim (Bool-cases (str_eq v (codes "true"))) [
  | inl e ↦ inl (str_eq→eq v (codes "true") e)
  | inr e ↦ elim (Bool-cases (str_eq v (codes "false"))) [
    | inl e' ↦ inr (str_eq→eq v (codes "false") e')
    | inr e' ↦ ground arith
  ]
]

pub of_truth :
    (v : Str)
    → IsTruth v
    → (not (str_eq v (codes "true")) && not (str_eq v (codes "false"))) ≡ false
of_truth v (inl e) =
    subst (λ x. (not (str_eq x (codes "true")) && not (str_eq x (codes "false"))) ≡ false) (sym e)
      (unfold str_eq in refl)
of_truth v (inr e) =
    subst (λ x. (not (str_eq x (codes "true")) && not (str_eq x (codes "false"))) ≡ false) (sym e)
      (unfold str_eq in refl)

pub boolean : (d : String) (vs : Values) → validate_boolean (codes d) vs ≡ done tt → IsBoolean d vs
unfolding validate_boolean
boolean d vs h g = truth (to_lower (value_of (codes d) vs)) (given _ _ (reject-done _ _ h) g)

pub of_boolean :
    (d : String) (vs : Values) → IsBoolean d vs → validate_boolean (codes d) vs ≡ done tt
unfolding validate_boolean
of_boolean d vs h =
    done-reject _ _ (withheld _ _ (λ g. of_truth (to_lower (value_of (codes d) vs)) (h g)))

pub listener :
    (vs : Values)
    → is_listener vs ≡ true
    → IsGiven "recv-listen" vs × (to_lower (value_of (codes "recv-listen") vs) ≡ codes "true")
unfolding is_listener
listener vs h = (ground arith, str_eq→eq _ (codes "true") (ground arith))

pub of_listener :
    (vs : Values)
    → IsGiven "recv-listen" vs
    → to_lower (value_of (codes "recv-listen") vs) ≡ codes "true"
    → is_listener vs ≡ true
unfolding is_listener
of_listener vs h e = rw (h, e) (unfold str_eq in refl)

pub holds : (b : Bool) → not b ≡ false → b ≡ true
holds true h = refl
holds false h = ground arith

pub of_holds : (b : Bool) → b ≡ true → not b ≡ false
of_holds b h = rw h refl

pub connected :
    (a b c : Bool) → (not a && (not b && not c)) ≡ false → (a ≡ true) ⊎ ((b ≡ true) ⊎ (c ≡ true))
connected true b c h = inl refl
connected false true c h = inr (inl refl)
connected false false true h = inr (inr refl)
connected false false false h = ground arith

pub of_connected :
    (a b c : Bool) → (a ≡ true) ⊎ ((b ≡ true) ⊎ (c ≡ true)) → (not a && (not b && not c)) ≡ false
of_connected a b c (inl h) = rw h refl
of_connected a b c (inr (inl h)) = ground arith
of_connected a b c (inr (inr h)) = ground arith

pub in_range : (n : ℕ) → (ltb 4294967295 n || ltb n 512) ≡ false → (512 ≤ n) × (n ≤ 4294967295)
in_range n h = (ground arith, ground arith)

pub of_in_range : (n : ℕ) → (512 ≤ n) × (n ≤ 4294967295) → (ltb 4294967295 n || ltb n 512) ≡ false
of_in_range n h = ground (arith, h.0, h.1)

-- A number that is at least 1.
abbrev pub IsPositive : ℤ → Type 0
IsPositive (pos n) = 0 < n
IsPositive (negsuc n) = ⊥

pub positive : (i : ℤ) → less_than_1 i ≡ false → IsPositive i
unfolding less_than_1
positive (pos n) h = ground arith
positive (negsuc n) h = ground arith

pub of_positive : (i : ℤ) → IsPositive i → less_than_1 i ≡ false
unfolding less_than_1
of_positive (pos n) h = ground arith
of_positive (negsuc n) h = elim h [ ]

pub str_ne : (s t : Str) → str_eq s t ≡ false → s ≢ t
unfolding str_eq
str_ne s t h e = elim (Bool-cases (str_eq s t)) [
  | inl q ↦ ground arith
  | inr q ↦
      let r : str_eq s t ≡ true = subst (λ x. str_eq s x ≡ true) e (str_eq_refl s) in ground arith
]
