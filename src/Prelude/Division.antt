-- ===== src/Prelude/Division.antt =====
-- How a quotient moves when the dividend grows by one.
use Prim.Native.Nat.{ℕ, ◌+◌, ◌-◌, ◌*◌, ◌/◌, ◌%◌, ◌≤◌, ◌<◌}
use mathlib.Core.Path.{◌≡◌, ap, ◌∙◌}
use mathlib.Core.Logic.{◌⊎◌, inl, inr}
use native.Mathlib.Omega.{arith}
use native.Mathlib.Decide.{dec_lt}
use native.Mathlib.Nat.{
  div-add-mod, mul-add-div, mod-lt, div-eq_of_lt, div_self, mul-add-mod_self_left,
  le-div_iff_mul-le, div-mul-le_self, mod-eq_of_lt, mod_self,
}
use cli_cpp.Prelude.Tests.{◌==◌, if◌then◌else◌}

rest_step :
    (r d : ℕ)
    → r < d
    → (((r + 1) / d ≡ 0) × ((r + 1) % d ≡ r + 1)) ⊎ (((r + 1) / d ≡ 1) × ((r + 1) % d ≡ 0))
rest_step r d h = elim (dec_lt (r + 1) d) [
  | yes p ↦ inl (div-eq_of_lt p, mod-eq_of_lt p)
  | no p ↦
      let e : r + 1 ≡ d = omega arith in
      inr (ap (λ x. x / d) e ∙ div_self (omega arith), ap (λ x. x % d) e ∙ mod_self d)
]

pub div-suc : (n d : ℕ) → 0 < d → (n + 1) / d ≡ n / d + (if (n + 1) % d == 0 then 1 else 0)
div-suc n d h =
    let e : n + 1 ≡ d * (n / d) + (n % d + 1) = omega (arith, div-add-mod n d) in
    let q : (n + 1) / d ≡ n / d + (n % d + 1) / d =
      ap (λ x. x / d) e ∙ mul-add-div h (n / d) (n % d + 1) in
    let r : (n + 1) % d ≡ (n % d + 1) % d =
      ap (λ x. x % d) e ∙ mul-add-mod_self_left d (n / d) (n % d + 1) in
    let c = rest_step (n % d) d (mod-lt n h) in ground arith

div-add-le : (n a d : ℕ) → 0 < d → n / d ≤ (n + a) / d
div-add-le n a d h = (le-div_iff_mul-le h).1 (omega (arith, div-mul-le_self n d))

-- The quotients gained in two stretches add up.
pub div-split :
    (n a b d : ℕ)
    → 0 < d
    → (n + a) / d - n / d + ((n + a + b) / d - (n + a) / d) ≡ (n + (a + b)) / d - n / d
div-split n a b d h =
    let e : n + (a + b) ≡ n + a + b = omega arith in
    rw e (omega (arith, div-add-le n a d h, div-add-le (n + a) b d h))
