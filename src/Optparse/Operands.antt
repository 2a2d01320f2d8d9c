-- ===== src/Optparse/Operands.antt =====
-- Arguments that are no options: what parse_args of src/contrib/optparse/OptionParser.cpp leaves over.
use cli_cpp.Prelude.{
  ℕ, zero, suc, ◌<◌, ◌≡◌, refl, ap, ◌∙◌, ◌≢◌, true, List, [], ◌∷◌, ◌++◌, append_assoc, arith, Str,
  codes, str_eq, length,
}
use cli_cpp.Optparse.{Parser}
use cli_cpp.Optparse.Loop.{done, go_on, handle, loop}

-- Arguments that are no options: they do not begin with a dash, or are a dash alone.
abbrev pub IsOperand : Str → Type 0
IsOperand [] = Unit
IsOperand (c ∷ []) = Unit
IsOperand (c ∷ (d ∷ s)) = c ≢ b'-'

abbrev pub AllOperands : List Str → Type 0
AllOperands [] = Unit
AllOperands (v ∷ vs) = IsOperand v × AllOperands vs

handle-operand :
    (v : Str) (p : Parser)
    → IsOperand v
    → p.interspersed_args ≡ true
    → handle v p ≡ done (go_on (record p { leftover = p.leftover ++ v ∷ [] }))
unfolding handle str_eq
handle-operand [] p h i = rw i refl
handle-operand (c ∷ []) p h i = ground arith
handle-operand (c ∷ (d ∷ s)) p h i = ground arith

-- Operands are left over in their order, and with them everything behind a --, options or not; nothing
-- else of the parser changes. The parser takes interspersed arguments, and the fuel exceeds the number of operands.
pub loop-operands :
    (fuel : ℕ) (vs after : List Str) (p : Parser)
    → AllOperands vs
    → p.interspersed_args ≡ true
    → length vs < fuel
    → loop fuel (record p { remaining = vs ++ codes "--" ∷ after })
      ≡ done (record p { remaining = []; leftover = p.leftover ++ (vs ++ after) })
unfolding loop
loop-operands zero vs after p h i b = absurd (omega arith)
loop-operands (suc fuel) [] after p h i b = unfold handle str_eq in refl
loop-operands (suc fuel) (v ∷ vs) after p h i b =
    rw (handle-operand v (record p { remaining = vs ++ codes "--" ∷ after }) h.0 i) (
      loop-operands fuel vs after (record p { leftover = p.leftover ++ v ∷ [] }) h.1 i (omega arith)
      ∙ ap (λ l. done (record p { remaining = []; leftover = l }))
          (append_assoc p.leftover (v ∷ []) (vs ++ after)))
