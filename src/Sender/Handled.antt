-- ===== src/Sender/Handled.antt =====
-- The events that src/api/qpid-proton/reactor/handler/SenderHandler.cpp handles before the program ends.
use cli_cpp.Prelude.{
  ◌≡◌, refl, Bool-cases, inl, inr, if◌then◌else◌, Option, List, [], ◌∷◌, ◌++◌, append-nil, Str, ap,
}
use cli_cpp.Sender.{Sender, Effect, Event, ends, step, run}

module _ {M : Type 0} (text : M → Option Str) (set_text : M → Str → M) where
  -- Up to the one in which the program ends.
  unfoldable pub handled : Sender M → List Event → List Event
  handled s [] = []
  handled s (e ∷ es) =
      let r = step text set_text s e in
      let rest = handled r.0 es in if ends r.1 then e ∷ [] else e ∷ rest

  -- All the handlers.
  abbrev pub run_all : Sender M → List Event → Sender M × List (Effect M)
  run_all s [] = (s, [])
  run_all s (e ∷ es) =
      let r = step text set_text s e in let rest = run_all r.0 es in (rest.0, r.1 ++ rest.1)

  pub run-run_all :
      (s : Sender M) (es : List Event) → run text set_text s es ≡ run_all s (handled s es)
  unfolding run handled
  run-run_all s [] = refl
  run-run_all s (e ∷ es) = elim (Bool-cases (ends (step text set_text s e).1)) [
    | inl stops ↦ rw (stops, append-nil) refl
    | inr goes ↦ rw goes (
        ap (λ r. (r.0, (step text set_text s e).1 ++ r.1))
          (run-run_all (step text set_text s e).0 es))
  ]
