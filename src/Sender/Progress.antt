-- ===== src/Sender/Progress.antt =====
-- What src/api/qpid-proton/reactor/handler/SenderHandler.cpp sends if it is given credit
-- often enough.
use cli_cpp.Prelude.{ℕ, zero, suc, ◌+◌, ◌≤◌, ◌≡◌, refl, ap, ◌∙◌, Option, List, [], ◌∷◌, arith, Str}
use Prim.Native.Nat.{min}
use cli_cpp.Prelude.Int.{ℤ, pos, pos_part}
use cli_cpp.Handler.{Settings}
use cli_cpp.Sender.{
  Sender, Event, container_start, sendable, check_fires, timer_fires, tracker_accept,
  tracker_reject, transport_close, transport_error, connection_error, prepare, on_container_start,
  on_timer, send, on_sendable, check_if_can_send, on_tracker_accept, on_tracker_reject,
  on_transport_close, on_transport_error, on_connection_error, step, run,
}
use cli_cpp.Sender.Sent.{sent_messages, instances, run-prepare}
use cli_cpp.Sender.Handled.{handled, run_all, run-run_all}

-- The checks that find credit.
abbrev pub grants : List Event → ℕ
grants [] = 0
grants (check_fires (suc credit) ∷ es) = suc (grants es)
grants (check_fires zero ∷ es) = grants es
grants (container_start ∷ es) = grants es
grants (sendable ∷ es) = grants es
grants (timer_fires ∷ es) = grants es
grants (tracker_accept ∷ es) = grants es
grants (tracker_reject ∷ es) = grants es
grants (transport_close ∷ es) = grants es
grants (transport_error what ∷ es) = grants es
grants (connection_error what ∷ es) = grants es

module _ {M : Type 0} (text : M → Option Str) (set_text : M → Str → M) where
  -- One event moves the counter by what it grants, unless the count is reached.
  abbrev Advances : ℕ → Sender M → Sender M → Type 0
  Advances g s t = (t.count ≡ s.count) × (min (pos_part s.count) (s.sent + g) ≤ t.sent)

  check-Advances :
      (credit : ℕ) (s : Sender M) → Advances 1 s (check_if_can_send text set_text (suc credit) s).0
  unfolding check_if_can_send send
  check-Advances credit s = ground arith

  idle-Advances : (s : Sender M) → Advances 0 s (check_if_can_send text set_text 0 s).0
  unfolding check_if_can_send send
  idle-Advances s = ground arith

  step-Advances :
      (s : Sender M) (e : Event) → Advances (grants (e ∷ [])) s (step text set_text s e).0
  unfolding step on_container_start on_timer on_sendable send on_tracker_accept on_tracker_reject
      on_transport_close on_transport_error on_connection_error
  step-Advances s (check_fires zero) = idle-Advances s
  step-Advances s (check_fires (suc credit)) = check-Advances credit s
  step-Advances s e = ground arith

  grants-cons : (e : Event) (es : List Event) → grants (e ∷ es) ≡ grants (e ∷ []) + grants es
  grants-cons (check_fires zero) es = omega arith
  grants-cons (check_fires (suc credit)) es = omega arith
  grants-cons e es = omega arith

  run-Advances :
      (s : Sender M) (es : List Event) → Advances (grants es) s (run_all text set_text s es).0
  run-Advances s [] = (refl, omega arith)
  run-Advances s (e ∷ es) =
      let a = step-Advances s e in
      let b = run-Advances (step text set_text s e).0 es in
      (b.0 ∙ a.0, omega (arith, grants-cons e es, ap pos_part a.0))

  -- If at least as many checks find credit before the program ends as the count says, the sender sends exactly that
  -- many messages, with the numbers from 0 on, whatever happens in between.
  pub run-prepare_all :
      (settings : Settings) (timeout duration_time : ℤ) (mode : Str) (none_yet m : M) (n : ℕ)
      (es : List Event)
      → n
        ≤ grants (
            handled text set_text
              (prepare settings timeout duration_time mode none_yet m (pos n))
              es)
      → sent_messages
          (run text set_text (prepare settings timeout duration_time mode none_yet m (pos n)) es).1
        ≡ instances text set_text m 0 n
  run-prepare_all settings timeout duration_time mode none_yet m n es enough =
      let s = prepare settings timeout duration_time mode none_yet m (pos n) in
      let (trace, limit) =
        run-prepare text set_text settings timeout duration_time mode none_yet m (pos n) es in
      let a = (run-Advances s (handled text set_text s es)).1 in
      let same = ap (λ r. r.0.sent) (run-run_all text set_text s es) in
      let e : (run text set_text s es).0.sent ≡ n = unfold prepare in omega (arith, same) in
      trace ∙ ap (instances text set_text m 0) e
