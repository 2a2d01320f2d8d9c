-- ===== src/Sender/Closing.antt =====
-- When src/api/qpid-proton/reactor/handler/SenderHandler.cpp closes its connection.
use cli_cpp.Prelude.{
  ℕ, suc, ◌+◌, ◌≡◌, refl, ap, ◌∙◌, not, ◌&&◌, Option, List, [], ◌∷◌, ◌++◌, arith, Str,
  if◌then◌else◌,
}
use cli_cpp.Prelude.Int.{ℤ, pos, ltb_ℤ}
use cli_cpp.Handler.{Settings}
use cli_cpp.Sender.{
  Sender, Effect, connects, opens_sender, schedules, sends, prints, closes_connection, exits,
  throws, Event, container_start, sendable, check_fires, timer_fires, tracker_accept,
  tracker_reject, transport_close, transport_error, connection_error, prepare, on_container_start,
  on_timer, send, on_sendable, check_if_can_send, on_tracker_accept, on_tracker_reject,
  on_transport_close, on_transport_error, on_connection_error, step, run,
}
use cli_cpp.Sender.Handled.{handled, run_all, run-run_all}

-- How often a list of effects closes the connection.
abbrev pub closings : {M : Type 0} → List (Effect M) → ℕ
closings [] = 0
closings (closes_connection ∷ es) = suc (closings es)
closings (sends m ∷ es) = closings es
closings (connects c l ∷ es) = closings es
closings (opens_sender p c ∷ es) = closings es
closings (schedules d t ∷ es) = closings es
closings (prints f m ∷ es) = closings es
closings (exits c ∷ es) = closings es
closings (throws e ∷ es) = closings es

closings-append :
    {M : Type 0} (xs ys : List (Effect M)) → closings (xs ++ ys) ≡ closings xs + closings ys
closings-append [] ys = omega arith
closings-append (closes_connection ∷ es) ys = omega (arith, closings-append es ys)
closings-append (sends m ∷ es) ys = closings-append es ys
closings-append (connects c l ∷ es) ys = closings-append es ys
closings-append (opens_sender p c ∷ es) ys = closings-append es ys
closings-append (schedules d t ∷ es) ys = closings-append es ys
closings-append (prints f m ∷ es) ys = closings-append es ys
closings-append (exits c ∷ es) ys = closings-append es ys
closings-append (throws e ∷ es) ys = closings-append es ys

abbrev pub accepts : List Event → ℕ
accepts [] = 0
accepts (tracker_accept ∷ es) = suc (accepts es)
accepts (check_fires credit ∷ es) = accepts es
accepts (container_start ∷ es) = accepts es
accepts (sendable ∷ es) = accepts es
accepts (timer_fires ∷ es) = accepts es
accepts (tracker_reject ∷ es) = accepts es
accepts (transport_close ∷ es) = accepts es
accepts (transport_error what ∷ es) = accepts es
accepts (connection_error what ∷ es) = accepts es

-- The number of times that a counter which moves from a by n passes the count.
unfoldable pub reaches : ℤ → ℕ → ℕ → ℕ
reaches count a n = if ltb_ℤ (pos a) count && not (ltb_ℤ (pos (a + n)) count) then 1 else 0

module _ {M : Type 0} (text : M → Option Str) (set_text : M → Str → M) where
  abbrev Confirms : ℕ → Sender M → Sender M × List (Effect M) → Type 0
  Confirms n s r =
      (r.0.count ≡ s.count)
      × (r.0.confirmed_sent ≡ s.confirmed_sent + n)
      × (closings r.1 ≡ reaches s.count s.confirmed_sent n)

  check-Confirms :
      (credit : ℕ) (s : Sender M) → Confirms 0 s (check_if_can_send text set_text credit s)
  unfolding check_if_can_send send reaches
  check-Confirms credit s = ground arith

  step-Confirms :
      (s : Sender M) (e : Event) → Confirms (accepts (e ∷ [])) s (step text set_text s e)
  unfolding reaches step on_container_start on_timer on_sendable send on_tracker_accept
      on_tracker_reject on_transport_close on_transport_error on_connection_error
  step-Confirms s (check_fires credit) = check-Confirms credit s
  step-Confirms s e = ground arith

  accepts-cons : (e : Event) (es : List Event) → accepts (e ∷ es) ≡ accepts (e ∷ []) + accepts es
  accepts-cons tracker_accept es = omega arith
  accepts-cons e es = omega arith

  reaches-add :
      (count : ℤ) (a m n : ℕ)
      → reaches count a (m + n) ≡ reaches count a m + reaches count (a + m) n
  unfolding reaches
  reaches-add count a m n = ground arith

  run-Confirms :
      (s : Sender M) (es : List Event) → Confirms (accepts es) s (run_all text set_text s es)
  run-Confirms s [] = (refl, omega arith, unfold reaches in ground arith)
  run-Confirms s (e ∷ es) =
      let r = step text set_text s e in
      let a = step-Confirms s e in
      let b = run-Confirms (step text set_text s e).0 es in
      (
        b.0 ∙ a.0,
        omega (arith, accepts-cons e es, a.1, b.1),
        rw (
          closings-append (step text set_text s e).1
              (run_all text set_text (step text set_text s e).0 es).1,
          a.2,
          b.2,
          a.0,
          a.1,
          accepts-cons e es,
          reaches-add s.count s.confirmed_sent (accepts (e ∷ [])) (accepts es),
        ),
      )

  -- A sender closes its connection once if, before the program ends, it counts at least as many accepted messages as
  -- the count says and that is positive, and never otherwise.
  pub run-prepare_closes :
      (settings : Settings) (timeout duration_time : ℤ) (mode : Str) (none_yet m : M) (n : ℤ)
      (es : List Event)
      → closings (run text set_text (prepare settings timeout duration_time mode none_yet m n) es).1
        ≡ reaches n 0 (
            accepts
              (handled text set_text (prepare settings timeout duration_time mode none_yet m n) es))
  unfolding prepare
  run-prepare_closes settings timeout duration_time mode none_yet m n es =
      let s = prepare settings timeout duration_time mode none_yet m n in
      ap (λ r. closings r.1) (run-run_all text set_text s es)
      ∙ (run-Confirms s (handled text set_text s es)).2
