-- ===== src/Sender/Sent.antt =====
-- How many messages src/api/qpid-proton/reactor/handler/SenderHandler.cpp sends, and
-- which.
use cli_cpp.Prelude.{
  ℕ, zero, suc, ◌+◌, ◌≤◌, ◌<◌, ◌≡◌, refl, sym, ap, ◌∙◌, subst, ◌⊎◌, inl, inr, true, Option, List,
  [], ◌∷◌, ◌++◌, arith, Str,
}
use cli_cpp.Prelude.Int.{ℤ, pos_part}
use cli_cpp.Handler.{Settings}
use cli_cpp.Sender.{
  Sender, Effect, connects, opens_sender, schedules, sends, prints, closes_connection, exits,
  throws, Event, sendable, check_fires, prepare, on_container_start, on_timer, instantiate, send,
  on_sendable, check_if_can_send, on_tracker_accept, on_tracker_reject, on_transport_close,
  on_transport_error, on_connection_error, step, run,
}
use cli_cpp.Sender.Handled.{handled, run_all, run-run_all}

-- The messages that a list of effects hands to the link.
abbrev pub sent_messages : {M : Type 0} → List (Effect M) → List M
sent_messages [] = []
sent_messages (sends m ∷ es) = m ∷ sent_messages es
sent_messages (connects c l ∷ es) = sent_messages es
sent_messages (opens_sender p c ∷ es) = sent_messages es
sent_messages (schedules d t ∷ es) = sent_messages es
sent_messages (prints f m ∷ es) = sent_messages es
sent_messages (closes_connection ∷ es) = sent_messages es
sent_messages (exits c ∷ es) = sent_messages es
sent_messages (throws e ∷ es) = sent_messages es

sent_messages-append :
    {M : Type 0} (xs ys : List (Effect M))
    → sent_messages (xs ++ ys) ≡ sent_messages xs ++ sent_messages ys
sent_messages-append [] ys = refl
sent_messages-append (sends m ∷ es) ys = ap (◌∷◌ m) (sent_messages-append es ys)
sent_messages-append (connects c l ∷ es) ys = sent_messages-append es ys
sent_messages-append (opens_sender p c ∷ es) ys = sent_messages-append es ys
sent_messages-append (schedules d t ∷ es) ys = sent_messages-append es ys
sent_messages-append (prints f m ∷ es) ys = sent_messages-append es ys
sent_messages-append (closes_connection ∷ es) ys = sent_messages-append es ys
sent_messages-append (exits c ∷ es) ys = sent_messages-append es ys
sent_messages-append (throws e ∷ es) ys = sent_messages-append es ys

-- The counter is within the count, and a sender that waits for credit has a message left.
pub record IsWithin {M : Type 0} (s : Sender M) : Type 0 where
  pub limit : s.sent ≤ pos_part s.count
  pub left : s.ready ≡ true → s.sent < pos_part s.count

module _ {M : Type 0} (text : M → Option Str) (set_text : M → Str → M) where
  -- The k copies of a message that carry the numbers from n on.
  abbrev pub instances : M → ℕ → ℕ → List M
  instances m n zero = []
  instances m n (suc k) = instantiate text set_text m n ∷ instances m (n + 1) k

  -- What a handler does to the counter and sends.
  abbrev Sends : Sender M → Sender M × List (Effect M) → Type 0
  Sends s r =
      (r.0.m ≡ s.m)
      × (r.0.count ≡ s.count)
      × (((r.0.sent ≡ s.sent) × (sent_messages r.1 ≡ []))
          ⊎ ((r.0.sent ≡ s.sent + 1)
              × (sent_messages r.1 ≡ instantiate text set_text s.m s.sent ∷ [])))

  send-Sends : (s : Sender M) → Sends s (send text set_text s)
  unfolding send
  send-Sends s = ground arith

  check-Sends : (credit : ℕ) (s : Sender M) → Sends s (check_if_can_send text set_text credit s)
  unfolding check_if_can_send
  check-Sends credit s = ground (arith, send-Sends s)

  step-Sends : (s : Sender M) (e : Event) → Sends s (step text set_text s e)
  unfolding step on_container_start on_timer on_sendable on_tracker_accept on_tracker_reject
      on_transport_close on_transport_error on_connection_error
  step-Sends s (check_fires credit) = check-Sends credit s
  step-Sends s sendable = ground (arith, send-Sends s)
  step-Sends s e = ground arith

  send-IsWithin : (s : Sender M) → s.sent < pos_part s.count → IsWithin (send text set_text s).0
  unfolding send
  send-IsWithin s h = record { limit = omega arith; left = λ e. ground arith }

  check-IsWithin :
      (credit : ℕ) (s : Sender M)
      → IsWithin s
      → IsWithin (check_if_can_send text set_text credit s).0
  unfolding check_if_can_send
  check-IsWithin credit s v = ground (arith, send-IsWithin s)

  step-IsWithin : (s : Sender M) (e : Event) → IsWithin s → IsWithin (step text set_text s e).0
  unfolding step on_container_start on_timer on_sendable on_tracker_accept on_tracker_reject
      on_transport_close on_transport_error on_connection_error
  step-IsWithin s (check_fires credit) v = check-IsWithin credit s v
  step-IsWithin s sendable v = ground (arith, send-IsWithin s)
  step-IsWithin s e v = ground arith

  run-IsWithin :
      (s : Sender M) (es : List Event) → IsWithin s → IsWithin (run_all text set_text s es).0
  run-IsWithin s [] v = v
  run-IsWithin s (e ∷ es) v = run-IsWithin (step text set_text s e).0 es (step-IsWithin s e v)

  join :
      (s : Sender M) (r rest : Sender M × List (Effect M)) (k : ℕ)
      → Sends s r
      → rest.0.sent ≡ r.0.sent + k
      → sent_messages rest.1 ≡ instances r.0.m r.0.sent k
      → (k' : ℕ) × (rest.0.sent ≡ s.sent + k')
        × (sent_messages (r.1 ++ rest.1) ≡ instances s.m s.sent k')
  join s r rest k (same_m, same_count, inl (e, f)) p q =
      (k, omega arith, rw (sent_messages-append r.1 rest.1, f, q, same_m, e))
  join s r rest k (same_m, same_count, inr (e, f)) p q =
      (suc k, omega arith, rw (sent_messages-append r.1 rest.1, f, q, same_m, e))

  run-sent :
      (s : Sender M) (es : List Event)
      → (k : ℕ) × ((run_all text set_text s es).0.sent ≡ s.sent + k)
        × (sent_messages (run_all text set_text s es).1 ≡ instances s.m s.sent k)
  run-sent s [] = (0, omega arith, refl)
  run-sent s (e ∷ es) =
      let r = step text set_text s e in
      let (k, p, q) = run-sent (step text set_text s e).0 es in
      join s (step text set_text s e) (run_all text set_text (step text set_text s e).0 es) k
        (step-Sends s e) p q

  run-count : (s : Sender M) (es : List Event) → (run_all text set_text s es).0.count ≡ s.count
  run-count s [] = refl
  run-count s (e ∷ es) = run-count (step text set_text s e).0 es ∙ (step-Sends s e).1

  pub from_zero :
      (s : Sender M) (es : List Event)
      → s.sent ≡ 0
      → IsWithin s
      → (sent_messages (run_all text set_text s es).1
          ≡ instances s.m 0 (run_all text set_text s es).0.sent)
        × ((run_all text set_text s es).0.sent ≤ pos_part s.count)
  from_zero s es z v =
      let (k, p, q) = run-sent s es in
      let e : (run_all text set_text s es).0.sent ≡ k = omega arith in
      (
        rw (e, q, z),
        subst (λ n. (run_all text set_text s es).0.sent ≤ pos_part n) (run-count s es)
            (run-IsWithin s es v).limit,
      )

  -- In every order of events, a sender that is made for a message and a count sends the message
  -- with the numbers 0, 1, 2 and so on in place of its first %d, one for each step of its counter,
  -- and never more of them than the count says.
  pub run-prepare :
      (settings : Settings) (timeout duration_time : ℤ) (mode : Str) (none_yet m : M) (n : ℤ)
      (es : List Event)
      → (sent_messages
            (run text set_text (prepare settings timeout duration_time mode none_yet m n) es).1
          ≡ instances m 0
              (run text set_text
                (prepare settings timeout duration_time mode none_yet m n)
                es).0.sent)
        × ((run text set_text (prepare settings timeout duration_time mode none_yet m n) es).0.sent
            ≤ pos_part n)
  unfolding prepare
  run-prepare settings timeout duration_time mode none_yet m n es =
      let s = prepare settings timeout duration_time mode none_yet m n in
      subst (λ r. (sent_messages r.1 ≡ instances m 0 r.0.sent) × (r.0.sent ≤ pos_part n))
        (sym (run-run_all text set_text s es))
        (from_zero s (handled text set_text s es) refl
          (record { limit = omega arith; left = λ e. cc }))
