-- ===== src/Receiver/Closing.antt =====
-- When the receiver of src/api/qpid-proton/reactor/handler/ReceiverHandler.cpp closes.
use cli_cpp.Prelude.{
  ℕ, suc, ◌+◌, ◌%◌, ◌≡◌, refl, sym, ap, ◌∙◌, Bool, true, false, Bool-cases, inl, inr, not, ◌&&◌,
  Option, none, some, List, [], ◌∷◌, ◌++◌, arith, Str, ◌==◌, if◌then◌else◌, select, select-append,
}
use cli_cpp.Prelude.Int.{ℤ, pos, ltb_ℤ}
use native.Mathlib.Nat.{add-zero, zero-add}
use cli_cpp.Receiver.{
  Receiver, Effect, ends, throws_conversion_error, overflows, drain, counted_message, detaches,
  closes_receiver, closes_connection, Event, message, batch_rest, before_action, after_action,
  reply_part, drain_part, close_part, finish, on_message, do_message_action, on_timer,
  on_transport_close, on_transport_error, on_connection_error, step, run,
}
use cli_cpp.Receiver.Actions.{batch_rest-pos, counted_message_batch}
use cli_cpp.Decoder.{Message}
use cli_cpp.Receiver.Handled.{
  counted, completes, completed_by, completed, on_message-completes, on_message-fails,
}

pub data Closing : Type 0 where
  detached receiver_closed connection_closed : Closing

abbrev pub closing : {M : Type 0} → Effect M → Option Closing
closing detaches = some detached
closing closes_receiver = some receiver_closed
closing closes_connection = some connection_closed
closing e = none

-- Whether a counter that moves from a by n passes the count.
unfoldable pub passes : ℤ → ℕ → ℕ → Bool
passes count a n = ltb_ℤ (pos a) count && not (ltb_ℤ (pos (a + n)) count)

-- What closing comes to, if it is time to close.
unfoldable pub closing_of : Receiver → Bool → List Closing
closing_of s b =
    if not s.process_reply_to && b
    then (if s.durable_subscriber then detached else receiver_closed) ∷ connection_closed ∷ []
    else []

module _ {M : Type 0} (reply_to : M → Str) (set_to : M → Str → M) (decoded : M → Message) where
  abbrev Keeps : Receiver → Receiver → Type 0
  Keeps s t =
      (t.msg_action_size ≡ s.msg_action_size)
      × (t.process_reply_to ≡ s.process_reply_to)
      × (t.count ≡ s.count)
      × (t.durable_subscriber ≡ s.durable_subscriber)

  abbrev Closes : ℕ → Receiver → Receiver × List (Effect M) → Type 0
  Closes n s r =
      Keeps s r.0
      × (ends r.1 ≡ false → r.0.msg_received_cnt ≡ s.msg_received_cnt + n)
      × (select closing r.1 ≡ closing_of s (passes s.count s.msg_received_cnt n))

  before-closing :
      (m : M) (s : Receiver) → select closing (before_action reply_to set_to decoded m s) ≡ []
  unfolding before_action
  before-closing m s = ground arith

  action-closing :
      (b : Bool) (s : Receiver)
      → select closing (if b then do_message_action {M = M} s else []) ≡ []
  unfolding do_message_action
  action-closing b s = ground arith

  reply_part-Keeps : (m : M) (s : Receiver) → Keeps s (reply_part reply_to set_to decoded m s).0
  unfolding reply_part
  reply_part-Keeps m s = ground arith

  reply_part-closing :
      (m : M) (s : Receiver)
      → (select closing (reply_part reply_to set_to decoded m s).1 ≡ [])
        × ((reply_part reply_to set_to decoded m s).0.msg_received_cnt ≡ s.msg_received_cnt)
  unfolding reply_part
  reply_part-closing m s = ground arith

  after-closing : (s : Receiver) → select closing (after_action reply_to set_to decoded s) ≡ []
  unfolding after_action
  after-closing s = ground arith

  drain-closing : (s : Receiver) → select closing (drain_part reply_to set_to decoded s) ≡ []
  unfolding drain_part
  drain-closing s = ground arith

  close_part-Keeps :
      (s : Receiver)
      → Keeps s (close_part reply_to set_to decoded s).0
        × ((close_part reply_to set_to decoded s).0.msg_received_cnt ≡ s.msg_received_cnt)
  unfolding close_part
  close_part-Keeps s = ground arith

  close_part-closing :
      (n : ℕ) (s : Receiver)
      → s.msg_received_cnt ≡ n + 1
      → select closing (close_part reply_to set_to decoded s).1 ≡ closing_of s (passes s.count n 1)
  unfolding close_part closing_of passes
  close_part-closing n s e = ground arith

  -- Replies fail only where they are asked for, and then nothing closes.
  reply_part-ends :
      (s : Receiver) (m : M) (b : Bool)
      → ends (reply_part reply_to set_to decoded m s).1 ≡ true
      → closing_of s b ≡ []
  unfolding reply_part closing_of
  reply_part-ends s m b h = ground arith

  finish-closing :
      (n : ℕ) (m : M) (s : Receiver)
      → s.msg_received_cnt ≡ n + 1
      → Keeps s (finish reply_to set_to decoded m s).0
        × ((finish reply_to set_to decoded m s).0.msg_received_cnt ≡ s.msg_received_cnt)
        × (select closing (finish reply_to set_to decoded m s).1
            ≡ closing_of s (passes s.count n 1))
  unfolding finish
  finish-closing n m s e =
      let t = (reply_part reply_to set_to decoded m s).0 in
      let r = (reply_part reply_to set_to decoded m s).1 in
      let drains_and_closes =
        drain_part reply_to set_to decoded t ++ (close_part reply_to set_to decoded t).1 in
      let k = reply_part-Keeps m s in
      let (f, c) = reply_part-closing m s in
      let (k', c') = close_part-Keeps t in
      let g = close_part-closing n t (c ∙ e) in
      elim (Bool-cases (ends (reply_part reply_to set_to decoded m s).1)) [
        | inl stops ↦ rw stops (
          k,
          c,
          select-append closing (after_action reply_to set_to decoded s) r
              ∙ (rw (after-closing s, f, reply_part-ends s m (passes s.count n 1) stops) refl),
        )
        | inr goes ↦ rw goes (
          (k'.0 ∙ k.0, k'.1 ∙ k.1, k'.2 ∙ k.2, k'.3 ∙ k.3),
          c' ∙ c,
          select-append closing (after_action reply_to set_to decoded s) (r ++ drains_and_closes)
              ∙ rw
                  (
                    after-closing s,
                    select-append closing r drains_and_closes,
                    f,
                    select-append closing (drain_part reply_to set_to decoded t)
                        (close_part reply_to set_to decoded t).1,
                    drain-closing t,
                    g,
                  )
                  (unfold closing_of in rw (k.1, k.2, k.3)),
        )
      ]

  counted_message-Closes :
      (d : ℕ) (m : M) (s : Receiver)
      → s.msg_action_size ≡ pos (suc d)
      → Closes 1 s (counted_message reply_to set_to decoded m (counted reply_to set_to decoded s))
  unfolding closing_of
  counted_message-Closes d m s e =
      let n = s.msg_received_cnt in
      let s' = counted reply_to set_to decoded s in
      let b = ap (batch_rest (n + 1)) e ∙ batch_rest-pos reply_to set_to decoded (n + 1) d in
      let (k, c, f) = finish-closing n m s' refl in
      let acts = if (n + 1) % suc d == 0 then do_message_action {M = M} s' else [] in
      rw (counted_message_batch reply_to set_to decoded ((n + 1) % suc d) m s' b) (
        k,
        λ go. c,
        select-append closing (before_action reply_to set_to decoded m s')
              (acts ++ (finish reply_to set_to decoded m s').1)
            ∙ rw (
              before-closing m s',
              select-append closing acts (finish reply_to set_to decoded m s').1,
              action-closing ((n + 1) % suc d == 0) s',
              f,
            ),
      )

  idle-Closes :
      (s : Receiver) (r : Receiver × List (Effect M))
      → Keeps s r.0
      → (ends r.1 ≡ false → r.0.msg_received_cnt ≡ s.msg_received_cnt)
      → select closing r.1 ≡ []
      → Closes 0 s r
  unfolding closing_of passes
  idle-Closes s r k c f = (
    k,
    λ go. c go ∙ sym (add-zero s.msg_received_cnt),
    f ∙ ground (arith, add-zero s.msg_received_cnt),
  )

  on_message-Closes :
      (d : ℕ) (m : M) (s : Receiver)
      → s.msg_action_size ≡ pos (suc d)
      → Closes
          (completed_by reply_to set_to decoded (message m) s)
          s
          (on_message reply_to set_to decoded m s)
  unfolding completed_by
  on_message-Closes d m s e = elim (Bool-cases (completes reply_to set_to decoded m s)) [
    | inl does ↦
        rw (does, on_message-completes reply_to set_to decoded m s does)
          (counted_message-Closes d m s e)
    | inr fails ↦ elim (on_message-fails reply_to set_to decoded m s fails) [
      | inl over ↦
          rw (fails, over)
            (idle-Closes s (s, overflows ∷ []) (refl, refl, refl, refl) (λ go. refl) refl)
      | inr thrown ↦
          rw (fails, thrown)
            (idle-Closes s (counted reply_to set_to decoded s, throws_conversion_error ∷ [])
              (refl, refl, refl, refl) (λ go. absurd (ground (arith, go))) refl)
    ]
  ]

  step-Closes :
      (d : ℕ) (s : Receiver) (e : Event M)
      → s.msg_action_size ≡ pos (suc d)
      → Closes (completed_by reply_to set_to decoded e s) s (step reply_to set_to decoded s e)
  unfolding step on_timer on_transport_close on_transport_error on_connection_error drain
      completed_by
  step-Closes d s (message m) e = on_message-Closes d m s e
  step-Closes d s ev e =
      idle-Closes s (step reply_to set_to decoded s ev) (ground arith) (λ go. ground arith)
        (ground arith)

  passes-add :
      (s : Receiver) (count : ℤ) (a m n : ℕ)
      → closing_of s (passes count a m) ++ closing_of s (passes count (a + m) n)
        ≡ closing_of s (passes count a (m + n))
  unfolding closing_of passes
  passes-add s count a m n = ground arith

  closing_of-Keeps : (s t : Receiver) (b : Bool) → Keeps s t → closing_of t b ≡ closing_of s b
  unfolding closing_of
  closing_of-Keeps s t b k = rw (k.1, k.3)

  run_from-closings :
      (d : ℕ) (s : Receiver) (es : List (Event M))
      → s.msg_action_size ≡ pos (suc d)
      → select closing (run reply_to set_to decoded s es).1
        ≡ closing_of s (passes s.count s.msg_received_cnt (completed reply_to set_to decoded s es))
  unfolding run completed
  run_from-closings d s [] size =
      (idle-Closes s (s, []) (refl, refl, refl, refl) (λ go. refl) refl).2
  run_from-closings d s (e ∷ es) size =
      let t = (step reply_to set_to decoded s e).0 in
      let one = completed_by reply_to set_to decoded e s in
      let more = completed reply_to set_to decoded t es in
      let (k, n, a) = step-Closes d s e size in
      let rest = run_from-closings d (step reply_to set_to decoded s e).0 es (k.0 ∙ size) in
      elim (Bool-cases (ends (step reply_to set_to decoded s e).1)) [
        | inl stops ↦ rw stops a
        | inr goes ↦ rw goes (
            select-append closing (step reply_to set_to decoded s e).1
              (run reply_to set_to decoded (step reply_to set_to decoded s e).0 es).1
            ∙ rw
                (
                  a,
                  rest,
                  closing_of-Keeps s t (passes t.count t.msg_received_cnt more) k,
                  k.2,
                  n goes,
                )
                (passes-add s s.count s.msg_received_cnt one more))
      ]

  -- From its first message on, a receiver with a positive batch size closes once if it does not
  -- process reply-to addresses and completes at least as many messages as its positive count, and never
  -- otherwise; it then detaches a durable subscription or closes the link, and after that closes
  -- the connection.
  pub run-closings :
      (d : ℕ) (s : Receiver) (es : List (Event M))
      → s.msg_action_size ≡ pos (suc d)
      → s.msg_received_cnt ≡ 0
      → select closing (run reply_to set_to decoded s es).1 ≡ (
          if not s.process_reply_to
            && (ltb_ℤ (pos 0) s.count
                && not (ltb_ℤ (pos (completed reply_to set_to decoded s es)) s.count))
          then (if s.durable_subscriber then detached else receiver_closed) ∷ connection_closed ∷ []
          else [])
  unfolding closing_of passes
  run-closings d s es size fresh =
      run_from-closings d s es size
      ∙ ground (arith, fresh, zero-add (completed reply_to set_to decoded s es))
