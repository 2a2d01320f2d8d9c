-- ===== src/Receiver/Actions.antt =====
-- Which deliveries src/api/qpid-proton/reactor/handler/ReceiverHandler.cpp accepts,
-- rejects or releases.
use cli_cpp.Prelude.{
  ℕ, zero, suc, ◌+◌, ◌-◌, ◌/◌, ◌%◌, ◌≡◌, refl, sym, ap, ◌∙◌, false, Bool-cases, inl, inr, Option,
  none, some, List, [], ◌∷◌, ◌++◌, append-nil, arith, Str, codes, str_eq, ◌==◌, if◌then◌else◌,
  select, select-append, cons?,
}
use cli_cpp.Prelude.Int.{pos}
use native.Mathlib.Nat.{add-zero, zero-add, zero-div, sub-zero}
use cli_cpp.Prelude.Division.{div-suc, div-split}
use cli_cpp.Decoder.{Message}
use cli_cpp.Receiver.Handled.{
  counted, completes, completed_by, completed, on_message-completes, on_message-fails,
}
use cli_cpp.Receiver.{
  Receiver, Effect, ends, throws_conversion_error, overflows, drain, counted_message, accepts,
  rejects, releases, divides_by_zero, Event, message, batch_rest, before_action, after_action,
  reply_part, drain_part, close_part, finish, on_message, do_message_action, on_timer,
  on_transport_close, on_transport_error, on_connection_error, step, run,
}

-- The calls on deliveries.
pub data Outcome : Type 0 where
  accepted rejected released : Outcome

abbrev pub outcome : {M : Type 0} → Effect M → Option Outcome
outcome accepts = some accepted
outcome rejects = some rejected
outcome releases = some released
outcome e = none

-- The outcome that the setting of the action names, if it names one.
abbrev pub named_outcome : Str → Option Outcome
named_outcome a =
    if str_eq a (codes "ack")
    then some accepted
    else if str_eq a (codes "reject")
    then some rejected
    else if str_eq a (codes "release")
    then some released
    else none

abbrev pub repeat : ℕ → Option Outcome → List Outcome
repeat zero o = []
repeat (suc n) o = cons? o (repeat n o)

module _ {M : Type 0} (reply_to : M → Str) (set_to : M → Str → M) (decoded : M → Message) where
  before-outcome :
      (m : M) (s : Receiver) → select outcome (before_action reply_to set_to decoded m s) ≡ []
  unfolding before_action
  before-outcome m s = ground arith

  -- What a handler leaves of the settings that matter here.
  abbrev Keeps : Receiver → Receiver → Type 0
  Keeps s t =
      (t.msg_action ≡ s.msg_action)
      × (t.msg_action_size ≡ s.msg_action_size)
      × (t.process_reply_to ≡ s.process_reply_to)
      × (t.count ≡ s.count)
      × (t.durable_subscriber ≡ s.durable_subscriber)

  reply_part-outcome :
      (m : M) (s : Receiver)
      → Keeps s (reply_part reply_to set_to decoded m s).0
        × (select outcome (reply_part reply_to set_to decoded m s).1 ≡ [])
        × ((reply_part reply_to set_to decoded m s).0.msg_received_cnt ≡ s.msg_received_cnt)
  unfolding reply_part
  reply_part-outcome m s = ground arith

  close_part-outcome :
      (s : Receiver)
      → Keeps s (close_part reply_to set_to decoded s).0
        × (select outcome (close_part reply_to set_to decoded s).1 ≡ [])
        × ((close_part reply_to set_to decoded s).0.msg_received_cnt ≡ s.msg_received_cnt)
  unfolding close_part
  close_part-outcome s = ground arith

  after-outcome : (s : Receiver) → select outcome (after_action reply_to set_to decoded s) ≡ []
  unfolding after_action
  after-outcome s = ground arith

  drain-outcome : (s : Receiver) → select outcome (drain_part reply_to set_to decoded s) ≡ []
  unfolding drain_part
  drain-outcome s = ground arith

  finish-outcome :
      (m : M) (s : Receiver)
      → Keeps s (finish reply_to set_to decoded m s).0
        × (select outcome (finish reply_to set_to decoded m s).1 ≡ [])
        × ((finish reply_to set_to decoded m s).0.msg_received_cnt ≡ s.msg_received_cnt)
  unfolding finish
  finish-outcome m s =
      let t = (reply_part reply_to set_to decoded m s).0 in
      let r = (reply_part reply_to set_to decoded m s).1 in
      let c = close_part reply_to set_to decoded t in
      let (k, e, n) = reply_part-outcome m s in
      let (k', e', n') = close_part-outcome (reply_part reply_to set_to decoded m s).0 in
      elim (Bool-cases (ends (reply_part reply_to set_to decoded m s).1)) [
        | inl stops ↦ rw stops (
          k,
          rw (select-append outcome (after_action reply_to set_to decoded s) r, after-outcome s, e)
              refl,
          n,
        )
        | inr goes ↦ rw goes (
          (k'.0 ∙ k.0, k'.1 ∙ k.1, k'.2 ∙ k.2, k'.3 ∙ k.3, k'.4 ∙ k.4),
          rw (
            select-append outcome (after_action reply_to set_to decoded s)
                (r ++ (drain_part reply_to set_to decoded t ++ c.1)),
            select-append outcome r (drain_part reply_to set_to decoded t ++ c.1),
            select-append outcome (drain_part reply_to set_to decoded t) c.1,
            after-outcome s,
            e,
            e',
            drain-outcome t,
          ),
          n' ∙ n,
        )
      ]

  action-outcome :
      (s : Receiver)
      → select outcome (do_message_action {M = M} s) ≡ cons? (named_outcome s.msg_action) []
  unfolding do_message_action
  action-outcome s = ground arith

  -- n messages are counted, unless the program ends, and deliveries get the named outcome at the end of each batch.
  abbrev Acts : ℕ → ℕ → Receiver → Receiver × List (Effect M) → Type 0
  Acts d n s r =
      Keeps s r.0
      × (ends r.1 ≡ false → r.0.msg_received_cnt ≡ s.msg_received_cnt + n)
      × (select outcome r.1
          ≡ repeat ((s.msg_received_cnt + n) / d - s.msg_received_cnt / d)
              (named_outcome s.msg_action))

  pub batch_rest-pos : (n d : ℕ) → batch_rest n (pos (suc d)) ≡ some (n % suc d)
  unfolding batch_rest
  batch_rest-pos n d = ground (arith, add-zero (suc d))

  -- `counted_message` where the division has a result.
  pub counted_message_batch :
      (r : ℕ) (m : M) (s : Receiver)
      → batch_rest s.msg_received_cnt s.msg_action_size ≡ some r
      → counted_message reply_to set_to decoded m s ≡ (
        (finish reply_to set_to decoded m s).0,
        before_action reply_to set_to decoded m s
            ++ ((if r == 0 then do_message_action s else [])
                ++ (finish reply_to set_to decoded m s).1),
      )
  unfolding counted_message
  counted_message_batch r m s b = rw (b, counted_message)

  batch-outcome :
      (s : Receiver) (r n d : ℕ)
      → (n + 1) / d ≡ n / d + (if r == 0 then 1 else 0)
      → select outcome
          (if r == 0 then do_message_action {M = M} (counted reply_to set_to decoded s) else [])
        ≡ repeat ((n + 1) / d - n / d) (named_outcome s.msg_action)
  batch-outcome s zero n d q =
      let e : (n + 1) / d - n / d ≡ 1 = omega arith in
      rw e (action-outcome (counted reply_to set_to decoded s))
  batch-outcome s (suc r) n d q =
      let e : (n + 1) / d - n / d ≡ 0 = ground arith in rw e (ground arith)

  counted_message-Acts :
      (d : ℕ) (m : M) (s : Receiver)
      → s.msg_action_size ≡ pos (suc d)
      → Acts
          (suc d)
          1
          s
          (counted_message reply_to set_to decoded m (counted reply_to set_to decoded s))
  counted_message-Acts d m s e =
      let (k, f, n) = finish-outcome m (counted reply_to set_to decoded s) in
      let b =
        ap (batch_rest (s.msg_received_cnt + 1)) e ∙ batch_rest-pos (s.msg_received_cnt + 1) d in
      let split =
        select-append outcome
          (before_action reply_to set_to decoded m (counted reply_to set_to decoded s))
          ((if (s.msg_received_cnt + 1) % suc d == 0
              then do_message_action (counted reply_to set_to decoded s)
              else [])
            ++ (finish reply_to set_to decoded m (counted reply_to set_to decoded s)).1) in
      let split' =
        select-append outcome
          (if (s.msg_received_cnt + 1) % suc d == 0
            then do_message_action (counted reply_to set_to decoded s)
            else [])
          (finish reply_to set_to decoded m (counted reply_to set_to decoded s)).1 in
      let a =
        batch-outcome s ((s.msg_received_cnt + 1) % suc d) s.msg_received_cnt (suc d)
          (div-suc s.msg_received_cnt (suc d) (omega arith)) in
      rw
        (counted_message_batch ((s.msg_received_cnt + 1) % suc d) m
          (counted reply_to set_to decoded s) b)
        (
          k,
          λ go. n,
          split
              ∙ rw (before-outcome m (counted reply_to set_to decoded s), split', f, append-nil) a,
        )

  idle-Acts :
      (d : ℕ) (s : Receiver) (r : Receiver × List (Effect M))
      → Keeps s r.0
      → (ends r.1 ≡ false → r.0.msg_received_cnt ≡ s.msg_received_cnt)
      → select outcome r.1 ≡ []
      → Acts d 0 s r
  idle-Acts d s r k e f =
      let z : (s.msg_received_cnt + 0) / d - s.msg_received_cnt / d ≡ 0 =
        rw add-zero (omega arith) in
      (k, λ go. e go ∙ sym (add-zero s.msg_received_cnt), rw (z, f))

  on_message-Acts :
      (d : ℕ) (m : M) (s : Receiver)
      → s.msg_action_size ≡ pos (suc d)
      → Acts
          (suc d)
          (completed_by reply_to set_to decoded (message m) s)
          s
          (on_message reply_to set_to decoded m s)
  unfolding completed_by
  on_message-Acts d m s e = elim (Bool-cases (completes reply_to set_to decoded m s)) [
    | inl does ↦
        rw (does, on_message-completes reply_to set_to decoded m s does)
          (counted_message-Acts d m s e)
    | inr fails ↦ elim (on_message-fails reply_to set_to decoded m s fails) [
      | inl over ↦
          rw (fails, over)
            (idle-Acts (suc d) s (s, overflows ∷ []) (refl, refl, refl, refl, refl) (λ go. refl)
              refl)
      | inr thrown ↦
          rw (fails, thrown)
            (idle-Acts (suc d) s (counted reply_to set_to decoded s, throws_conversion_error ∷ [])
              (refl, refl, refl, refl, refl) (λ go. absurd (ground (arith, go))) refl)
    ]
  ]

  step-Acts :
      (d : ℕ) (s : Receiver) (e : Event M)
      → s.msg_action_size ≡ pos (suc d)
      → Acts (suc d) (completed_by reply_to set_to decoded e s) s (step reply_to set_to decoded s e)
  unfolding step on_timer on_transport_close on_transport_error on_connection_error drain
      completed_by
  step-Acts d s (message m) e = on_message-Acts d m s e
  step-Acts d s ev e =
      idle-Acts (suc d) s (step reply_to set_to decoded s ev) (ground arith) (λ go. ground arith)
        (ground arith)

  cons_append : (o : Option Outcome) (xs ys : List Outcome) → cons? o (xs ++ ys) ≡ cons? o xs ++ ys
  cons_append none xs ys = refl
  cons_append (some x) xs ys = refl

  repeat-add : (a b : ℕ) (o : Option Outcome) → repeat (a + b) o ≡ repeat a o ++ repeat b o
  repeat-add zero b o = rw zero-add
  repeat-add (suc a) b o =
      let e : suc a + b ≡ suc (a + b) = omega arith in
      rw e (ap (cons? o) (repeat-add a b o) ∙ cons_append o (repeat a o) (repeat b o))

  batches :
      (n a b d : ℕ) (o : Option Outcome)
      → repeat ((n + a) / suc d - n / suc d) o ++ repeat ((n + a + b) / suc d - (n + a) / suc d) o
        ≡ repeat ((n + (a + b)) / suc d - n / suc d) o
  batches n a b d o =
      sym (repeat-add ((n + a) / suc d - n / suc d) ((n + a + b) / suc d - (n + a) / suc d) o)
      ∙ ap (λ k. repeat k o) (div-split n a b (suc d) (omega arith))

  run_from-outcomes :
      (d : ℕ) (s : Receiver) (es : List (Event M))
      → s.msg_action_size ≡ pos (suc d)
      → select outcome (run reply_to set_to decoded s es).1
        ≡ repeat
            ((s.msg_received_cnt + completed reply_to set_to decoded s es) / suc d
              - s.msg_received_cnt / suc d)
            (named_outcome s.msg_action)
  unfolding run completed
  run_from-outcomes d s [] size =
      (idle-Acts (suc d) s (s, []) (refl, refl, refl, refl, refl) (λ go. refl) refl).2
  run_from-outcomes d s (e ∷ es) size =
      let t = (step reply_to set_to decoded s e).0 in
      let one = completed_by reply_to set_to decoded e s in
      let (k, n, a) = step-Acts d s e size in
      let rest = run_from-outcomes d (step reply_to set_to decoded s e).0 es (k.1 ∙ size) in
      elim (Bool-cases (ends (step reply_to set_to decoded s e).1)) [
        | inl stops ↦ rw stops a
        | inr goes ↦ rw goes (
            select-append outcome (step reply_to set_to decoded s e).1
              (run reply_to set_to decoded (step reply_to set_to decoded s e).0 es).1
            ∙ rw (a, rest, n goes, k.0)
                (batches s.msg_received_cnt one (completed reply_to set_to decoded t es) d
                  (named_outcome s.msg_action)))
      ]

  -- From its first message on, a receiver with a positive batch size accepts, rejects or releases, as its action
  -- says, once for every full batch of the messages that it completes, and else leaves deliveries alone.
  pub run-outcomes :
      (d : ℕ) (s : Receiver) (es : List (Event M))
      → s.msg_action_size ≡ pos (suc d)
      → s.msg_received_cnt ≡ 0
      → select outcome (run reply_to set_to decoded s es).1
        ≡ repeat (completed reply_to set_to decoded s es / suc d) (named_outcome s.msg_action)
  run-outcomes d s es size fresh =
      run_from-outcomes d s es size ∙ rw (fresh, zero-add, zero-div, sub-zero)

  -- With a batch size of 0 a message that is counted and printed ends the program in a division by zero, after
  -- the log and the wait and before any action, reply or close.
  pub counted_message-zero_size :
      (m : M) (s : Receiver)
      → s.msg_action_size ≡ pos 0
      → counted_message reply_to set_to decoded m s
        ≡ (s, before_action reply_to set_to decoded m s ++ divides_by_zero ∷ [])
  unfolding counted_message
  counted_message-zero_size m s e =
      let z : batch_rest s.msg_received_cnt (pos 0) ≡ none = unfold batch_rest in refl in
      let b = ap (batch_rest s.msg_received_cnt) e ∙ z in rw (b, counted_message)
