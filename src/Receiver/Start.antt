-- ===== src/Receiver/Start.antt =====
-- Whole runs of src/api/qpid-proton/reactor/handler/ReceiverHandler.cpp, from on_container_start on.
use cli_cpp.Prelude.{
  ℕ, suc, ◌/◌, ◌≡◌, refl, sym, ap, subst, ◌∙◌, Bool, true, false, not, ◌&&◌, Bool-cases, inl, inr,
  Option, List, [], ◌∷◌, ◌++◌, arith, Str, str_eq, if◌then◌else◌, select, select-append,
}
use cli_cpp.Prelude.Int.{pos, ltb_ℤ}
use cli_cpp.Decoder.{Message}
use cli_cpp.Receiver.{Receiver, Effect, ends, is_listening, Event, on_container_start, run, start}
use cli_cpp.Receiver.Handled.{completed}
use cli_cpp.Receiver.Actions.{outcome, named_outcome, repeat, run-outcomes}
use cli_cpp.Receiver.Closing.{
  Closing, closing, detached, receiver_closed, connection_closed, run-closings,
}
use cli_cpp.Receiver.Replies.{opening, reply, AllDistinct, rev_onto, answers, run-replies}

-- Whether a receiver only ends a durable subscription: it unsubscribes and the subscription has a name.
abbrev pub unsubscribes : Receiver → Bool
unsubscribes t = t.subscriber_unsubscribe && not (str_eq t.durable_subscriber_name [])

-- What closing at the count comes to, after n messages.
abbrev pub closing_at : ℕ → Receiver → List Closing
closing_at n t =
    if not t.process_reply_to && (ltb_ℤ (pos 0) t.count && not (ltb_ℤ (pos n) t.count))
    then (if t.durable_subscriber then detached else receiver_closed) ∷ connection_closed ∷ []
    else []

never : (b : Bool) → (b && false) ≡ false
never true = refl
never false = refl

by_start :
    (u l : Bool) (later : List Closing)
    → (if u && l
        then (if u && not l then receiver_closed ∷ connection_closed ∷ [] else [])
        else (if u && not l then receiver_closed ∷ connection_closed ∷ [] else []) ++ later)
      ≡ (if u && l
          then []
          else (if u then receiver_closed ∷ connection_closed ∷ [] else []) ++ later)
by_start true true later = refl
by_start true false later = refl
by_start false l later = refl

module _ {M : Type 0} (reply_to : M → Str) (set_to : M → Str → M) (decoded : M → Message) where
  -- The receiver after on_container_start, which may have given its subscription a name.
  abbrev pub started : Str → Receiver → Receiver
  started uuid s = (on_container_start {M = M} uuid s).0

  abbrev first_calls : Str → Receiver → List (Effect M)
  first_calls uuid s = (on_container_start {M = M} uuid s).1

  started-keeps :
      (uuid : Str) (s : Receiver)
      → ((started uuid s).msg_action_size ≡ s.msg_action_size)
        × ((started uuid s).msg_received_cnt ≡ s.msg_received_cnt)
        × ((started uuid s).msg_action ≡ s.msg_action)
        × ((started uuid s).process_reply_to ≡ s.process_reply_to)
        × ((started uuid s).senders ≡ s.senders)
        × (is_listening (started uuid s) ≡ is_listening s)
  unfolding on_container_start is_listening
  started-keeps uuid s = ground arith

  first_calls-end :
      (uuid : Str) (s : Receiver)
      → ends (first_calls uuid s) ≡ (unsubscribes (started uuid s) && is_listening (started uuid s))
  unfolding on_container_start is_listening
  first_calls-end uuid s = ground arith

  first_calls-outcome : (uuid : Str) (s : Receiver) → select outcome (first_calls uuid s) ≡ []
  unfolding on_container_start is_listening
  first_calls-outcome uuid s = ground arith

  first_calls-replies :
      (uuid : Str) (s : Receiver)
      → (select reply (first_calls uuid s) ≡ []) × (select opening (first_calls uuid s) ≡ [])
  unfolding on_container_start is_listening
  first_calls-replies uuid s = ground arith

  first_calls-closing :
      (uuid : Str) (s : Receiver)
      → select closing (first_calls uuid s) ≡ (
          if unsubscribes (started uuid s) && not (is_listening (started uuid s))
          then receiver_closed ∷ connection_closed ∷ []
          else [])
  unfolding on_container_start is_listening
  first_calls-closing uuid s = ground arith

  -- What a whole run does is what the start does and, if it does not end the program, what the handlers do.
  start-select :
      {B : Type 0} (f : Effect M → Option B) (uuid : Str) (s : Receiver) (es : List (Event M))
      → select f (start reply_to set_to decoded uuid s es).1 ≡ (
          if ends (first_calls uuid s)
          then select f (first_calls uuid s)
          else select f (first_calls uuid s)
            ++ select f (run reply_to set_to decoded (started uuid s) es).1)
  unfolding start
  start-select f uuid s es = elim (Bool-cases (ends (first_calls uuid s))) [
    | inl e ↦ rw e refl
    | inr e ↦
        rw e
          (select-append f (first_calls uuid s) (run reply_to set_to decoded (started uuid s) es).1)
  ]

  -- From its start on, a receiver with a positive batch size and no message yet accepts, rejects or releases, as its action says, once for
  -- every full batch of the messages that it counts and prints before the program ends, and else leaves deliveries
  -- alone; none if it listens and unsubscribes, where the start fails.
  pub start-outcomes :
      (d : ℕ) (uuid : Str) (s : Receiver) (es : List (Event M))
      → s.msg_action_size ≡ pos (suc d)
      → s.msg_received_cnt ≡ 0
      → select outcome (start reply_to set_to decoded uuid s es).1 ≡ (
          if unsubscribes (started uuid s) && is_listening (started uuid s)
          then []
          else repeat
              (completed reply_to set_to decoded (started uuid s) es / suc d)
              (named_outcome s.msg_action))
  start-outcomes d uuid s es size fresh =
      let (k, n, a, p, q, l) = started-keeps uuid s in
      let later =
        run-outcomes reply_to set_to decoded d (started uuid s) es (k ∙ size) (n ∙ fresh) in
      start-select outcome uuid s es
      ∙ rw (first_calls-end uuid s, first_calls-outcome uuid s, later, a) refl

  -- From its start on, a receiver with a positive batch size and no message yet closes its link and its connection at once if it only
  -- unsubscribes, unless it listens, where the start fails. Otherwise, and for the messages that still come, it closes once
  -- if it does not process reply-to addresses and counts and prints at least as many messages as its positive
  -- count before the program ends, and never otherwise; it then detaches a durable subscription or closes the link,
  -- and after that closes the connection.
  pub start-closings :
      (d : ℕ) (uuid : Str) (s : Receiver) (es : List (Event M))
      → s.msg_action_size ≡ pos (suc d)
      → s.msg_received_cnt ≡ 0
      → select closing (start reply_to set_to decoded uuid s es).1 ≡ (
          if unsubscribes (started uuid s) && is_listening (started uuid s)
          then []
          else (if unsubscribes (started uuid s)
              then receiver_closed ∷ connection_closed ∷ []
              else [])
            ++ closing_at (completed reply_to set_to decoded (started uuid s) es) (started uuid s))
  start-closings d uuid s es size fresh =
      let (k, n, a, p, q, l) = started-keeps uuid s in
      let later =
        run-closings reply_to set_to decoded d (started uuid s) es (k ∙ size) (n ∙ fresh) in
      start-select closing uuid s es
      ∙ rw (first_calls-end uuid s, first_calls-closing uuid s, later)
          (by_start (unsubscribes (started uuid s)) (is_listening (started uuid s)) _)

  -- From its start on, a receiver that connects to a broker and processes reply-to addresses, with a positive batch size and no sender yet,
  -- answers every message that it counts and prints before the program ends and that has an address with a copy sent
  -- to that address, in order and nothing else; it opens at most one sender for an address and keeps exactly those
  -- that it opened.
  pub start-replies :
      (d : ℕ) (uuid : Str) (s : Receiver) (es : List (Event M))
      → s.msg_action_size ≡ pos (suc d)
      → s.process_reply_to ≡ true
      → is_listening s ≡ false
      → s.senders ≡ []
      → (select reply (start reply_to set_to decoded uuid s es).1
          ≡ answers reply_to set_to decoded (started uuid s) es)
        × ((start reply_to set_to decoded uuid s es).0.senders
            ≡ rev_onto (select opening (start reply_to set_to decoded uuid s es).1) [])
        × AllDistinct (start reply_to set_to decoded uuid s es).0.senders
  start-replies d uuid s es size on link none_open =
      let (k, n, a, p, q, l) = started-keeps uuid s in
      let (r, o, distinct) =
        run-replies reply_to set_to decoded d (started uuid s) es (k ∙ size) (p ∙ on) (l ∙ link)
          (q ∙ none_open) in
      let (no_reply, no_sender) = first_calls-replies uuid s in
      let goes : ends (first_calls uuid s) ≡ false =
        first_calls-end uuid s ∙ rw (l, link) (never (unsubscribes (started uuid s))) in
      let last : (start reply_to set_to decoded uuid s es).0
          ≡ (run reply_to set_to decoded (started uuid s) es).0 =
        unfold start in rw goes refl in
      let same_senders : select opening (start reply_to set_to decoded uuid s es).1
          ≡ select opening (run reply_to set_to decoded (started uuid s) es).1 =
        start-select opening uuid s es ∙ rw (goes, no_sender) refl in
      (
        start-select reply uuid s es ∙ rw (goes, no_reply, r) refl,
        ap (λ x. x.senders) last ∙ o ∙ sym (ap (λ x. rev_onto x []) same_senders),
        subst (λ x. AllDistinct x.senders) (sym last) distinct,
      )
