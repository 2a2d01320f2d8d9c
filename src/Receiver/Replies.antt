-- ===== src/Receiver/Replies.antt =====
-- Which replies src/api/qpid-proton/reactor/handler/ReceiverHandler.cpp sends, and
-- through which senders.
use cli_cpp.Prelude.{
  ℕ, suc, ◌%◌, ◌≡◌, refl, sym, ap, ◌∙◌, subst, Bool, true, false, Bool-cases, inl, inr, Option,
  none, some, List, [], ◌∷◌, ◌++◌, append-nil, arith, Str, str_eq, ◌==◌, if◌then◌else◌, select,
  select-append,
}
use cli_cpp.Prelude.Int.{pos}
use cli_cpp.Receiver.{
  Receiver, Effect, ends, is_listening, drain, counted_message, opens_sender, replies, Event,
  message, timer_fires, drain_fires, transport_close, transport_error, connection_error, has_sender,
  batch_rest, before_action, after_action, reply_part, drain_part, close_part, finish, on_message,
  do_message_action, on_timer, on_transport_close, on_transport_error, on_connection_error, step,
  run,
}
use cli_cpp.Receiver.Actions.{batch_rest-pos, counted_message_batch}
use cli_cpp.Decoder.{Message}
use cli_cpp.Receiver.Handled.{counted, completes, on_message-completes, on_message-fails}

-- The addresses for which a sender is opened.
abbrev pub opening : {M : Type 0} → Effect M → Option Str
opening (opens_sender a) = some a
opening e = none

-- The replies, with the address of the sender that carries them.
abbrev pub reply : {M : Type 0} → Effect M → Option (Str × M)
reply (replies a m) = some (a, m)
reply e = none

-- No text occurs twice.
abbrev pub AllDistinct : List Str → Type 0
AllDistinct [] = Unit
AllDistinct (a ∷ rest) = (has_sender a rest ≡ false) × AllDistinct rest

-- A list put before another one, from its end.
abbrev pub rev_onto : List Str → List Str → List Str
rev_onto [] ys = ys
rev_onto (x ∷ xs) ys = rev_onto xs (x ∷ ys)

rev_onto-append : (xs ys zs : List Str) → rev_onto (xs ++ ys) zs ≡ rev_onto ys (rev_onto xs zs)
rev_onto-append [] ys zs = refl
rev_onto-append (x ∷ xs) ys zs = rev_onto-append xs ys (x ∷ zs)

module _ {M : Type 0} (reply_to : M → Str) (set_to : M → Str → M) (decoded : M → Message) where
  -- The reply that a message asks for: one with an address gets a copy of itself, sent to that address.
  abbrev pub answer_to : M → List (Str × M)
  answer_to m = if str_eq (reply_to m) [] then [] else (reply_to m, set_to m (reply_to m)) ∷ []

  unfoldable pub answer : Event M → Receiver → List (Str × M)
  answer (message m) s = if completes reply_to set_to decoded m s then answer_to m else []
  answer timer_fires s = []
  answer drain_fires s = []
  answer transport_close s = []
  answer (transport_error what) s = []
  answer (connection_error what) s = []

  -- The replies that the messages ask for that are counted and printed before the program ends.
  unfoldable pub answers : Receiver → List (Event M) → List (Str × M)
  unfolding answer
  answers s [] = []
  answers s (e ∷ es) =
      let r = step reply_to set_to decoded s e in
      let rest = answers r.0 es in if ends r.1 then answer e s else answer e s ++ rest

  abbrev Keeps : Receiver → Receiver → Type 0
  Keeps s t =
      (t.msg_action_size ≡ s.msg_action_size)
      × (t.process_reply_to ≡ s.process_reply_to)
      × (is_listening t ≡ is_listening s)

  -- The senders are those opened before and since, and none is opened twice.
  abbrev Opens : Receiver → Receiver × List (Effect M) → Type 0
  Opens s r =
      (r.0.senders ≡ rev_onto (select opening r.1) s.senders)
      × (AllDistinct s.senders → AllDistinct r.0.senders)

  abbrev Answers : List (Str × M) → Receiver → Receiver × List (Effect M) → Type 0
  Answers l s r = Keeps s r.0 × Opens s r × (select reply r.1 ≡ l)

  -- The parts of on_message that open no sender and send no reply.
  abbrev IsSilent : List (Effect M) → Type 0
  IsSilent es = (select opening es ≡ []) × (select reply es ≡ [])

  before_action-IsSilent :
      (m : M) (s : Receiver) → IsSilent (before_action reply_to set_to decoded m s)
  unfolding before_action
  before_action-IsSilent m s = ground arith

  action-IsSilent : (b : Bool) (s : Receiver) → IsSilent (if b then do_message_action s else [])
  unfolding do_message_action
  action-IsSilent b s = ground arith

  after_action-IsSilent : (s : Receiver) → IsSilent (after_action reply_to set_to decoded s)
  unfolding after_action
  after_action-IsSilent s = ground arith

  drain_part-IsSilent : (s : Receiver) → IsSilent (drain_part reply_to set_to decoded s)
  unfolding drain_part
  drain_part-IsSilent s = ground arith

  close_part-IsSilent :
      (s : Receiver)
      → Keeps s (close_part reply_to set_to decoded s).0
        × ((close_part reply_to set_to decoded s).0.senders ≡ s.senders)
        × IsSilent (close_part reply_to set_to decoded s).1
  unfolding close_part is_listening
  close_part-IsSilent s = ground arith

  silent-append :
      (s : Receiver) (es : List (Str × M)) (t : Receiver) (xs ys : List (Effect M))
      → IsSilent xs
      → Answers es s (t, ys)
      → Answers es s (t, xs ++ ys)
  silent-append s es t xs ys q a = (
    a.0,
    (a.1.0 ∙ rw (select-append opening xs ys, q.0), a.1.1),
    select-append reply xs ys ∙ rw (q.1, a.2),
  )

  append-silent :
      (s : Receiver) (es : List (Str × M)) (t : Receiver) (xs ys : List (Effect M))
      → IsSilent ys
      → Answers es s (t, xs)
      → Answers es s (t, xs ++ ys)
  append-silent s es t xs ys q a = (
    a.0,
    (a.1.0 ∙ rw (select-append opening xs ys, q.0, append-nil), a.1.1),
    select-append reply xs ys ∙ rw (q.1, append-nil, a.2),
  )

  reply_part-Answers :
      (m : M) (s : Receiver)
      → s.process_reply_to ≡ true
      → is_listening s ≡ false
      → (ends (reply_part reply_to set_to decoded m s).1 ≡ false)
        × Answers (answer_to m) s (reply_part reply_to set_to decoded m s)
  unfolding reply_part is_listening
  reply_part-Answers m s on link = ground arith

  IsSilent-append : (xs ys : List (Effect M)) → IsSilent xs → IsSilent ys → IsSilent (xs ++ ys)
  IsSilent-append xs ys p q =
      (select-append opening xs ys ∙ rw (p.0, q.0), select-append reply xs ys ∙ rw (p.1, q.1))

  retarget :
      (s : Receiver) (es : List (Str × M)) (t u : Receiver) (xs : List (Effect M))
      → Keeps t u
      → u.senders ≡ t.senders
      → Answers es s (t, xs)
      → Answers es s (u, xs)
  retarget s es t u xs k e a = (
    (k.0 ∙ a.0.0, k.1 ∙ a.0.1, k.2 ∙ a.0.2),
    (e ∙ a.1.0, λ d. subst AllDistinct (sym e) (a.1.1 d)),
    a.2,
  )

  finish-Answers :
      (m : M) (s : Receiver)
      → s.process_reply_to ≡ true
      → is_listening s ≡ false
      → Answers (answer_to m) s (finish reply_to set_to decoded m s)
  unfolding finish
  finish-Answers m s on link =
      let r = reply_part reply_to set_to decoded m s in
      let c = close_part reply_to set_to decoded r.0 in
      let (k, e, q) = close_part-IsSilent r.0 in
      let (goes, answered) = reply_part-Answers m s on link in
      let a = retarget s (answer_to m) r.0 c.0 r.1 k e answered in
      let tail =
        IsSilent-append (drain_part reply_to set_to decoded r.0) c.1 (drain_part-IsSilent r.0) q in
      rw goes (
        silent-append s (answer_to m) c.0 (after_action reply_to set_to decoded s)
          (r.1 ++ (drain_part reply_to set_to decoded r.0 ++ c.1)) (after_action-IsSilent s)
          (append-silent s (answer_to m) c.0 r.1 (drain_part reply_to set_to decoded r.0 ++ c.1)
            tail a))

  counted_message-Answers :
      (d : ℕ) (m : M) (s : Receiver)
      → s.msg_action_size ≡ pos (suc d)
      → s.process_reply_to ≡ true
      → is_listening s ≡ false
      → Answers (answer_to m) s (counted_message reply_to set_to decoded m s)
  counted_message-Answers d m s e on link =
      let n = s.msg_received_cnt in
      let b = ap (batch_rest n) e ∙ batch_rest-pos reply_to set_to decoded n d in
      let f = finish reply_to set_to decoded m s in
      let acts = if n % suc d == 0 then do_message_action {M = M} s else [] in
      rw (counted_message_batch reply_to set_to decoded (n % suc d) m s b) (
        silent-append s (answer_to m) f.0 (before_action reply_to set_to decoded m s) (acts ++ f.1)
          (before_action-IsSilent m s)
          (silent-append s (answer_to m) f.0 acts f.1 (action-IsSilent (n % suc d == 0) s)
            (finish-Answers m s on link)))

  -- What counting changes does not matter here.
  from_counted :
      (s : Receiver) (l : List (Str × M)) (r : Receiver × List (Effect M))
      → Answers l (counted reply_to set_to decoded s) r
      → Answers l s r
  unfolding is_listening
  from_counted s l r a = a

  counted_link : (s : Receiver) → is_listening (counted reply_to set_to decoded s) ≡ is_listening s
  unfolding is_listening
  counted_link s = refl

  on_message-Answers :
      (d : ℕ) (m : M) (s : Receiver)
      → s.msg_action_size ≡ pos (suc d)
      → s.process_reply_to ≡ true
      → is_listening s ≡ false
      → Answers (answer (message m) s) s (on_message reply_to set_to decoded m s)
  unfolding answer
  on_message-Answers d m s e on link = elim (Bool-cases (completes reply_to set_to decoded m s)) [
    | inl does ↦
        rw (does, on_message-completes reply_to set_to decoded m s does)
          (from_counted s (answer_to m)
            (counted_message reply_to set_to decoded m (counted reply_to set_to decoded s))
            (counted_message-Answers d m (counted reply_to set_to decoded s) e on
              (counted_link s ∙ link)))
    | inr fails ↦ elim (on_message-fails reply_to set_to decoded m s fails) [
      | inl over ↦ rw (fails, over) ((refl, refl, refl), (refl, λ h. h), refl)
      | inr thrown ↦ rw (fails, thrown) ((refl, refl, counted_link s), (refl, λ h. h), refl)
    ]
  ]

  step-Answers :
      (d : ℕ) (s : Receiver) (e : Event M)
      → s.msg_action_size ≡ pos (suc d)
      → s.process_reply_to ≡ true
      → is_listening s ≡ false
      → Answers (answer e s) s (step reply_to set_to decoded s e)
  unfolding step on_timer on_transport_close on_transport_error on_connection_error drain answer
      is_listening
  step-Answers d s (message m) e on link = on_message-Answers d m s e on link
  step-Answers d s ev e on link = ground arith

  run-Answers :
      (d : ℕ) (s : Receiver) (es : List (Event M))
      → s.msg_action_size ≡ pos (suc d)
      → s.process_reply_to ≡ true
      → is_listening s ≡ false
      → Answers (answers s es) s (run reply_to set_to decoded s es)
  unfolding run answers
  run-Answers d s [] e on link = ((refl, refl, refl), (refl, λ h. h), refl)
  run-Answers d s (e ∷ es) size on link =
      let r = step reply_to set_to decoded s e in
      let a = step-Answers d s e size on link in
      let b =
        run-Answers d (step reply_to set_to decoded s e).0 es (a.0.0 ∙ size) (a.0.1 ∙ on)
          (a.0.2 ∙ link) in
      let rest = run reply_to set_to decoded r.0 es in
      elim (Bool-cases (ends (step reply_to set_to decoded s e).1)) [
        | inl stops ↦ rw stops a
        | inr goes ↦ rw goes (
          (b.0.0 ∙ a.0.0, b.0.1 ∙ a.0.1, b.0.2 ∙ a.0.2),
          (
            b.1.0
                ∙ rw (
                  a.1.0,
                  select-append opening r.1 rest.1,
                  rev_onto-append (select opening r.1) (select opening rest.1) s.senders,
                ),
            λ h. b.1.1 (a.1.1 h),
          ),
          select-append reply r.1 rest.1 ∙ rw (a.2, b.2) refl,
        )
      ]

  -- A receiver that connects to a broker and processes reply-to addresses, with a positive batch size, answers every
  -- message that it completes and that has an address with a copy sent to that address, in order and nothing else; and
  -- from no sender on it opens at most one sender for an address, and keeps exactly those that it opened.
  pub run-replies :
      (d : ℕ) (s : Receiver) (es : List (Event M))
      → s.msg_action_size ≡ pos (suc d)
      → s.process_reply_to ≡ true
      → is_listening s ≡ false
      → s.senders ≡ []
      → (select reply (run reply_to set_to decoded s es).1 ≡ answers s es)
        × ((run reply_to set_to decoded s es).0.senders
            ≡ rev_onto (select opening (run reply_to set_to decoded s es).1) [])
        × AllDistinct (run reply_to set_to decoded s es).0.senders
  run-replies d s es size on link none_open =
      let a = run-Answers d s es size on link in
      (
        a.2,
        a.1.0 ∙ ap (rev_onto (select opening (run reply_to set_to decoded s es).1)) none_open,
        a.1.1 (subst AllDistinct (sym none_open) tt),
      )
