-- ===== src/Receiver/Handled.antt =====
-- The messages that src/api/qpid-proton/reactor/handler/ReceiverHandler.cpp handles before the program ends.
use cli_cpp.Prelude.{
  ℕ, ◌+◌, ◌≡◌, refl, Bool, true, false, not, ◌&&◌, Bool-cases, inl, inr, ◌⊎◌, if◌then◌else◌, ◌==◌,
  List, [], ◌∷◌, Str, arith,
}
use cli_cpp.Decoder.{Message}
use cli_cpp.Receiver.{
  Receiver, ends, throws_conversion_error, overflows, Event, message, timer_fires, drain_fires,
  transport_close, transport_error, connection_error, print_fails, counted_message, on_message,
  step,
}

module _ {M : Type 0} (reply_to : M → Str) (set_to : M → Str → M) (decoded : M → Message) where
  abbrev pub counted : Receiver → Receiver
  counted s = record s { msg_received_cnt = s.msg_received_cnt + 1 }

  -- Whether the message can be counted and printed.
  unfoldable pub completes : M → Receiver → Bool
  completes m s =
      not (s.msg_received_cnt == 2147483647)
      && not (print_fails reply_to set_to decoded m (counted s))

  unfoldable pub completed_by : Event M → Receiver → ℕ
  completed_by (message m) s = if completes m s then 1 else 0
  completed_by timer_fires s = 0
  completed_by drain_fires s = 0
  completed_by transport_close s = 0
  completed_by (transport_error what) s = 0
  completed_by (connection_error what) s = 0

  -- The messages that are counted and printed before the program ends.
  unfoldable pub completed : Receiver → List (Event M) → ℕ
  unfolding completed_by
  completed s [] = 0
  completed s (e ∷ es) =
      let r = step reply_to set_to decoded s e in
      let rest = completed r.0 es in if ends r.1 then completed_by e s else completed_by e s + rest

  pub on_message-completes :
      (m : M) (s : Receiver)
      → completes m s ≡ true
      → on_message reply_to set_to decoded m s
        ≡ counted_message reply_to set_to decoded m (counted s)
  unfolding completes on_message
  on_message-completes m s h = ground arith

  pub on_message-fails :
      (m : M) (s : Receiver)
      → completes m s ≡ false
      → (on_message reply_to set_to decoded m s ≡ (s, overflows ∷ []))
        ⊎ (on_message reply_to set_to decoded m s ≡ (counted s, throws_conversion_error ∷ []))
  unfolding completes on_message
  on_message-fails m s h = elim (Bool-cases (s.msg_received_cnt == 2147483647)) [
    | inl e ↦ inl (rw e refl)
    | inr e ↦ inr (ground (arith, h, e))
  ]
