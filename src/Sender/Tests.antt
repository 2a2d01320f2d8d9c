-- ===== src/Sender/Tests.antt =====
-- The sender of src/api/qpid-proton/reactor/handler/SenderHandler.cpp on a run of two messages,
-- whose bodies are texts.
use cli_cpp.Prelude.{◌≤◌, ◌≡◌, refl, Option, some, List, [], ◌∷◌, arith, Str, codes, str_eq}
use cli_cpp.Prelude.Int.{pos, pos_part}
use cli_cpp.Samples.{sample_settings}
use cli_cpp.Sender.{
  Event, sendable, check_fires, tracker_accept, prepare, instantiate, run, step, check_if_can_send,
  on_sendable, send, on_tracker_accept,
}
use cli_cpp.CppString.{find, replace, decimal}
use cli_cpp.Sender.Handled.{handled}
use cli_cpp.Sender.Sent.{sent_messages, instances, run-prepare}
use cli_cpp.Sender.Progress.{grants, run-prepare_all}
use cli_cpp.Sender.Closing.{closings, reaches, run-prepare_closes}

abbrev body : Str → Option Str
body m = some m

abbrev set_body : Str → Str → Str
set_body m s = s

abbrev two_rounds : List Event
two_rounds =
    check_fires 0 ∷ sendable ∷ check_fires 1 ∷ check_fires 5 ∷ tracker_accept ∷ tracker_accept ∷ []

run-prepare_example :
    (sent_messages
        (run body set_body
          (prepare sample_settings (pos 9) (pos 0) (codes "after-send") [] (codes "n%d") (pos 2))
          two_rounds).1
      ≡ instances body set_body
          (codes "n%d")
          0
          (run body set_body
            (prepare sample_settings (pos 9) (pos 0) (codes "after-send") [] (codes "n%d") (pos 2))
            two_rounds).0.sent)
    × ((run body set_body
          (prepare sample_settings (pos 9) (pos 0) (codes "after-send") [] (codes "n%d") (pos 2))
          two_rounds).0.sent
        ≤ pos_part (pos 2))
run-prepare_example =
    run-prepare body set_body sample_settings (pos 9) (pos 0) (codes "after-send") [] (codes "n%d")
      (pos 2) two_rounds

two_grants :
    2
    ≤ grants (
        handled body set_body
          (prepare sample_settings (pos 9) (pos 0) (codes "after-send") [] (codes "n%d") (pos 2))
          two_rounds)
unfolding handled step check_if_can_send prepare on_sendable send str_eq on_tracker_accept
two_grants = omega arith

run-prepare_all_example :
    sent_messages
      (run body set_body
        (prepare sample_settings (pos 9) (pos 0) (codes "after-send") [] (codes "n%d") (pos 2))
        two_rounds).1
    ≡ instances body set_body (codes "n%d") 0 2
run-prepare_all_example =
    run-prepare_all body set_body sample_settings (pos 9) (pos 0) (codes "after-send") []
      (codes "n%d") 2 two_rounds two_grants

-- The bodies carry the numbers.
numbered_bodies : instances body set_body (codes "n%d") 0 2 ≡ codes "n0" ∷ codes "n1" ∷ []
unfolding instantiate find replace decimal
numbered_bodies = refl

run-prepare_closes_example :
    closings
      (run body set_body
        (prepare sample_settings (pos 9) (pos 0) (codes "after-send") [] (codes "n%d") (pos 2))
        two_rounds).1
    ≡ 1
unfolding reaches handled step check_if_can_send prepare on_sendable send str_eq on_tracker_accept
run-prepare_closes_example =
    run-prepare_closes body set_body sample_settings (pos 9) (pos 0) (codes "after-send") []
      (codes "n%d") (pos 2) two_rounds
