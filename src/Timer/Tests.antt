-- ===== src/Timer/Tests.antt =====
-- The timer of src/common/Timer.cpp on short countdowns.
use cli_cpp.Prelude.{suc, ◌≡◌, arith, codes}
use cli_cpp.Prelude.Int.{pos, negsuc}
use cli_cpp.Timer.{Timer, create, expired_text, timed_out, failed, run_timer}
use cli_cpp.Timer.Countdown.{run_timer-create, run_timer-negative}

run_timer-create_example : run_timer 5 (create (pos 3) (codes "timeout")) ≡ (3, timed_out)
run_timer-create_example = run_timer-create 3 5 (codes "timeout") (omega arith)

abbrev half_way : Timer
half_way = record { timeout = pos 3; remaining = pos 1; name = codes "timeout" }

run_timer-negative_example :
    run_timer (suc 4) (create (negsuc (suc 0)) (codes "timeout"))
    ≡ (0, failed (expired_text (create (negsuc (suc 0)) (codes "timeout"))))
run_timer-negative_example = run_timer-negative 0 4 (codes "timeout") (omega arith)
