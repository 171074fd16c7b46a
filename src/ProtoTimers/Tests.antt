-- ===== src/ProtoTimers/Tests.antt =====
-- The theorems on the protocol timers at concrete inputs.
use sc_open.Prelude.{◌≡◌, refl, true, false, some, List, [], ◌∷◌, set}
use sc_open.ProtoTimers.{
  Timer, idle_timer, calc_min_time, min_loop, timeout_handler, fire, due_loop, is_due,
  start_proto_timer, init_proto_timers,
}
use sc_open.ProtoTimers.Expiry.{Alarm, timeout_handler-fires}

abbrev some_running : List Timer
some_running =
    idle_timer
    ∷ record { running = true; end = 90 }
    ∷ record { running = true; end = 80 }
    ∷ record { running = true; end = 140 }
    ∷ record { running = false; end = 10 }
    ∷ []

abbrev after_alarm : List Timer
after_alarm = set some_running 2 (record { running = false; end = 80 })

timeout_handler_run : timeout_handler 100 some_running ≡ some (2, after_alarm, 1)
unfolding timeout_handler fire due_loop is_due calc_min_time min_loop
timeout_handler_run = refl

start_then_stop :
    start_proto_timer 100 45 3 init_proto_timers
    ≡ some (set init_proto_timers 3 (record { running = true; end = 145 }), 45)
unfolding start_proto_timer init_proto_timers calc_min_time min_loop
start_then_stop = refl

timeout_handler-fires_example : Alarm 100 some_running (timeout_handler 100 some_running)
timeout_handler-fires_example = timeout_handler-fires 100 some_running
