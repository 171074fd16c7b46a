-- ===== src/Timers/Tests.antt =====
-- The user's timers at concrete inputs.
use sc_open.Prelude.{ℕ, ◌≡◌, refl, true, false, some, List, [], replicate, set}
use sc_open.Timers.{UserTimer, start_user_timer, fill_slot, choose_slot, free_slot, user_min_time}
use sc_open.Timers.Handler.{timer_handler, Takes, timer_handler-Takes}
use sc_open.ProtoTimers.{calc_min_time, min_loop}

abbrev stopped_timer : UserTimer
stopped_timer = record { active = false; end = 0; program_idx = 0; msg = [] }

abbrev all_free : List UserTimer
all_free = replicate 50 stopped_timer

abbrev with_ten : List UserTimer
with_ten = set all_free 10 (record { active = true; end = 145; program_idx = 7; msg = [] })

start_three : start_user_timer 100 (some 3) 45 7 [] all_free ≡ some (10, with_ten, 45)
unfolding start_user_timer fill_slot choose_slot free_slot user_min_time calc_min_time min_loop
start_three = refl

-- The program leaves the timers as they are.
abbrev resume_none : ℕ → List ℕ → List UserTimer → List UserTimer
resume_none program_idx msg ts = ts

timer_handler-Takes_example :
    (let h = timer_handler resume_none 150 151 with_ten in
      Takes resume_none 150 with_ten h.taken h.timers × (h.timeout ≡ user_min_time 151 h.timers))
timer_handler-Takes_example = timer_handler-Takes resume_none 150 151 with_ten
