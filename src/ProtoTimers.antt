-- ===== src/ProtoTimers.antt =====
-- source/proto_timers.c: the table of the protocol timers T1 to T8 and the alarm they share. The
-- clock is the argument `now`; the alarm that is set is part of each result.
pub mod Expiry
mod Tests
use sc_open.Prelude.{
  ℕ, zero, suc, ◌+◌, ◌-◌, ◌≤◌, ◌≡◌, Bool, true, false, ◌&&◌, Option, none, some, List, [], ◌∷◌, set,
  replicate, get_or, ltb, leb, ◌==◌, if◌then◌else◌,
}

abbrev pub max_timers : ℕ
max_timers = 9

-- `end` is the time at which the timer expires.
pub record Timer : Type 0 where
  pub running : Bool
  pub end : ℕ

abbrev pub idle_timer : Timer
idle_timer = record { running = false; end = 0 }

unfoldable pub init_proto_timers : List Timer
init_proto_timers = replicate max_timers idle_timer

-- The loop of calc_min_time(): the number of running timers and the least time left. A timer that
-- is overdue counts as 0 here, where the source goes below 0: both end up as an alarm of 1.
unfoldable pub min_loop : (now num min_time : ℕ) → List Timer → ℕ × ℕ
min_loop now num min_time [] = (num, min_time)
min_loop now num min_time (t ∷ ts) =
    let next : ℕ × ℕ =
      if t.running
      then (num + 1, if ltb min_time (t.end - now) then min_time else t.end - now)
      else (num, min_time) in
    min_loop now next.0 next.1 ts

-- calc_min_time(): 0 means no alarm.
unfoldable pub calc_min_time : (now : ℕ) → List Timer → ℕ
calc_min_time now ts =
    let r = min_loop now 0 300 ts in if r.0 == 0 then 0 else if r.1 == 0 then 1 else r.1

-- start_proto_timer(): `none` is its error return; otherwise the table and the alarm.
unfoldable pub start_proto_timer : (now seconds idx : ℕ) → List Timer → Option (List Timer × ℕ)
start_proto_timer now seconds idx ts =
    let ts2 = set ts idx (record { running = true; end = now + seconds }) in
    if leb max_timers idx
    then none
    else if (get_or ts idx idle_timer).running
    then none
    else some (ts2, calc_min_time now ts2)

-- stop_proto_timer(): `none` is its error return.
unfoldable pub stop_proto_timer : (now idx : ℕ) → List Timer → Option (List Timer × ℕ)
stop_proto_timer now idx ts =
    let ts2 = set ts idx (record (get_or ts idx idle_timer) { running = false }) in
    if leb max_timers idx then none else some (ts2, calc_min_time now ts2)

-- The three nested tests of the loop of timeout_handler().
unfoldable pub is_due : (now max : ℕ) → Timer → Bool
is_due now max t = t.running && (leb t.end now && leb max (now - t.end))

-- The loop of timeout_handler(): the timer that is most overdue, the last of those where several
-- are.
unfoldable pub due_loop : (now i max : ℕ) → Option ℕ → List Timer → Option ℕ
due_loop now i max idx [] = idx
due_loop now i max idx (t ∷ ts) =
    let next : ℕ × Option ℕ = if is_due now max t then (now - t.end, some i) else (max, idx) in
    due_loop now (i + 1) next.0 next.1 ts

-- The rest of timeout_handler(), with what the loop has found.
unfoldable pub fire : (now : ℕ) → List Timer → Option ℕ → Option (ℕ × List Timer × ℕ)
fire now ts none = none
fire now ts (some k) =
    let ts2 = set ts k (record (get_or ts k idle_timer) { running = false }) in
    some (k, ts2, calc_min_time now ts2)

-- timeout_handler(): the timer whose jump is taken, with the table and the alarm; `none` where no
-- timer is due, and then no new alarm is set.
unfoldable pub timeout_handler : (now : ℕ) → List Timer → Option (ℕ × List Timer × ℕ)
timeout_handler now ts = fire now ts (due_loop now 0 0 none ts)
