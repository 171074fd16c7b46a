-- ===== src/Timers.antt =====
-- source/timers.c: the table of the timers that a user's program starts, and the choice of the slot.
pub mod Slots
pub mod Handler
mod Tests
use sc_open.Prelude.{
  ℕ, suc, ◌+◌, ◌<◌, Bool, true, false, ◌||◌, Option, none, some, List, [], ◌∷◌, map, length, drop,
  get_or, set, ltb, ◌==◌, if◌then◌else◌,
}
use sc_open.ProtoTimers

-- An entry of `timers`; the start time and the comment are only logged.
pub record UserTimer : Type 0 where
  pub active : Bool
  pub end : ℕ
  pub program_idx : ℕ
  pub msg : List ℕ

-- calc_min_time(), whose text is that of source/proto_timers.c over this table.
unfoldable pub user_min_time : (now : ℕ) → List UserTimer → ℕ
user_min_time now ts =
    ProtoTimers.calc_min_time now (map (λ t. record { running = t.active; end = t.end }) ts)

-- The loop that looks for a slot from index i on, over the entries from there on.
unfoldable pub free_slot : (i : ℕ) → List UserTimer → Option ℕ
free_slot i [] = none
free_slot i (t ∷ ts) = let later = free_slot (i + 1) ts in if t.active then later else some i

-- `timer_idx`: -1 is `none`. Every index but 0 is replaced by the first free one from 10 on.
unfoldable pub choose_slot : Option ℕ → List UserTimer → Option ℕ
choose_slot none ts = free_slot 10 (drop 10 ts)
choose_slot (some k) ts = if k == 0 then some 0 else free_slot 10 (drop 10 ts)

abbrev pub idx_valid : Option ℕ → Bool
idx_valid none = true
idx_valid (some k) = ltb k 10

-- The assignments behind the choice: `none` is the FATAL exit on a message of 128 bytes or more.
unfoldable pub fill_slot :
    (now seconds program_idx : ℕ)
    → List ℕ
    → List UserTimer
    → Option ℕ
    → Option (ℕ × List UserTimer × ℕ)
fill_slot now seconds program_idx msg ts none = none
fill_slot now seconds program_idx msg ts (some i) =
    let ts2 =
      set ts i
        (record { active = true; end = now + seconds; program_idx = program_idx; msg = msg }) in
    if ltb (length msg) 128 then some (i, ts2, user_min_time now ts2) else none

-- start_timer(): the index that it returns, the table and the time given to set_server_timeout();
-- `none` is a FATAL exit.
unfoldable pub start_user_timer :
    (now : ℕ)
    → Option ℕ
    → (seconds program_idx : ℕ) → List ℕ
    → List UserTimer
    → Option (ℕ × List UserTimer × ℕ)
start_user_timer now timer_idx seconds program_idx msg ts =
    if idx_valid timer_idx
    then fill_slot now seconds program_idx msg ts (choose_slot timer_idx ts)
    else none
