-- ===== src/Secs.antt =====
-- source/secs.c and headers/secs.h: the table of open transactions, the block checksum and the
-- system bytes. The clock is an argument of each call; `time_t` does not wrap.
pub mod Table
pub mod Replies
pub mod Checksum
pub mod Numbering
mod Tests
use sc_open.Prelude.{
  ℕ, zero, suc, ◌+◌, ◌/◌, ◌%◌, ◌^◌, ◌≤◌, ◌<◌, Bool, true, false, ◌&&◌, Option, none, some, List, [],
  ◌∷◌, map, ltb, ◌==◌, if◌then◌else◌, replicate,
}
use mathlib.Core.Option

-- The control characters of a SECS-I line.
abbrev pub enq : ℕ
enq = 0x05

abbrev pub eot : ℕ
eot = 0x04

abbrev pub ack : ℕ
ack = 0x06

abbrev pub nak : ℕ
nak = 0x15

abbrev pub max_open_trans_table : ℕ
max_open_trans_table = 50

-- An entry of `open_trans_table`.
pub record Transaction : Type 0 where
  pub active : Bool
  pub program_idx : ℕ
  pub system_bytes : ℕ
  pub timer_idx : ℕ
  pub end_time : ℕ

-- The static table starts zeroed.
abbrev pub initial_table : List Transaction
initial_table =
    replicate max_open_trans_table
      (record { active = false; program_idx = 0; system_bytes = 0; timer_idx = 0; end_time = 0 })

-- The first loop of open_trans_table_add(): an entry whose time is past is closed.
pub expire : ℕ → Transaction → Transaction
expire now e = if e.active && ltb e.end_time now then record e { active = false } else e

-- The second loop: the first free entry is taken. `none` is the FATAL exit on a full table.
pub place : Transaction → List Transaction → Option (List Transaction)
place new [] = none
place new (e ∷ es) =
    let rest = Option.map (λ r. e ∷ r) (place new es) in if e.active then rest else some (new ∷ es)

unfoldable pub open_trans_table_add :
    List Transaction
    → (now program_idx system_bytes timer_idx seconds : ℕ) → Option (List Transaction)
unfolding expire place
open_trans_table_add table now program_idx system_bytes timer_idx seconds =
    place
      (record {
        active = true;
        program_idx = program_idx;
        system_bytes = system_bytes;
        timer_idx = timer_idx;
        end_time = now + seconds;
      })
      (map (expire now) table)

-- What open_trans_table_del() reports: 0 with `*program_idx` and the timer that it stops, or one of
-- its two error cases, both returned as 1.
pub data Reply : Type 0 where
  expected : (program_idx timer_idx : ℕ) → Reply
  too_late not_expected : Reply

pub reply_code : Reply → ℕ
reply_code (expected p t) = 0
reply_code too_late = 1
reply_code not_expected = 1

pub open_trans_table_del : List Transaction → (now system_bytes : ℕ) → Reply × List Transaction
open_trans_table_del [] now sb = (not_expected, [])
open_trans_table_del (e ∷ es) now sb =
    let rest = open_trans_table_del es now sb in
    if e.system_bytes == sb
    then (if ltb e.end_time now
        then (too_late, e ∷ es)
        else (expected e.program_idx e.timer_idx, record e { active = false } ∷ es))
    else (rest.0, e ∷ rest.1)

-- The sum of secs_calc_checksum(), a `uint32_t`.
pub checksum_loop : List ℕ → ℕ → ℕ
checksum_loop [] v = v
checksum_loop (x ∷ xs) v = checksum_loop xs ((v + x) % 2 ^ 32)

-- The two bytes `checksum[0]` and `checksum[1]`.
unfoldable pub secs_calc_checksum : List ℕ → ℕ × ℕ
unfolding checksum_loop
secs_calc_checksum block = let v = checksum_loop block 0 in (v / 2 ^ 8 % 256, v % 256)

-- The two statics of secs.c.
pub record SystemBytes : Type 0 where
  pub saved : ℕ
  pub current : ℕ

pub secs_get_system_bytes : SystemBytes → ℕ
secs_get_system_bytes s = s.saved

pub secs_set_system_bytes : SystemBytes → ℕ → SystemBytes
secs_set_system_bytes s value = record s { saved = value }

pub secs_inc_system_bytes : SystemBytes → ℕ × SystemBytes
secs_inc_system_bytes s =
    let next : ℕ = (if s.current == 0 then 1 else (s.current + 1) % 2 ^ 32) in
    (next, record s { current = next })
