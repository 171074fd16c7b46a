-- ===== src/Secs/Tests.antt =====
-- Runs of the functions of source/secs.c, and its theorems at concrete inputs.
use sc_open.Prelude.{
  ◌+◌, ◌*◌, ◌<◌, ◌≡◌, refl, true, false, none, some, List, [], ◌∷◌, ◌↔◌, All, arith,
}
use sc_open.Secs.{
  Transaction, SystemBytes, expected, too_late, not_expected, open_trans_table_add,
  open_trans_table_del, secs_calc_checksum,
}
use sc_open.Secs.Table.{Live, add-full}
use sc_open.Secs.Replies.{add-del}
use sc_open.Secs.Checksum.{sum, secs_calc_checksum-sum}

abbrev waiting : Transaction
waiting = record {
  active = true;
  program_idx = 40;
  system_bytes = 7;
  timer_idx = 10;
  end_time = 145;
}

abbrev closed : Transaction
closed = record { active = false; program_idx = 9; system_bytes = 6; timer_idx = 11; end_time = 90 }

abbrev opened : Transaction
opened = record {
  active = true;
  program_idx = 50;
  system_bytes = 8;
  timer_idx = 12;
  end_time = 145;
}

abbrev two : List Transaction
two = waiting ∷ closed ∷ []

open_then_answer :
    (open_trans_table_add two 100 50 8 12 45 ≡ some (waiting ∷ opened ∷ []))
    × ((open_trans_table_del (waiting ∷ opened ∷ []) 120 8).0 ≡ expected 50 12)
    × ((open_trans_table_del (waiting ∷ opened ∷ []) 146 8).0 ≡ too_late)
    × ((open_trans_table_del (waiting ∷ opened ∷ []) 120 6).0 ≡ not_expected)
unfolding open_trans_table_add open_trans_table_del
open_then_answer = (refl, refl, refl, refl)

checksum_runs : secs_calc_checksum (0xFF ∷ 0x02 ∷ 0x10 ∷ []) ≡ (0x01, 0x11)
unfolding secs_calc_checksum
checksum_runs = refl

add-del_example : (open_trans_table_del (waiting ∷ opened ∷ []) 145 8).0 ≡ expected 50 12
unfolding open_trans_table_add
add-del_example = add-del two (waiting ∷ opened ∷ []) 100 50 8 12 45 145 (omega arith) refl

add-full_example : (open_trans_table_add two 100 50 8 12 45 ≡ none) ↔ All (Live 100) two
add-full_example = add-full two 100 50 8 12 45

secs_calc_checksum-sum_example :
    let (high, low) = secs_calc_checksum (0xFF ∷ 0x02 ∷ []) in
    (high * 256 + low ≡ sum (0xFF ∷ 0x02 ∷ [])) × (high < 256) × (low < 256)
secs_calc_checksum-sum_example =
    secs_calc_checksum-sum (0xFF ∷ 0x02 ∷ []) (omega arith) (omega arith)

abbrev fresh : SystemBytes
fresh = record { saved = 5; current = 0 }
