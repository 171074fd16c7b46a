-- ===== src/Hsms/Control/Replies.antt =====
-- Control messages are answered, replies resume the program that waits for them, and what opening a
-- connection reports.
use sc_open.Prelude.{
  ℕ, ◌+◌, ◌%◌, ◌^◌, ◌≤◌, ◌<◌, ◌≡◌, ap, ◌∙◌, false, some, ◌⊎◌, inl, inr, List, [], ◌∷◌, ◌++◌, take,
  drop, length, get_or, set, ltb, if◌then◌else◌, arith, length-set,
}
use sc_open.Bytes.{to_wire, from_wire}
use sc_open.Bytes.Order.{from_wire-to_wire, length-to_wire}
use sc_open.Secs.{
  Transaction, SystemBytes, expected, too_late, open_trans_table_add, open_trans_table_del,
  secs_inc_system_bytes,
}
use sc_open.Secs.Replies.{Unused, add-del}
use sc_open.Line.{Event, expired, value, mem, start_timer, stop_timer, my_readc, read_events, catch}
use sc_open.Line.Laws.{clear, remove-absent}
use sc_open.Hsms.{recv_hsms_i, read_bytes, read_length_byte}
use sc_open.Hsms.Frame.{frame, send_hsms_i-frame, recv_hsms_i-frame}
use sc_open.Hsms.Frame.Pieces.{Spaced, spaced, plain, Stops}
use sc_open.Hsms.Control.{
  Session, handled, answered, deliver, reply_control, dispatch, received, recv_hsms, select_code,
  receive_select, select_header, await_select, client_connect,
}

-- A Select Request and a Link Test Request, in however many pieces they arrive, are answered with
-- their own header under the stype that is one higher, and leave the session as it is.
pub recv_hsms-control :
    (decode : List ℕ → List ℕ → ℕ) (now : ℕ) (s : Session) (header : List ℕ) (bs : Spaced)
    (rest : List Event) (out ts : List ℕ)
    → length header ≡ 10
    → (get_or header 5 0 ≡ 1) ⊎ (get_or header 5 0 ≡ 5)
    → plain bs ≡ frame header []
    → Stops rest
    → mem 8 ts ≡ false
    → recv_hsms decode now s (clear (spaced bs rest) out ts) ≡ (
      value (some (handled 2, s)),
      clear rest (out ++ frame (set header 5 (get_or header 5 0 + 1)) []) ts,
    )
unfolding recv_hsms received dispatch reply_control
recv_hsms-control decode now s header bs rest out ts ten (inl e) p stops idle = rw (
  recv_hsms_i-frame header [] bs rest out ts ten (omega arith) p stops idle,
  e,
  send_hsms_i-frame (set header 5 2) [] rest out ts (length-set header 5 2 ∙ ten) (omega arith),
)
recv_hsms-control decode now s header bs rest out ts ten (inr e) p stops idle = rw (
  recv_hsms_i-frame header [] bs rest out ts ten (omega arith) p stops idle,
  e,
  send_hsms_i-frame (set header 5 6) [] rest out ts (length-set header 5 6 ∙ ten) (omega arith),
)

-- A transaction that was opened under unused system bytes is resumed by a data message of an even
-- function that carries these system bytes and arrives in time: recv_hsms() returns 0 with the
-- program index and stops the timer of the transaction.
pub recv_hsms-reply :
    (decode : List ℕ → List ℕ → ℕ) (now p sb timer seconds later : ℕ) (s : Session)
    (t : List Transaction) (header body : List ℕ) (bs : Spaced) (rest : List Event)
    (out ts : List ℕ)
    → Unused sb t
    → open_trans_table_add t now p sb timer seconds ≡ some s.table
    → later ≤ now + seconds
    → length header ≡ 10
    → 10 + length body < 2 ^ 32
    → get_or header 5 0 ≡ 0
    → get_or header 3 0 % 2 ≡ 0
    → sb < 2 ^ 32
    → take 4 (drop 6 header) ≡ to_wire 4 sb
    → plain bs ≡ frame header body
    → Stops rest
    → mem 8 ts ≡ false
    → recv_hsms decode later s (clear (spaced bs rest) out ts) ≡ (
      value (
          some (
            answered (expected p timer),
            record s { table = (open_trans_table_del s.table later sb).1 },
          )),
      clear rest out ts,
    )
unfolding recv_hsms received dispatch deliver
recv_hsms-reply decode now p sb timer seconds later s t header body bs rest out ts unused opened
      in_time ten small data_type even fits carried arrived stops idle =
    let number : from_wire (take 4 (drop 6 header)) ≡ sb =
      ap from_wire carried ∙ from_wire-to_wire 4 sb (omega arith) (omega arith) in
    let not_late : ltb (now + seconds) later ≡ false = ground arith in
    let reply : (open_trans_table_del s.table later sb).0 ≡ expected p timer =
      add-del t s.table now p sb timer seconds later unused opened
      ∙ ap (λ b. if b then too_late else expected p timer) not_late in
    rw (
      recv_hsms_i-frame header body bs rest out ts ten small arrived stops idle,
      data_type,
      even,
      number,
      reply,
    )

await_select-expired :
    (rest : List Event) (out ts : List ℕ)
    → mem 6 ts ≡ false
    → mem 8 ts ≡ false
    → await_select (clear (expired 6 ∷ rest) out ts) ≡ (value 0, clear rest out (8 ∷ ts))
unfolding await_select receive_select select_code recv_hsms_i read_bytes read_length_byte
    start_timer stop_timer my_readc read_events catch
await_select-expired rest out ts six eight = ground (arith, remove-absent 6 ts six)

-- When no Select Response comes before timer 6 expires, client_connect() still returns 0, as it
-- does when the response has come; timer 8, which the read had started, is left running.
pub client_connect_silent :
    (numbers : SystemBytes) (rest : List Event) (out ts : List ℕ)
    → mem 6 ts ≡ false
    → mem 8 ts ≡ false
    → (client_connect numbers (clear (expired 6 ∷ rest) out ts)).0 ≡ (
      value 0,
      clear rest (out ++ frame (select_header (secs_inc_system_bytes numbers).0) []) (8 ∷ ts),
    )
unfolding client_connect
client_connect_silent numbers rest out ts six eight =
    let sb : ℕ = (secs_inc_system_bytes numbers).0 in
    let ten : length (select_header sb) ≡ 10 = omega (arith, length-to_wire 4 sb (omega arith)) in
    rw (
      send_hsms_i-frame (select_header sb) [] (expired 6 ∷ rest) out ts ten (omega arith),
      await_select-expired rest (out ++ frame (select_header sb) []) ts six eight,
    )
