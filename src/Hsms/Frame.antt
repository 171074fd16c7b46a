-- ===== src/Hsms/Frame.antt =====
-- The framing of HSMS: what send_hsmsI() writes is what recv_hsmsI() reads, however the connection
-- cuts it into pieces.
pub mod Pieces
use mathlib.Core.Path.{ap₂}
use sc_open.Prelude.{
  ℕ, zero, suc, ◌+◌, ◌-◌, ◌%◌, ◌^◌, ◌≤◌, ◌<◌, ◌≡◌, refl, sym, ap, ◌∙◌, Bool, true, false, List, [],
  ◌∷◌, ◌++◌, length, length-append, take, drop, take_all, take-append, drop-append, append_assoc,
  append-nil, arith,
}
use sc_open.Bytes.{to_wire, from_wire}
use sc_open.Bytes.Order.{length-to_wire, from_wire-to_wire}
use sc_open.Line.{Event, Line, value, mem, my_write}
use sc_open.Line.Laws.{clear, write_or-clear}
use sc_open.Hsms.{send_hsms_i, write_front, write_body, recv_hsms_i, read_rest, read_bytes}
use Pieces.{
  Spaced, spaced, plain, Stops, read_length-spaced, read_header-spaced, read_rest-spaced,
  plain-take, plain-drop, length-plain, spaced-split, fuel-spaced,
}

-- A message on the wire.
abbrev pub frame : List ℕ → List ℕ → List ℕ
frame header body = to_wire 4 (10 + length body) ++ (header ++ body)

write_body-clear :
    (bs : List ℕ) (es : List Event) (sent ts : List ℕ)
    → write_body bs (clear es sent ts) ≡ (value tt, clear es (sent ++ bs) ts)
unfolding write_body
write_body-clear [] es sent ts = ap (λ s. (value tt, clear es s ts)) (sym (append-nil sent))
write_body-clear (b ∷ bs) es sent ts =
    rw (write_or-clear 1 b es sent ts, write_body-clear bs es (sent ++ b ∷ []) ts)
      (ap (λ s. (value tt, clear es s ts)) (append_assoc sent (b ∷ []) bs))

-- On a connection that takes every write, send_hsmsI() writes the frame of the message.
pub send_hsms_i-frame :
    (header body : List ℕ) (es : List Event) (out ts : List ℕ)
    → length header ≡ 10
    → 10 + length body < 2 ^ 32
    → send_hsms_i header body (clear es out ts) ≡ (value tt, clear es (out ++ frame header body) ts)
unfolding send_hsms_i write_front my_write
send_hsms_i-frame header body es out ts ten small =
    let fits : (10 + length body) % 2 ^ 32 ≡ 10 + length body = omega arith in
    rw
      (
        fits,
        take_all header 10 (omega arith),
        write_body-clear body es (out ++ (to_wire 4 (10 + length body) ++ header)) ts,
      )
      (ap (λ s. (value tt, clear es s ts))
        (append_assoc out (to_wire 4 (10 + length body) ++ header) body
          ∙ ap (◌++◌ out) (append_assoc (to_wire 4 (10 + length body)) header body)))

-- The parts of a frame that has arrived in pieces.
record Parts (header body : List ℕ) (bs : Spaced) : Type 0 where
  len : plain (take 4 bs) ≡ to_wire 4 (10 + length body)
  head : plain (take 10 (drop 4 bs)) ≡ header
  rest : plain (drop 10 (drop 4 bs)) ≡ body

parts :
    (header body : List ℕ) (bs : Spaced)
    → length header ≡ 10
    → plain bs ≡ frame header body
    → Parts header body bs
parts header body bs ten e =
    let wire : List ℕ = to_wire 4 (10 + length body) in
    let four : 4 ≡ length wire = sym (length-to_wire 4 (10 + length body) (omega arith)) in
    let tail : plain (drop 4 bs) ≡ header ++ body =
      plain-drop 4 bs ∙ ap (drop 4) e ∙ drop-append wire (header ++ body) 4 four in
    record {
      len = plain-take 4 bs ∙ ap (take 4) e ∙ take-append wire (header ++ body) 4 four;
      head = plain-take 10 (drop 4 bs) ∙ ap (take 10) tail ∙ take-append header body 10 (sym ten);
      rest = plain-drop 10 (drop 4 bs) ∙ ap (drop 10) tail ∙ drop-append header body 10 (sym ten);
    }

-- A frame is read back whole, in however many pieces it arrives, if what comes next does not arrive
-- together with its last byte; what comes next is left on the connection, and timer 8 is stopped.
pub recv_hsms_i-frame :
    (header body : List ℕ) (bs : Spaced) (rest : List Event) (out ts : List ℕ)
    → length header ≡ 10
    → 10 + length body < 2 ^ 32
    → plain bs ≡ frame header body
    → Stops rest
    → mem 8 ts ≡ false
    → recv_hsms_i (clear (spaced bs rest) out ts) ≡ (value (header, body), clear rest out ts)
unfolding recv_hsms_i
recv_hsms_i-frame header body bs rest out ts ten small e s idle =
    let p = parts header body bs ten e in
    let b4 : Spaced = take 4 bs in
    let b10 : Spaced = take 10 (drop 4 bs) in
    let bn : Spaced = drop 10 (drop 4 bs) in
    let n4 : 4 ≡ length b4 = omega (
      arith,
      length-plain b4,
      ap length p.len,
      length-to_wire 4 (10 + length body) (omega arith),
    ) in
    let n10 : 10 ≡ length b10 = omega (arith, length-plain b10, ap length p.head) in
    let nn : length body ≡ length bn = omega (arith, length-plain bn, ap length p.rest) in
    let size : (from_wire (plain b4) + 2 ^ 32 - 10) % 2 ^ 32 ≡ length bn = omega (
      arith,
      ap from_wire p.len,
      from_wire-to_wire 4 (10 + length body) (omega arith) (omega arith),
    ) in
    rw
      (
        spaced-split 4 bs rest,
        spaced-split 10 (drop 4 bs) rest,
        read_length-spaced out ts idle 4 b4 (spaced b10 (spaced bn rest)) n4,
        read_header-spaced out ts idle 10 b10 (spaced bn rest) n10,
        size,
        read_rest-spaced out ts idle (length (spaced bn rest) + 1) bn [] rest
            (omega (arith, fuel-spaced bn rest)) (omega arith) s,
      )
      (ap₂ (λ h b. (value (h, b), clear rest out ts)) p.head p.rest)
