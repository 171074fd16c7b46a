-- ===== src/SecsI/Tests.antt =====
-- The theorems on SECS-I at concrete inputs.
use sc_open.Prelude.{
  ℕ, ◌≤◌, ◌≡◌, refl, true, false, List, [], ◌∷◌, ◌++◌, map, take, replicate, length, arith,
}
use sc_open.Secs.{enq, eot, ack, nak}
use sc_open.Line.{got, Line, value, ret, M, pure}
use sc_open.Line.Laws.{clear}
use sc_open.SecsI.Recv.{recv_secs_i}
use sc_open.SecsI.Recv.Accept.{transmission, recv_secs_i-accepts}
use sc_open.SecsI.Recv.Reads.{chars, opening}
use sc_open.SecsI.Recv.Sound.{recv_secs_i_sound}
use sc_open.SecsI.Send.{send_secs_i}
use sc_open.SecsI.Send.Handshake.{handshake}
use sc_open.SecsI.Message.Header.{Header}
use sc_open.SecsI.Message.Split.{Outgoing, block_header, send_secs_message}
use sc_open.SecsI.Message.Retry.{attempts, refusals, repeated, attempts-give_up}
use sc_open.SecsI.Message.EndToEnd.{recv_message-sent}
use sc_open.SecsI.Message.Assemble.{Assembly, initial, assemble, recv_message}

-- S1F1 with the wait bit to device 1, as block 1 of 2 and as block 2 of 2.
abbrev one_of_two : List ℕ
one_of_two = 0 ∷ 1 ∷ 0x81 ∷ 1 ∷ 0 ∷ 1 ∷ 0 ∷ 0 ∷ 0 ∷ 7 ∷ 0x41 ∷ []

abbrev two_of_two : List ℕ
two_of_two = 0 ∷ 1 ∷ 0x81 ∷ 1 ∷ 0x80 ∷ 2 ∷ 0 ∷ 0 ∷ 0 ∷ 7 ∷ 0x42 ∷ []

abbrev out_going : Outgoing
out_going = record {
  rbit = false;
  wait_bit = true;
  device_id = 1;
  stream = 1;
  function = 1;
  system_bytes = 7;
}

abbrev sample_header : Header
sample_header = record {
  rbit = true;
  wait_bit = true;
  device_id = 300;
  stream = 6;
  function = 11;
  last = true;
  block_num = 260;
  system_bytes = 65536;
}

abbrev accepted_line : Line
accepted_line = clear [] ((eot ∷ []) ++ ack ∷ []) []

recv_secs_i-accepts_example :
    recv_secs_i false (clear (map got (enq ∷ transmission one_of_two) ++ []) [] [])
    ≡ (value one_of_two, accepted_line)
recv_secs_i-accepts_example =
    recv_secs_i-accepts one_of_two [] [] [] (omega arith) (omega arith) refl refl

recv_secs_i_sound_example :
    (n : ℕ) × (chars (map got (enq ∷ transmission one_of_two) ++ [])
      ≡ opening false ++ (replicate n enq ++ (transmission one_of_two ++ [])))
    × (10 ≤ length one_of_two)
    × (length one_of_two ≤ 254)
    × (((eot ∷ []) ++ ack ∷ []) ≡ ([] ++ eot ∷ []) ++ ack ∷ [])
recv_secs_i_sound_example =
    recv_secs_i_sound false (clear (map got (enq ∷ transmission one_of_two) ++ []) [] [])
      accepted_line one_of_two
      (recv_secs_i-accepts one_of_two [] [] [] (omega arith) (omega arith) refl refl)

handshake_example :
    let sender = send_secs_i true one_of_two (clear (map got (eot ∷ ack ∷ [])) [] []) in
    let receiver = recv_secs_i false (clear (map got sender.1.sent) [] []) in
    (sender.0 ≡ value tt) × (receiver.0 ≡ value one_of_two) × (receiver.1.sent ≡ eot ∷ ack ∷ [])
handshake_example = handshake true one_of_two [] [] (omega arith) (omega arith) refl refl refl

abbrev serve_nothing : M (Unit {0})
serve_nothing = pure tt

attempts-give_up_example :
    attempts serve_nothing false one_of_two 2 10 2 (clear (refusals (nak ∷ nak ∷ []) []) [] [])
    ≡ (ret 1, clear [] (repeated one_of_two (nak ∷ nak ∷ []) []) [])
attempts-give_up_example =
    attempts-give_up serve_nothing false one_of_two 2 nak (nak ∷ []) 10 2 [] [] []
      ((λ e. omega arith), ((λ e. omega arith), tt)) refl (omega arith) refl

abbrev text : List ℕ
text = replicate 300 0x41

abbrev put_sent : List ℕ → Line → Line
put_sent b l = record l { sent = l.sent ++ b }

abbrev started : Assembly
started = record {
  first = false;
  header = take 10 one_of_two;
  last_header = replicate 10 0;
  body = 0x41 ∷ [];
}

recv_message-sent_example :
    let block = block_header out_going true 1 in
    let a = assemble initial (block ∷ []) in
    (send_secs_message
        (λ b. attempts serve_nothing out_going.rbit b 4 3 4)
        out_going
        text
        (clear (got eot ∷ got ack ∷ []) [] [])
      ≡ (value tt, clear [] (enq ∷ transmission block) []))
    × (recv_message false (clear (map got (enq ∷ transmission block) ++ []) [] [])
        ≡ (value a, clear [] (eot ∷ ack ∷ []) []))
    × (a.body ≡ [])
    × (a.header ≡ block)
recv_message-sent_example =
    recv_message-sent serve_nothing 4 3 4 out_going text [] [] [] [] [] [] (omega arith)
      (omega arith) refl (record { t1 = refl; t2 = refl; t3 = refl; t4 = refl })
