-- ===== src/SecsI/Message/Retry.antt =====
-- The `while (retry)` loop of send_secsII() in source/send_secs.c, which sends one block until it is
-- acknowledged.
use sc_open.Prelude.{
  ℕ, zero, suc, ◌-◌, ◌≤◌, ◌<◌, ◌≡◌, Bool, true, false, List, [], ◌∷◌, ◌++◌, length, All, ◌==◌,
  if◌then◌else◌, arith, ◌≢◌,
}
use sc_open.Secs.{enq, eot, ack}
use sc_open.Line.{Event, got, Exit, value, ret, jump, blocked, M, ◌>>=◌, ◌>>◌, mem}
use sc_open.Line.Laws.{clear}
use sc_open.SecsI.Recv.Accept.{transmission}
use sc_open.SecsI.Send.{send_secs_i}
use sc_open.SecsI.Send.Handshake.{send_secs_i-answer}

-- The return code of a called function.
abbrev pub code_of : Exit (Unit {0}) → Exit ℕ
code_of (value u) = value 0
code_of (ret code) = value code
code_of (jump k) = jump k
code_of blocked = blocked

unfoldable pub call_send : Bool → List ℕ → M ℕ
call_send rbit block l = let r = send_secs_i rbit block l in (code_of r.0, r.1)

-- On contention the message of the other side is received and the program resumed with it, which
-- is the parameter `serve`; its result is not looked at. `retries` is the option `retry=` plus one.
module _ (serve : M (Unit {0})) (rbit : Bool) (block : List ℕ) (retries : ℕ) where
  -- The fuel bounds the rounds: a contention starts the count of retries again.
  unfoldable pub attempts : (fuel retry : ℕ) → M (Unit {0})
  attempts zero retry l = (blocked, l)
  attempts (suc fuel) retry l =
      let again_served = attempts fuel retries in
      let again = attempts fuel (retry - 1) in
      (call_send rbit block >>= λ code m.
      if code == 3
      then (ret 3, m)
      else if code == 2
      then (serve >> again_served) m
      else if code == 0
      then (value tt, m)
      else (if retry - 1 == 0 then (ret 1, m) else again m))
        l

-- The answers of a receiver that refuses a block some times: EOT, and then another byte than ACK.
abbrev pub refusals : List ℕ → List Event → List Event
refusals [] rest = rest
refusals (c ∷ cs) rest = got eot ∷ got c ∷ refusals cs rest

-- The transmissions of the same block, one for each answer.
abbrev pub repeated : List ℕ → List ℕ → List ℕ → List ℕ
repeated block [] out = out
repeated block (c ∷ cs) out = repeated block cs (out ++ enq ∷ transmission block)

refused :
    (rbit : Bool) (block out ts : List ℕ) (c : ℕ) (rest : List Event)
    → c ≢ ack
    → mem 2 ts ≡ false
    → call_send rbit block (clear (got eot ∷ got c ∷ rest) out ts)
      ≡ (value 1, clear rest (out ++ enq ∷ transmission block) ts)
unfolding call_send
refused rbit block out ts c rest h two =
    rw (send_secs_i-answer rbit block [] out ts c rest tt two) (ground arith)

acknowledged :
    (rbit : Bool) (block out ts : List ℕ) (rest : List Event)
    → mem 2 ts ≡ false
    → call_send rbit block (clear (got eot ∷ got ack ∷ rest) out ts)
      ≡ (value 0, clear rest (out ++ enq ∷ transmission block) ts)
unfolding call_send
acknowledged rbit block out ts rest two =
    rw (send_secs_i-answer rbit block [] out ts ack rest tt two)

-- A block that is refused fewer times than the loop has retries is sent once more than it is
-- refused, and then counts as sent.
pub attempts-success :
    (serve : M (Unit {0})) (rbit : Bool) (block : List ℕ) (retries : ℕ) (cs : List ℕ)
    (fuel retry : ℕ) (out ts : List ℕ) (rest : List Event)
    → All (λ c. c ≢ ack) cs
    → length cs < retry
    → length cs < fuel
    → mem 2 ts ≡ false
    → attempts serve rbit block retries fuel retry
        (clear (refusals cs (got eot ∷ got ack ∷ rest)) out ts)
      ≡ (value tt, clear rest (repeated block (cs ++ ack ∷ []) out) ts)
unfolding attempts
attempts-success serve rbit block retries cs zero retry out ts rest a h f two = absurd (omega arith)
attempts-success serve rbit block retries [] (suc fuel) retry out ts rest a h f two =
    rw (acknowledged rbit block out ts rest two)
attempts-success serve rbit block retries (c ∷ cs) (suc fuel) retry out ts rest a h f two =
    let more : (retry - 1 == 0) ≡ false = ground arith in
    rw (refused rbit block out ts c (refusals cs (got eot ∷ got ack ∷ rest)) a.0 two, more)
      (attempts-success serve rbit block retries cs fuel (retry - 1)
        (out ++ enq ∷ transmission block) ts rest a.1 (omega arith) (omega arith) two)

-- A block that is refused as often as the loop has retries is sent just that often, and then the
-- loop gives up with the return code 1.
pub attempts-give_up :
    (serve : M (Unit {0})) (rbit : Bool) (block : List ℕ) (retries : ℕ) (c : ℕ) (cs : List ℕ)
    (fuel retry : ℕ) (out ts : List ℕ) (rest : List Event)
    → All (λ d. d ≢ ack) (c ∷ cs)
    → length (c ∷ cs) ≡ retry
    → length (c ∷ cs) ≤ fuel
    → mem 2 ts ≡ false
    → attempts serve rbit block retries fuel retry (clear (refusals (c ∷ cs) rest) out ts)
      ≡ (ret 1, clear rest (repeated block (c ∷ cs) out) ts)
unfolding attempts
attempts-give_up serve rbit block retries c cs zero retry out ts rest a h f two =
    absurd (omega arith)
attempts-give_up serve rbit block retries c [] (suc fuel) retry out ts rest a h f two =
    let done : (retry - 1 == 0) ≡ true = ground arith in
    rw (refused rbit block out ts c rest a.0 two, done)
attempts-give_up serve rbit block retries c (d ∷ ds) (suc fuel) retry out ts rest a h f two =
    let more : (retry - 1 == 0) ≡ false = ground arith in
    rw (refused rbit block out ts c (refusals (d ∷ ds) rest) a.0 two, more)
      (attempts-give_up serve rbit block retries d ds fuel (retry - 1)
        (out ++ enq ∷ transmission block) ts rest a.1 (omega arith) (omega arith) two)
