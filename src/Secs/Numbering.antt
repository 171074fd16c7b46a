-- ===== src/Secs/Numbering.antt =====
-- The system bytes that number the primary messages.
use sc_open.Prelude.{ℕ, zero, suc, ◌+◌, ◌%◌, ◌^◌, ◌<◌, ◌≡◌, ◌≢◌, arith}
use sc_open.Secs.{SystemBytes, secs_inc_system_bytes, secs_get_system_bytes}

-- The value of the last of `n` calls of secs_inc_system_bytes() and the state after them.
pub inc_calls : ℕ → SystemBytes → SystemBytes
inc_calls zero s = s
inc_calls (suc n) s = inc_calls n (secs_inc_system_bytes s).1

inc_lem :
    (s : SystemBytes)
    → let (value, s') = secs_inc_system_bytes s in
      (value ≡ (s.current + 1) % 2 ^ 32) × (s'.current ≡ value) × (s'.saved ≡ s.saved)
unfolding secs_inc_system_bytes
inc_lem s = ground arith

inc_calls_lem :
    (n : ℕ) (s : SystemBytes)
    → s.current < 2 ^ 32
    → ((inc_calls n s).current ≡ (s.current + n) % 2 ^ 32) × ((inc_calls n s).saved ≡ s.saved)
unfolding inc_calls
inc_calls_lem zero s h = omega arith
inc_calls_lem (suc n) s h =
    omega (arith, inc_lem s, inc_calls_lem n (secs_inc_system_bytes s).1 (omega (arith, inc_lem s)))

-- The calls number the messages: two of them that are less than 2 ^ 32 calls apart return
-- different values, and none touches the saved bytes of the message that is being answered.
pub inc_system_bytes_distinct :
    (s : SystemBytes) (m n : ℕ)
    → s.current < 2 ^ 32
    → m < n
    → n < m + 2 ^ 32
    → ((secs_inc_system_bytes (inc_calls m s)).0 ≢ (secs_inc_system_bytes (inc_calls n s)).0)
      × (secs_get_system_bytes (inc_calls n s) ≡ secs_get_system_bytes s)
unfolding secs_get_system_bytes
inc_system_bytes_distinct s m n h lt close = (
  λ e. omega (
    arith,
    inc_lem (inc_calls m s),
    inc_lem (inc_calls n s),
    inc_calls_lem m s h,
    inc_calls_lem n s h,
  ),
  (inc_calls_lem n s h).1,
)
