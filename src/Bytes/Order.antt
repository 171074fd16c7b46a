-- ===== src/Bytes/Order.antt =====
-- swap() reverses, and integers survive the way to the wire and back.
use mathlib.Core.List.{reverse-cons, reverse-reverse}
use native.Mathlib.Nat.{pow-succ'}
use sc_open.Prelude.{
  ℕ, zero, suc, ◌+◌, ◌-◌, ◌*◌, ◌/◌, ◌%◌, ◌^◌, ◌≤◌, ◌<◌, ◌≡◌, refl, sym, ap, ◌∙◌, subst, List, [],
  ◌∷◌, ◌++◌, drop, set, length, length-reverse, length-set, take-append, append_assoc, append-nil,
  reverse, All, All-append, arith,
}
use sc_open.Bytes.{
  Byte, reverse_into, swap_scratch, swap, host_bytes, from_host, to_wire, from_wire,
}

drop-set : (xs : List ℕ) (n v : ℕ) → n < length xs → drop n (set xs n v) ≡ v ∷ drop (suc n) xs
drop-set [] n v h = absurd (omega arith)
drop-set (x ∷ xs) zero v h = refl
drop-set (x ∷ xs) (suc n) v h = drop-set xs n v (omega arith)

-- The loop leaves the reversed bytes in front of what the scratch array held behind them.
reverse_into_lem :
    (n size i : ℕ) (rest tmp : List ℕ)
    → i + n ≡ size
    → n ≡ length rest
    → n ≤ length tmp
    → reverse_into n size i rest tmp ≡ reverse rest ++ drop n tmp
unfolding reverse_into
reverse_into_lem zero size i [] tmp e l h = refl
reverse_into_lem zero size i (x ∷ rest) tmp e l h = absurd (omega arith)
reverse_into_lem (suc n) size i [] tmp e l h = absurd (omega arith)
reverse_into_lem (suc n) size i (x ∷ rest) tmp e l h =
    let at : size - i - 1 ≡ n = omega arith in
    rw at (
      reverse_into_lem n size (i + 1) rest (set tmp n x) (omega arith) (omega arith)
        (omega (arith, length-set tmp n x))
      ∙ ap (◌++◌ (reverse rest)) (drop-set tmp n x h)
      ∙ sym (append_assoc (reverse rest) (x ∷ []) (drop (suc n) tmp))
      ∙ ap (λ r. r ++ drop (suc n) tmp) (sym (reverse-cons x rest)))

-- On at most 64 bytes swap() of the whole array is list reversal.
pub swap-reverse : (xs : List ℕ) → length xs ≤ 64 → swap xs (length xs) ≡ reverse xs
unfolding swap
swap-reverse xs h =
    rw (reverse_into_lem (length xs) (length xs) 0 xs swap_scratch (omega arith) refl h) (
      rw
        (take-append (reverse xs) (drop (length xs) swap_scratch) (length xs)
          (sym (length-reverse xs)))
        (ap (◌++◌ (reverse xs)) (drop_all xs) ∙ append-nil (reverse xs)))
  where
    drop_all : (ys : List ℕ) → drop (length ys) ys ≡ []
    drop_all [] = refl
    drop_all (y ∷ ys) = drop_all ys

pub length-host_bytes : (w n : ℕ) → length (host_bytes w n) ≡ w
unfolding host_bytes
length-host_bytes zero n = refl
length-host_bytes (suc w) n = ap suc (length-host_bytes w (n / 256))

pub host_bytes-Byte : (w n : ℕ) → All Byte (host_bytes w n)
unfolding host_bytes
host_bytes-Byte zero n = tt
host_bytes-Byte (suc w) n = (omega arith, host_bytes-Byte w (n / 256))

from_host-host_bytes : (w n : ℕ) → n < 256 ^ w → from_host (host_bytes w n) ≡ n
unfolding from_host host_bytes
from_host-host_bytes zero n h = omega arith
from_host-host_bytes (suc w) n h =
    omega
      (arith, pow-succ' 256 w, from_host-host_bytes w (n / 256) (omega (arith, pow-succ' 256 w)))

host_bytes-from_host : (xs : List ℕ) → All Byte xs → host_bytes (length xs) (from_host xs) ≡ xs
unfolding from_host host_bytes
host_bytes-from_host [] b = refl
host_bytes-from_host (x ∷ xs) (bx, bxs) =
    let low : (x + 256 * from_host xs) % 256 ≡ x = omega arith in
    let high : (x + 256 * from_host xs) / 256 ≡ from_host xs = omega arith in
    rw (low, high, host_bytes-from_host xs bxs)

pub to_wire-reverse : (w n : ℕ) → w ≤ 64 → to_wire w n ≡ reverse (host_bytes w n)
unfolding to_wire
to_wire-reverse w n h =
    subst (λ k. swap (host_bytes w n) k ≡ reverse (host_bytes w n)) (length-host_bytes w n)
      (swap-reverse (host_bytes w n) (omega (arith, length-host_bytes w n)))

pub length-to_wire : (w n : ℕ) → w ≤ 64 → length (to_wire w n) ≡ w
length-to_wire w n h = omega (
  arith,
  ap length (to_wire-reverse w n h),
  length-reverse (host_bytes w n),
  length-host_bytes w n,
)

pub from_wire-reverse : (xs : List ℕ) → length xs ≤ 64 → from_wire xs ≡ from_host (reverse xs)
unfolding from_wire
from_wire-reverse xs h = ap from_host (swap-reverse xs h)

-- An unsigned integer of at most 64 bytes that fits its width comes back from the wire unchanged.
pub from_wire-to_wire : (w n : ℕ) → w ≤ 64 → n < 256 ^ w → from_wire (to_wire w n) ≡ n
from_wire-to_wire w n h fits =
    from_wire-reverse (to_wire w n) (omega (arith, length-to_wire w n h))
    ∙ ap (λ r. from_host (reverse r)) (to_wire-reverse w n h)
    ∙ ap from_host (reverse-reverse (host_bytes w n))
    ∙ from_host-host_bytes w n fits

All-reverse : (xs : List ℕ) → All Byte xs → All Byte (reverse xs)
All-reverse [] b = tt
All-reverse (x ∷ xs) (bx, bxs) =
    rw (reverse-cons x xs) (All-append Byte (reverse xs) (x ∷ []) (All-reverse xs bxs) (bx, tt))

pub to_wire-Byte : (w n : ℕ) → w ≤ 64 → All Byte (to_wire w n)
to_wire-Byte w n h = rw (to_wire-reverse w n h) (All-reverse (host_bytes w n) (host_bytes-Byte w n))

-- Bytes read from the wire as an integer are the bytes that the integer is sent as.
pub to_wire-from_wire :
    (xs : List ℕ) → length xs ≤ 64 → All Byte xs → to_wire (length xs) (from_wire xs) ≡ xs
to_wire-from_wire xs h b =
    to_wire-reverse (length xs) (from_wire xs) h
    ∙ ap (λ n. reverse (host_bytes (length xs) n)) (from_wire-reverse xs h)
    ∙ ap (λ k. reverse (host_bytes k (from_host (reverse xs)))) (sym (length-reverse xs))
    ∙ ap reverse (host_bytes-from_host (reverse xs) (All-reverse xs b))
    ∙ reverse-reverse xs

-- The four bytes of a U4 on the wire, most significant first.
pub to_wire_four :
    (n : ℕ)
    → to_wire 4 n ≡ n / 256 / 256 / 256 % 256 ∷ n / 256 / 256 % 256 ∷ n / 256 % 256 ∷ n % 256 ∷ []
unfolding host_bytes
to_wire_four n = to_wire-reverse 4 n (omega arith)

pub from_wire_four :
    (a b c d : ℕ) → from_wire (a ∷ b ∷ c ∷ d ∷ []) ≡ a * 16777216 + b * 65536 + c * 256 + d
unfolding from_host
from_wire_four a b c d = omega (arith, from_wire-reverse (a ∷ b ∷ c ∷ d ∷ []) (omega arith))
