-- ===== src/Secs/Checksum.antt =====
-- The block checksum is the exact sum of the block, so it detects every change of a single byte.
use sc_open.Prelude.{
  ℕ, ◌+◌, ◌*◌, ◌%◌, ◌^◌, ◌≤◌, ◌<◌, ◌≡◌, ◌≢◌, ap, List, [], ◌∷◌, ◌++◌, length, length-append, All,
  arith,
}
use sc_open.Bytes.{Byte}
use sc_open.Secs.{checksum_loop, secs_calc_checksum}

pub sum : List ℕ → ℕ
sum [] = 0
sum (x ∷ xs) = x + sum xs

pub sum-append : (xs ys : List ℕ) → sum (xs ++ ys) ≡ sum xs + sum ys
unfolding sum
sum-append [] ys = omega arith
sum-append (x ∷ xs) ys = omega (arith, sum-append xs ys)

sum-le : (xs : List ℕ) → All Byte xs → sum xs ≤ 255 * length xs
unfolding sum
sum-le [] b = omega arith
sum-le (x ∷ xs) (bx, bxs) = omega (arith, sum-le xs bxs)

checksum_loop-sum : (xs : List ℕ) (v : ℕ) → v + sum xs < 2 ^ 32 → checksum_loop xs v ≡ v + sum xs
unfolding checksum_loop sum
checksum_loop-sum [] v h = omega arith
checksum_loop-sum (x ∷ xs) v h =
    let e : (v + x) % 2 ^ 32 ≡ v + x = omega arith in
    rw e (omega (arith, checksum_loop-sum xs (v + x) (omega arith)))

-- Over a block of at most 254 bytes, the longest of SECS-I, the two checksum bytes are the two
-- digits of the sum of the block to the base 256, with nothing lost to a wrap.
pub secs_calc_checksum-sum :
    (block : List ℕ)
    → All Byte block
    → length block ≤ 254
    → let (high, low) = secs_calc_checksum block in
      (high * 256 + low ≡ sum block) × (high < 256) × (low < 256)
unfolding secs_calc_checksum
secs_calc_checksum-sum block b h =
    omega (arith, sum-le block b, checksum_loop-sum block 0 (omega (arith, sum-le block b)))

-- Two blocks of at most 254 bytes that differ in exactly one place have different checksums.
pub secs_calc_checksum_detects :
    (before after : List ℕ) (x y : ℕ)
    → All Byte (before ++ x ∷ after)
    → All Byte (before ++ y ∷ after)
    → length (before ++ x ∷ after) ≤ 254
    → x ≢ y
    → secs_calc_checksum (before ++ x ∷ after) ≢ secs_calc_checksum (before ++ y ∷ after)
unfolding sum
secs_calc_checksum_detects before after x y bx by h ne e = ne (
    omega (
      arith,
      secs_calc_checksum-sum (before ++ x ∷ after) bx h,
      secs_calc_checksum-sum (before ++ y ∷ after) by
          (omega (arith, length-append before (x ∷ after), length-append before (y ∷ after))),
      ap (λ c. c.0) e,
      ap (λ c. c.1) e,
      sum-append before (x ∷ after),
      sum-append before (y ∷ after),
    ))
