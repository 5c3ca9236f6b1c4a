-- ===== src/Nat/Integer.antt =====
-- The i16 and i32 arithmetic of crates/rustgo-nat/src on differences of ports. The values are sums of
-- a u16 and at most 16 times an i16, so that an i32 holds all of them.
use rustgo.Prelude.{
  ℕ, zero, suc, ◌+◌, ◌-◌, ◌*◌, ◌^◌, Option, none, some, Bool, false, ltb, leb, ◌==◌, if◌then◌else◌,
}

pub data ℤ : Type 0 where
  pos : ℕ → ℤ
  negsuc : ℕ → ℤ

abbrev pub negate : ℕ → ℤ
negate zero = pos 0
negate (suc n) = negsuc n

-- `i32::from(next) - i32::from(previous)`
unfoldable pub difference : ℕ → ℕ → ℤ
difference next previous =
    if leb previous next then pos (next - previous) else negsuc (previous - next - 1)

infixl 6 ◌+ℤ◌
unfoldable pub ◌+ℤ◌ : ℤ → ℤ → ℤ
unfolding difference
pos m +ℤ pos n = pos (m + n)
pos m +ℤ negsuc n = difference m (suc n)
negsuc m +ℤ pos n = difference n (suc m)
negsuc m +ℤ negsuc n = negsuc (m + n + 1)

-- The product with a number that is not negative.
unfoldable pub scale : ℤ → ℕ → ℤ
scale (pos m) n = pos (m * n)
scale (negsuc m) n = negate (suc m * n)

unfoldable pub i16_try_from : ℤ → Option ℤ
i16_try_from (pos n) = if ltb n (2 ^ 15) then some (pos n) else none
i16_try_from (negsuc n) = if ltb n (2 ^ 15) then some (negsuc n) else none

unfoldable pub u16_try_from : ℤ → Option ℕ
u16_try_from (pos n) = if ltb n (2 ^ 16) then some n else none
u16_try_from (negsuc n) = none

unfoldable pub same_integer : ℤ → ℤ → Bool
same_integer (pos m) (pos n) = m == n
same_integer (negsuc m) (negsuc n) = m == n
same_integer _ _ = false
