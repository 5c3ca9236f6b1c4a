-- ===== src/Prelude/Bytes.antt =====
-- Byte strings as lists of numbers, and the big-endian integers of the standard library:
-- `to_be k n` is `n.to_be_bytes()` at k bytes, `from_be` is `from_be_bytes`.
use mathlib.Core.List
use mathlib.Core.List.{reverse, reverse-reverse}
use native.Mathlib.Nat.{pow-suc}
use rustgo.Prelude.{
  ℕ, zero, suc, ◌+◌, ◌-◌, ◌*◌, ◌/◌, ◌%◌, ◌^◌, ◌<◌, ◌≡◌, refl, ap, ◌∙◌, ◌↔◌, Bool, true, false, ◌&&◌,
  List, [], ◌∷◌, ◌++◌, arith, length, length-reverse, take, drop, ◌==◌,
}
use rustgo.Prelude.Dict.{Key}

abbrev pub Bytes : Type 0
Bytes = List ℕ

-- Every element is a byte.
abbrev pub AllBytes : Bytes → Type 0
AllBytes [] = Unit
AllBytes (b ∷ bs) = (b < 256) × AllBytes bs

to_le : ℕ → ℕ → Bytes
to_le zero n = []
to_le (suc k) n = n % 256 ∷ to_le k (n / 256)

from_le : Bytes → ℕ
from_le [] = 0
from_le (b ∷ bs) = b + 256 * from_le bs

unfoldable pub to_be : ℕ → ℕ → Bytes
unfolding to_le
to_be k n = reverse (to_le k n)

unfoldable pub from_be : Bytes → ℕ
unfolding from_le
from_be bs = from_le (reverse bs)

length-to_le : (k n : ℕ) → length (to_le k n) ≡ k
unfolding to_le
length-to_le zero n = refl
length-to_le (suc k) n = ap suc (length-to_le k (n / 256))

from_le-to_le : (k n : ℕ) → n < 256 ^ k → from_le (to_le k n) ≡ n
unfolding to_le from_le
from_le-to_le zero n h = omega arith
from_le-to_le (suc k) n h =
    omega (arith, pow-suc 256 k, from_le-to_le k (n / 256) (omega (arith, pow-suc 256 k)))

to_le-from_le : (bs : Bytes) → AllBytes bs → to_le (length bs) (from_le bs) ≡ bs
unfolding to_le from_le
to_le-from_le [] h = refl
to_le-from_le (b ∷ bs) h =
    let low : (b + 256 * from_le bs) % 256 ≡ b = omega arith in
    let high : (b + 256 * from_le bs) / 256 ≡ from_le bs = omega arith in
    rw (low, high, to_le-from_le bs h.1)

from_le-lt : (bs : Bytes) → AllBytes bs → from_le bs < 256 ^ length bs
unfolding from_le
from_le-lt [] h = omega arith
from_le-lt (b ∷ bs) h = omega (arith, pow-suc 256 (length bs), from_le-lt bs h.1)

AllBytes-to_le : (k n : ℕ) → AllBytes (to_le k n)
unfolding to_le
AllBytes-to_le zero n = tt
AllBytes-to_le (suc k) n = (omega arith, AllBytes-to_le k (n / 256))

pub AllBytes-append : (xs ys : Bytes) → AllBytes xs → AllBytes ys → AllBytes (xs ++ ys)
AllBytes-append [] ys hx hy = hy
AllBytes-append (x ∷ xs) ys hx hy = (hx.0, AllBytes-append xs ys hx.1 hy)

pub AllBytes-take : (n : ℕ) (xs : Bytes) → AllBytes xs → AllBytes (take n xs)
AllBytes-take zero xs h = tt
AllBytes-take (suc n) [] h = tt
AllBytes-take (suc n) (x ∷ xs) h = (h.0, AllBytes-take n xs h.1)

pub AllBytes-drop : (n : ℕ) (xs : Bytes) → AllBytes xs → AllBytes (drop n xs)
AllBytes-drop zero xs h = h
AllBytes-drop (suc n) [] h = tt
AllBytes-drop (suc n) (x ∷ xs) h = AllBytes-drop n xs h.1

AllBytes-reverse_aux :
    (xs ys : Bytes) → AllBytes xs → AllBytes ys → AllBytes (List.reverse_aux xs ys)
AllBytes-reverse_aux [] ys hx hy = hy
AllBytes-reverse_aux (x ∷ xs) ys hx hy = AllBytes-reverse_aux xs (x ∷ ys) hx.1 (hx.0, hy)

pub length-to_be : (k n : ℕ) → length (to_be k n) ≡ k
unfolding to_be
length-to_be k n = length-reverse (to_le k n) ∙ length-to_le k n

-- Decoding inverts encoding, for a number that fits.
pub from_be-to_be : (k n : ℕ) → n < 256 ^ k → from_be (to_be k n) ≡ n
unfolding to_be from_be
from_be-to_be k n h = rw reverse-reverse (from_le-to_le k n h)

-- Encoding inverts decoding, for bytes.
pub to_be-from_be : (k : ℕ) (bs : Bytes) → length bs ≡ k → AllBytes bs → to_be k (from_be bs) ≡ bs
unfolding to_be from_be
to_be-from_be k bs e h =
    let e' : k ≡ length (reverse bs) = omega (arith, length-reverse bs, e) in
    rw e' (
      ap reverse (to_le-from_le (reverse bs) (AllBytes-reverse_aux bs [] h tt))
      ∙ reverse-reverse bs)

pub from_be-lt : (bs : Bytes) → AllBytes bs → from_be bs < 256 ^ length bs
unfolding from_be
from_be-lt bs h =
    rw (length-reverse bs) at (from_le-lt (reverse bs) (AllBytes-reverse_aux bs [] h tt))

pub AllBytes-to_be : (k n : ℕ) → AllBytes (to_be k n)
unfolding to_be
AllBytes-to_be k n = AllBytes-reverse_aux (to_le k n) [] (AllBytes-to_le k n) tt

-- Equality of byte slices.
unfoldable pub eq_bytes : Bytes → Bytes → Bool
eq_bytes [] [] = true
eq_bytes (x ∷ xs) (y ∷ ys) = x == y && eq_bytes xs ys
eq_bytes _ _ = false

pub eq_bytes_iff : (xs ys : Bytes) → (eq_bytes xs ys ≡ true) ↔ (xs ≡ ys)
unfolding eq_bytes
eq_bytes_iff [] [] = ground arith
eq_bytes_iff [] (y ∷ ys) = ground arith
eq_bytes_iff (x ∷ xs) [] = ground arith
eq_bytes_iff (x ∷ xs) (y ∷ ys) = ground (arith, eq_bytes_iff xs ys)

pub eq_bytes_refl : (xs : Bytes) → eq_bytes xs xs ≡ true
eq_bytes_refl xs = (eq_bytes_iff xs xs).1 refl

-- `&input[first..last]`, for bounds that the code has checked.
abbrev pub slice : ℕ → ℕ → Bytes → Bytes
slice first last bs = take (last - first) (drop first bs)

instance abbrev pub bytes_key : Key Bytes
bytes_key = record { same = eq_bytes; same_iff = eq_bytes_iff }
