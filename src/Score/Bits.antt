-- ===== src/Score/Bits.antt =====
-- The set of programs of a channel is a number of 128 bits. Setting a bit keeps it one, and clearing
-- its lowest bit leaves one bit less.
use native.Mathlib.Numerals.{unary_clauses}
use Prim.Native.Nat.{bit_and, bit_or, bit_and-bitwise, bit_or-bitwise, bitwise, digits, min, max}
use midi.Prelude.{
  ℕ, zero, suc, ◌+◌, ◌-◌, ◌*◌, ◌/◌, ◌%◌, ◌≤◌, ◌<◌, ◌≡◌, refl, arith, Bool-cases, ◌==◌, inl, ==→eq,
  ap, inr, ◌^◌,
}

module _ (z : ℕ → ℕ) (f : ℕ → ℕ → ℕ) where
  digits-enough : (n m a b : ℕ) → a ≤ n → a ≤ m → digits z f n a b ≡ digits z f m a b
  digits-enough zero zero a b h k = refl
  digits-enough zero (suc m) zero b h k = refl
  digits-enough (suc n) zero zero b h k = refl
  digits-enough (suc n) (suc m) zero b h k = refl
  digits-enough zero (suc m) (suc a) b h k = absurd (omega arith)
  digits-enough (suc n) zero (suc a) b h k = absurd (omega arith)
  digits-enough (suc n) (suc m) (suc a) b h k =
      let rest = digits-enough n m (suc a / 2) (b / 2) (omega arith) (omega arith) in
      omega (arith, rest)

  -- The lowest digit and the others.
  bitwise-halves :
      ((b : ℕ) → z b ≡ z (b / 2) * 2 + f 0 (b % 2))
      → (a b : ℕ) → bitwise z f a b ≡ bitwise z f (a / 2) (b / 2) * 2 + f (a % 2) (b % 2)
  bitwise-halves law zero b = law b
  bitwise-halves law (suc a) b =
      let rest = digits-enough a (suc a / 2) (suc a / 2) (b / 2) (omega arith) (omega arith) in
      omega (arith, rest)

bit_and-halves : (a b : ℕ) → bit_and a b ≡ bit_and (a / 2) (b / 2) * 2 + min (a % 2) (b % 2)
bit_and-halves a b =
    let halves = bitwise-halves (λ b. 0) min (λ b. omega arith) a b in
    omega (arith, halves, bit_and-bitwise a b, bit_and-bitwise (a / 2) (b / 2))

bit_or-halves : (a b : ℕ) → bit_or a b ≡ bit_or (a / 2) (b / 2) * 2 + max (a % 2) (b % 2)
bit_or-halves a b =
    let halves = bitwise-halves (λ b. b) max (λ b. omega arith) a b in
    omega (arith, halves, bit_or-bitwise a b, bit_or-bitwise (a / 2) (b / 2))

-- The numbers of `width` bits are those below this power of two.
abbrev pub bit_room : ℕ → ℕ
bit_room zero = 1
bit_room (suc width) = bit_room width * 2

pub bit_or-room :
    (width a b : ℕ) → a < bit_room width → b < bit_room width → bit_or a b < bit_room width
bit_or-room zero a b h k =
    let none_left : a ≡ 0 = omega arith in
    let none_right : b ≡ 0 = omega arith in rw (none_left, none_right) (omega arith)
bit_or-room (suc width) a b h k =
    let rest = bit_or-room width (a / 2) (b / 2) (omega arith) (omega arith) in
    omega (arith, rest, bit_or-halves a b)

pub bit_and-room : (width a b : ℕ) → a < bit_room width → bit_and a b < bit_room width
bit_and-room zero a b h =
    let none : a ≡ 0 = omega arith in rw none (omega (arith, bit_and-bitwise 0 b))
bit_and-room (suc width) a b h =
    let rest = bit_and-room width (a / 2) (b / 2) (omega arith) in
    omega (arith, rest, bit_and-halves a b)

bit_and-same : (width a : ℕ) → a < bit_room width → bit_and a a ≡ a
bit_and-same zero a h = let none : a ≡ 0 = omega arith in rw none refl
bit_and-same (suc width) a h =
    let rest = bit_and-same width (a / 2) (omega arith) in omega (arith, rest, bit_and-halves a a)

-- The bits that are set, of `width` bits.
abbrev pub count_ones : ℕ → ℕ → ℕ
count_ones zero a = 0
count_ones (suc width) a = count_ones width (a / 2) + a % 2

pub count_ones-le : (width a : ℕ) → count_ones width a ≤ width
count_ones-le zero a = omega arith
count_ones-le (suc width) a = omega (arith, count_ones-le width (a / 2))

-- `programs &= programs - 1`
pub count_ones-clear :
    (width a : ℕ)
    → 0 < a
    → a < bit_room width
    → count_ones width (bit_and a (a - 1)) + 1 ≡ count_ones width a
count_ones-clear zero a h k = absurd (omega arith)
count_ones-clear (suc width) a h k = elim (Bool-cases (a % 2 == 1)) [
  | inl odd ↦
      let last : a % 2 ≡ 1 = ==→eq (a % 2) 1 odd in
      let below : (a - 1) / 2 ≡ a / 2 = omega arith in
      let kept : bit_and a (a - 1) ≡ a / 2 * 2 = omega (
        arith,
        bit_and-halves a (a - 1),
        below,
        ap (bit_and (a / 2)) below,
        bit_and-same width (a / 2) (omega arith),
      ) in
      let half : a / 2 * 2 / 2 ≡ a / 2 = omega arith in rw (kept, half) (omega arith)
  | inr even ↦
      let low : a % 2 ≡ 0 = ground arith in
      let rest = count_ones-clear width (a / 2) (ground arith) (omega arith) in
      let below : (a - 1) / 2 ≡ a / 2 - 1 = ground arith in
      let kept : bit_and a (a - 1) ≡ bit_and (a / 2) (a / 2 - 1) * 2 =
        omega (arith, bit_and-halves a (a - 1), low, ap (bit_and (a / 2)) below) in
      let half : bit_and (a / 2) (a / 2 - 1) * 2 / 2 ≡ bit_and (a / 2) (a / 2 - 1) = omega arith in
      rw (kept, half) (ground (arith, rest))
]

bit_room-positive : (width : ℕ) → 0 < bit_room width
bit_room-positive zero = omega arith
bit_room-positive (suc width) = omega (arith, bit_room-positive width)

pub power-room : (width bit : ℕ) → bit < width → 2 ^ bit < bit_room width
power-room zero bit h = absurd (omega arith)
power-room (suc width) zero h = omega (arith, bit_room-positive width)
power-room (suc width) (suc bit) h =
    let rest = power-room width bit (omega arith) in simp unary_clauses (omega (arith, rest))

-- Fuel for the bits that are set is fuel for those that are left.
pub count_ones-left :
    (width a fuel : ℕ)
    → 0 < a
    → a < bit_room width
    → count_ones width a ≤ suc fuel
    → count_ones width (bit_and a (a - 1)) ≤ fuel
count_ones-left width a fuel h k le = omega (arith, count_ones-clear width a h k)

pub count_ones-none : (width a : ℕ) → 0 < a → a < bit_room width → count_ones width a ≤ 0 → ⊥
count_ones-none width a h k le = omega (arith, count_ones-clear width a h k)
