-- ===== src/Common/Bits.antt =====
-- `&` with a mask of ones and `|` of disjoint parts, as plain arithmetic, for every width.
use Prim.Native.Nat.{
  ℕ, zero, suc, ◌+◌, ◌*◌, ◌/◌, ◌%◌, ◌^◌, ◌≤◌, ◌<◌, min, max, bit_and, bit_or, digits,
  bit_and-bitwise, bit_or-bitwise,
}
use mathlib.Core.Path.{◌≡◌, refl, ap, ◌∙◌}
use native.Mathlib.Omega.{arith}
use native.Mathlib.Nat.{pow-suc, mod-lt, mod-eq_of_lt, div-add-mod, add-mul-mod_self_left}

-- The digit recursion gives the same result for any two sufficient amounts of fuel.
module _ (z : ℕ → ℕ) (op : ℕ → ℕ → ℕ) where
  fuel_irrelevant : (k l x y : ℕ) → x ≤ k → x ≤ l → digits z op k x y ≡ digits z op l x y
  fuel_irrelevant zero zero x y hk hl = refl
  fuel_irrelevant zero (suc l) zero y hk hl = refl
  fuel_irrelevant zero (suc l) (suc x) y hk hl = absurd (omega arith)
  fuel_irrelevant (suc k) zero zero y hk hl = refl
  fuel_irrelevant (suc k) zero (suc x) y hk hl = absurd (omega arith)
  fuel_irrelevant (suc k) (suc l) zero y hk hl = refl
  fuel_irrelevant (suc k) (suc l) (suc x) y hk hl =
      let rest : digits z op k (suc x / 2) (y / 2) ≡ digits z op l (suc x / 2) (y / 2) =
        fuel_irrelevant k l (suc x / 2) (y / 2) (omega arith) (omega arith) in
      ap (λ (t : ℕ). t * 2 + op (suc x % 2) (y % 2)) rest

-- Both operations by their lowest digit.
or_lowest : (x y : ℕ) → bit_or x y ≡ bit_or (x / 2) (y / 2) * 2 + max (x % 2) (y % 2)
or_lowest zero y = omega (arith, bit_or-bitwise 0 y, bit_or-bitwise 0 (y / 2))
or_lowest (suc x) y = omega (
  arith,
  bit_or-bitwise (suc x) y,
  bit_or-bitwise (suc x / 2) (y / 2),
  fuel_irrelevant (λ t. t) max x (suc x / 2) (suc x / 2) (y / 2) (omega arith) (omega arith),
)

and_lowest : (x y : ℕ) → bit_and x y ≡ bit_and (x / 2) (y / 2) * 2 + min (x % 2) (y % 2)
and_lowest zero y = omega (arith, bit_and-bitwise 0 y, bit_and-bitwise 0 (y / 2))
and_lowest (suc x) y = omega (
  arith,
  bit_and-bitwise (suc x) y,
  bit_and-bitwise (suc x / 2) (y / 2),
  fuel_irrelevant (λ _. 0) min x (suc x / 2) (suc x / 2) (y / 2) (omega arith) (omega arith),
)

or_zero_bounded : (n x : ℕ) → x ≤ n → bit_or x 0 ≡ x
or_zero_bounded n zero h = refl
or_zero_bounded zero (suc x) h = absurd (omega arith)
or_zero_bounded (suc n) (suc x) h =
    omega (arith, or_lowest (suc x) 0, or_zero_bounded n (suc x / 2) (omega arith))

and_zero_bounded : (n x : ℕ) → x ≤ n → bit_and x 0 ≡ 0
and_zero_bounded n zero h = refl
and_zero_bounded zero (suc x) h = absurd (omega arith)
and_zero_bounded (suc n) (suc x) h =
    omega (arith, and_lowest (suc x) 0, and_zero_bounded n (suc x / 2) (omega arith))

-- `|` of a number that is shifted by `k` with one that has at most `k` digits adds the two.
pub bit_or-disjoint : (k x y : ℕ) → y < 2 ^ k → bit_or (x * 2 ^ k) y ≡ x * 2 ^ k + y
bit_or-disjoint zero x y h =
    let none_left : y ≡ 0 = omega arith in
    rw none_left (or_zero_bounded (x * 1) (x * 1) (omega arith) ∙ omega arith)
bit_or-disjoint (suc k) x y h =
    let twice : x * 2 ^ suc k ≡ 2 * (x * 2 ^ k) =
      omega (arith, ap (λ (t : ℕ). x * t) (pow-suc 2 k)) in
    let high : x * 2 ^ suc k / 2 ≡ x * 2 ^ k = omega arith in
    let low : x * 2 ^ suc k % 2 ≡ 0 = omega arith in
    or_lowest (x * 2 ^ suc k) y
    ∙ rw (high, low, bit_or-disjoint k x (y / 2) (omega (arith, pow-suc 2 k))) (omega arith)

mod_double : (x p : ℕ) → 0 < p → x % (p * 2) ≡ x / 2 % p * 2 + x % 2
mod_double x p h =
    let rest : ℕ = x / 2 % p * 2 + x % 2 in
    let small : rest < p * 2 = omega (arith, mod-lt (x / 2) h) in
    let whole : x ≡ rest + p * 2 * (x / 2 / p) = omega (arith, div-add-mod (x / 2) p) in
    ap (λ (t : ℕ). t % (p * 2)) whole
    ∙ add-mul-mod_self_left rest (p * 2) (x / 2 / p)
    ∙ mod-eq_of_lt small

-- `&` with a mask of `k` ones keeps the lowest `k` digits.
pub bit_and-mask : (k x m : ℕ) → m + 1 ≡ 2 ^ k → bit_and x m ≡ x % 2 ^ k
bit_and-mask zero x m h =
    let none_left : m ≡ 0 = omega arith in
    rw none_left (and_zero_bounded x x (omega arith) ∙ omega arith)
bit_and-mask (suc k) x m h =
    and_lowest x m
    ∙ rw (bit_and-mask k (x / 2) (m / 2) (omega (arith, pow-suc 2 k)), pow-suc 2 k)
        (rw (mod_double x (2 ^ k) (omega (arith, pow-suc 2 k))) (omega (arith, pow-suc 2 k)))

-- `x & 0xFF`
pub bit_and-byte : (x : ℕ) → bit_and x 0xff ≡ x % 256
bit_and-byte x = bit_and-mask 8 x 0xff refl

or_comm_bounded : (n x y : ℕ) → x ≤ n → y ≤ n → bit_or x y ≡ bit_or y x
or_comm_bounded zero x y hx hy =
    let ex : x ≡ 0 = omega arith in let ey : y ≡ 0 = omega arith in rw (ex, ey)
or_comm_bounded (suc n) x y hx hy = omega (
  arith,
  or_lowest x y,
  or_lowest y x,
  or_comm_bounded n (x / 2) (y / 2) (omega arith) (omega arith),
)

pub bit_or_comm : (x y : ℕ) → bit_or x y ≡ bit_or y x
bit_or_comm x y = or_comm_bounded (x + y) x y (omega arith) (omega arith)
