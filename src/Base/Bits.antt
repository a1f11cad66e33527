-- ===== src/Base/Bits.antt =====
-- `&` and `|` as arithmetic: masks of low and of high bits, and the union of disjoint fields.
use Prim.Native.Nat.{
  ℕ, zero, suc, ◌+◌, ◌-◌, ◌*◌, ◌/◌, ◌%◌, ◌^◌, ◌≤◌, ◌<◌, min, max, digits, bit_and, bit_or,
  bit_and-bitwise, bit_or-bitwise,
}
use mathlib.Core.Path.{◌≡◌, refl, ap, ap₂, ◌∙◌}
use native.Mathlib.Nat.{pow-suc, one-le-pow, mod-eq_of_lt}
use native.Mathlib.Omega.{arith}
use native.Mathlib.Decide.{ℕ_discrete}
use mathlib.Core.Logic.{ite}
use mathlib.Core.Bool.{Bool, true, false}

-- The native operations stand for a walk over the binary digits of the first operand, with fuel.
-- Any two amounts of fuel that are no less than the operand give the same.
module _ (last : ℕ → ℕ) (digit : ℕ → ℕ → ℕ) where
  enough_digits :
      (x y fuel more : ℕ)
      → x ≤ fuel
      → x ≤ more
      → digits last digit fuel x y ≡ digits last digit more x y
  enough_digits zero y zero zero hf hm = refl
  enough_digits zero y zero (suc more) hf hm = refl
  enough_digits zero y (suc fuel) zero hf hm = refl
  enough_digits zero y (suc fuel) (suc more) hf hm = refl
  enough_digits (suc x) y zero more hf hm = absurd (omega arith)
  enough_digits (suc x) y (suc fuel) zero hf hm = absurd (omega arith)
  enough_digits (suc x) y (suc fuel) (suc more) hf hm =
      let half_f : suc x / 2 ≤ fuel = omega arith in
      let half_m : suc x / 2 ≤ more = omega arith in
      omega (arith, enough_digits (suc x / 2) (y / 2) fuel more half_f half_m)

-- One digit at a time.
pub bit_and_digit : (x y : ℕ) → bit_and x y ≡ 2 * bit_and (x / 2) (y / 2) + min (x % 2) (y % 2)
bit_and_digit zero y =
    let whole : bit_and 0 y ≡ 0 = bit_and-bitwise 0 y in
    let half : bit_and 0 (y / 2) ≡ 0 = bit_and-bitwise 0 (y / 2) in omega (arith, whole, half)
bit_and_digit (suc x) y =
    let half : suc x / 2 ≤ x = omega arith in
    let same = enough_digits (λ t. 0) min (suc x / 2) (y / 2) x (suc x / 2) half (omega arith) in
    omega (arith, same, bit_and-bitwise (suc x / 2) (y / 2), bit_and-bitwise (suc x) y)

pub bit_or_digit : (x y : ℕ) → bit_or x y ≡ 2 * bit_or (x / 2) (y / 2) + max (x % 2) (y % 2)
bit_or_digit zero y =
    let whole : bit_or 0 y ≡ y = bit_or-bitwise 0 y in
    let half : bit_or 0 (y / 2) ≡ y / 2 = bit_or-bitwise 0 (y / 2) in omega (arith, whole, half)
bit_or_digit (suc x) y =
    let half : suc x / 2 ≤ x = omega arith in
    let same = enough_digits (λ t. t) max (suc x / 2) (y / 2) x (suc x / 2) half (omega arith) in
    omega (arith, same, bit_or-bitwise (suc x / 2) (y / 2), bit_or-bitwise (suc x) y)

-- Zero as the second operand, by halving below a bound.
zero_right : (bound x : ℕ) → x < bound → (bit_and x 0 ≡ 0) × (bit_or x 0 ≡ x)
zero_right bound zero h = (refl, refl)
zero_right zero (suc x) h = absurd (omega arith)
zero_right (suc bound) (suc x) h =
    let (none, all) = zero_right bound (suc x / 2) (omega arith) in
    (omega (arith, none, bit_and_digit (suc x) 0), omega (arith, all, bit_or_digit (suc x) 0))

pub bit_and-zero : (x : ℕ) → bit_and x 0 ≡ 0
bit_and-zero x = (zero_right (suc x) x (omega arith)).0

pub bit_or-zero : (x : ℕ) → bit_or x 0 ≡ x
bit_or-zero x = (zero_right (suc x) x (omega arith)).1

double : (q k : ℕ) → q * 2 ^ suc k ≡ 2 * (q * 2 ^ k)
double q k = omega (arith, ap (λ (t : ℕ). q * t) (pow-suc 2 k))

low_field : (k q r : ℕ) → r < 2 ^ k → bit_and (q * 2 ^ k + r) (2 ^ k - 1) ≡ r
low_field zero q r h = omega (arith, bit_and-zero (q * 2 ^ 0 + r))
low_field (suc k) q r h = ground (
  arith,
  bit_and_digit (q * 2 ^ suc k + r) (2 ^ suc k - 1),
  double q k,
  pow-suc 2 k,
  low_field k q (r / 2) (omega (arith, pow-suc 2 k)),
)

-- `a & (2 ^ k - 1)` keeps the low k bits.
pub bit_and_low : (k a : ℕ) → bit_and a (2 ^ k - 1) ≡ a % 2 ^ k
bit_and_low k a = ground (arith, one-le-pow k 2, low_field k (a / 2 ^ k) (a % 2 ^ k))

high_field :
    (k m q r : ℕ)
    → q < 2 ^ m
    → r < 2 ^ k
    → bit_and (q * 2 ^ k + r) ((2 ^ m - 1) * 2 ^ k) ≡ q * 2 ^ k
high_field zero m q r hq hr =
    ap₂ bit_and same_q same_mask ∙ bit_and_low m q ∙ mod-eq_of_lt hq ∙ omega arith
  where
    same_q : q * 2 ^ 0 + r ≡ q
    same_q = omega arith

    same_mask : (2 ^ m - 1) * 2 ^ 0 ≡ 2 ^ m - 1
    same_mask = omega arith
high_field (suc k) m q r hq hr = ground (
  arith,
  bit_and_digit (q * 2 ^ suc k + r) ((2 ^ m - 1) * 2 ^ suc k),
  double q k,
  double (2 ^ m - 1) k,
  high_field k m q (r / 2) hq (omega (arith, pow-suc 2 k)),
)

-- `a & (ones << k)`, with `ones` the m low bits set, clears the low k bits.
pub bit_and_high :
    (k m a : ℕ) → a / 2 ^ k < 2 ^ m → bit_and a ((2 ^ m - 1) * 2 ^ k) ≡ a / 2 ^ k * 2 ^ k
bit_and_high k m a h = ground (arith, one-le-pow k 2, high_field k m (a / 2 ^ k) (a % 2 ^ k))

-- `(q << k) | r` is a sum when `r` fits k bits.
pub bit_or_sum : (k q r : ℕ) → r < 2 ^ k → bit_or (q * 2 ^ k) r ≡ q * 2 ^ k + r
bit_or_sum zero q r h = ground (arith, bit_or-zero q)
bit_or_sum (suc k) q r h = ground (
  arith,
  bit_or_digit (q * 2 ^ suc k) r,
  double q k,
  bit_or_sum k q (r / 2) (omega (arith, pow-suc 2 k)),
)

-- Two functions that agree at every value below a bound, by evaluation.
module _ (f g : ℕ → ℕ) where
  unfoldable pub agree_below : ℕ → Bool
  unfolding ℕ_discrete
  agree_below zero = true
  agree_below (suc n) = ite (ℕ_discrete (f n) (g n)) (agree_below n) false

  pub agree_below→eq : (n : ℕ) → agree_below n ≡ true → (i : ℕ) → i < n → f i ≡ g i
  unfolding agree_below
  agree_below→eq zero e i h = absurd (omega arith)
  agree_below→eq (suc n) e i h = ground (arith, agree_below→eq n (ground arith) i)
