-- ===== src/Base/Bits.antt =====
-- Bits of numbers, and what the bitwise operations do to each bit, at every width.
use Prim.Native.Nat.{
  ℕ, zero, suc, ◌+◌, ◌-◌, ◌*◌, ◌/◌, ◌%◌, ◌^◌, ◌≤◌, ◌<◌, min, max, bit_and, bit_or, digits,
  bit_and-bitwise, bit_or-bitwise,
}
use mathlib.Core.Path.{◌≡◌, refl, sym, ◌∙◌, ap, ap₂}
use mathlib.Core.Logic.{◌≢◌, ◌↔◌}
use native.Mathlib.Nat.{pow-suc, one-le-pow, div-add-mod', mod-lt}
use native.Mathlib.Omega.{arith}

-- Bit `k` of `a`, the lowest first.
unfoldable pub bit : ℕ → ℕ → ℕ
bit a zero = a % 2
bit a (suc k) = bit (a / 2) k

-- The native operations run `digits` on fuel, and any two sufficient amounts of it agree.
module _ (z : ℕ → ℕ) (f : ℕ → ℕ → ℕ) where
  fuel_irrelevant : (i j : ℕ) (a b : ℕ) → a ≤ min i j → digits z f i a b ≡ digits z f j a b
  fuel_irrelevant zero zero a b enough = refl
  fuel_irrelevant zero (suc j) zero b enough = refl
  fuel_irrelevant zero (suc j) (suc a) b enough = absurd (omega arith)
  fuel_irrelevant (suc i) zero zero b enough = refl
  fuel_irrelevant (suc i) zero (suc a) b enough = absurd (omega arith)
  fuel_irrelevant (suc i) (suc j) zero b enough = refl
  fuel_irrelevant (suc i) (suc j) (suc a) b enough =
      let halved = fuel_irrelevant i j (suc a / 2) (b / 2) (omega arith) in omega (arith, halved)

  -- One step of `digits`, the lowest binary digit apart.
  halved_digits :
      (a b : ℕ) → digits z f a (suc a / 2) (b / 2) ≡ digits z f (suc a / 2) (suc a / 2) (b / 2)
  halved_digits a b = fuel_irrelevant a (suc a / 2) (suc a / 2) (b / 2) (omega arith)

pub bit_and_halves : (a b : ℕ) → bit_and a b ≡ min (a % 2) (b % 2) + 2 * bit_and (a / 2) (b / 2)
bit_and_halves zero b =
    let whole = bit_and-bitwise 0 b in
    let half = bit_and-bitwise 0 (b / 2) in omega (arith, whole, half)
bit_and_halves (suc a) b =
    let whole = bit_and-bitwise (suc a) b in
    let half = bit_and-bitwise (suc a / 2) (b / 2) in
    let same = halved_digits (λ y. 0) min a b in omega (arith, whole, half, same)

pub bit_or_halves : (a b : ℕ) → bit_or a b ≡ max (a % 2) (b % 2) + 2 * bit_or (a / 2) (b / 2)
bit_or_halves zero b =
    let whole = bit_or-bitwise 0 b in
    let half = bit_or-bitwise 0 (b / 2) in omega (arith, whole, half)
bit_or_halves (suc a) b =
    let whole = bit_or-bitwise (suc a) b in
    let half = bit_or-bitwise (suc a / 2) (b / 2) in
    let same = halved_digits (λ y. y) max a b in omega (arith, whole, half, same)

pub bit-lt-two : (a k : ℕ) → bit a k < 2
unfolding bit
bit-lt-two a zero = omega arith
bit-lt-two a (suc k) = bit-lt-two (a / 2) k

pub bit-zero : (k : ℕ) → bit 0 k ≡ 0
unfolding bit
bit-zero zero = refl
bit-zero (suc k) = bit-zero k

pub bit-bit_and : (a b k : ℕ) → bit (bit_and a b) k ≡ min (bit a k) (bit b k)
unfolding bit
bit-bit_and a b zero = omega (arith, bit_and_halves a b)
bit-bit_and a b (suc k) =
    ap (λ t. bit t k) (omega (arith, bit_and_halves a b)) ∙ bit-bit_and (a / 2) (b / 2) k

pub bit-bit_or : (a b k : ℕ) → bit (bit_or a b) k ≡ max (bit a k) (bit b k)
unfolding bit
bit-bit_or a b zero = omega (arith, bit_or_halves a b)
bit-bit_or a b (suc k) =
    ap (λ t. bit t k) (omega (arith, bit_or_halves a b)) ∙ bit-bit_or (a / 2) (b / 2) k

-- The complement within `n` bits.
pub bit-complement : (n x k : ℕ) → x < 2 ^ n → k < n → bit (2 ^ n - 1 - x) k ≡ 1 - bit x k
unfolding bit
bit-complement zero x k h p = absurd (omega arith)
bit-complement (suc n) x zero h p = omega (arith, pow-suc 2 n)
bit-complement (suc n) x (suc k) h p =
    ap (λ t. bit t k) (omega (arith, pow-suc 2 n))
    ∙ bit-complement n (x / 2) k (omega (arith, pow-suc 2 n)) (omega arith)

-- A power of two has the one bit.
pub bit-pow_self : (k : ℕ) → bit (2 ^ k) k ≡ 1
unfolding bit
bit-pow_self zero = refl
bit-pow_self (suc k) = ap (λ t. bit t k) (omega (arith, pow-suc 2 k)) ∙ bit-pow_self k

pub bit-pow_ne : (j k : ℕ) → j ≢ k → bit (2 ^ j) k ≡ 0
unfolding bit
bit-pow_ne zero zero h = absurd (h refl)
bit-pow_ne zero (suc k) h = bit-zero k
bit-pow_ne (suc j) zero h = omega (arith, pow-suc 2 j)
bit-pow_ne (suc j) (suc k) h =
    ap (λ t. bit t k) (omega (arith, pow-suc 2 j)) ∙ bit-pow_ne j k (λ e. h (ap suc e))

-- Numbers below `2 ^ n` are their `n` bits.
pub bit_ext : (n a b : ℕ) → a < 2 ^ n → b < 2 ^ n → ((k : ℕ) → k < n → bit a k ≡ bit b k) → a ≡ b
unfolding bit
bit_ext zero a b ha hb h = omega arith
bit_ext (suc n) a b ha hb h = omega (
  arith,
  h 0 (omega arith),
  bit_ext n (a / 2) (b / 2) (omega (arith, pow-suc 2 n)) (omega (arith, pow-suc 2 n))
      (λ k p. h (suc k) (omega arith)),
)

pub bit_and-zero : (a : ℕ) → bit_and a 0 ≡ 0
bit_and-zero a = go a a (omega arith)
  where
    go : (n x : ℕ) → x ≤ n → bit_and x 0 ≡ 0
    go n zero h = refl
    go zero (suc x) h = absurd (omega arith)
    go (suc n) (suc x) h = omega (arith, bit_and_halves (suc x) 0, go n (suc x / 2) (omega arith))

pub bit_or-zero : (a : ℕ) → bit_or a 0 ≡ a
bit_or-zero a = go a a (omega arith)
  where
    go : (n x : ℕ) → x ≤ n → bit_or x 0 ≡ x
    go n zero h = refl
    go zero (suc x) h = absurd (omega arith)
    go (suc n) (suc x) h = omega (arith, bit_or_halves (suc x) 0, go n (suc x / 2) (omega arith))

mul-pow-suc : (q k : ℕ) → q * 2 ^ suc k ≡ 2 * (q * 2 ^ k)
mul-pow-suc q k = rw (pow-suc 2 k) (omega arith)

-- `w & (1 << k)` is the bit, in its place.
pub bit_and_pow : (w k : ℕ) → bit_and w (2 ^ k) ≡ bit w k * 2 ^ k
unfolding bit
bit_and_pow w zero = omega (arith, bit_and_halves w 1, bit_and-zero (w / 2))
bit_and_pow w (suc k) = omega (
  arith,
  bit_and_halves w (2 ^ suc k),
  pow-suc 2 k,
  ap (λ t. bit_and (w / 2) t) (half k),
  bit_and_pow (w / 2) k,
  mul-pow-suc (bit (w / 2) k) k,
)
  where
    half : (j : ℕ) → 2 ^ suc j / 2 ≡ 2 ^ j
    half j = omega (arith, pow-suc 2 j)

pub bit_and-le : (a b : ℕ) → bit_and a b ≤ a
bit_and-le a b = go a a b (omega arith)
  where
    go : (n x y : ℕ) → x ≤ n → bit_and x y ≤ x
    go n zero y h = omega (arith, bit_and-bitwise 0 y)
    go zero (suc x) y h = absurd (omega arith)
    go (suc n) (suc x) y h =
        omega (arith, bit_and_halves (suc x) y, go n (suc x / 2) (y / 2) (omega arith))

pub bit_or-lt : (n a b : ℕ) → a < 2 ^ n → b < 2 ^ n → bit_or a b < 2 ^ n
bit_or-lt zero zero b h k = omega (arith, bit_or-bitwise 0 b)
bit_or-lt zero (suc a) b h k = absurd (omega arith)
bit_or-lt (suc n) a b h k = omega (
  arith,
  bit_or_halves a b,
  pow-suc 2 n,
  bit_or-lt n (a / 2) (b / 2) (omega (arith, pow-suc 2 n)) (omega (arith, pow-suc 2 n)),
)

-- `(q << k) | r` is a sum where `r` fits below the shift.
pub bit_or_fields : (k q r : ℕ) → r < 2 ^ k → bit_or (q * 2 ^ k) r ≡ q * 2 ^ k + r
bit_or_fields zero q zero h = omega (arith, bit_or-zero q, ap (λ t. bit_or t 0) (unit q))
  where
    unit : (n : ℕ) → n * 2 ^ 0 ≡ n
    unit n = omega arith
bit_or_fields zero q (suc r) h = absurd (omega arith)
bit_or_fields (suc k) q r h = omega (
  arith,
  bit_or_halves (q * 2 ^ suc k) r,
  mul-pow-suc q k,
  ap (λ t. bit_or t (r / 2)) halved,
  bit_or_fields k q (r / 2) (omega (arith, pow-suc 2 k)),
)
  where
    halved : q * 2 ^ suc k / 2 ≡ q * 2 ^ k
    halved = omega (arith, mul-pow-suc q k)

-- `w & (2 ^ k - 1)` is the remainder.
pub bit_and_fields : (k q r : ℕ) → r < 2 ^ k → bit_and (q * 2 ^ k + r) (2 ^ k - 1) ≡ r
bit_and_fields zero q r h = omega (arith, bit_and-zero (q * 2 ^ 0 + r))
bit_and_fields (suc k) q r h = omega (
  arith,
  bit_and_halves (q * 2 ^ suc k + r) (2 ^ suc k - 1),
  pow-suc 2 k,
  ap₂ (λ s t. bit_and s t) halved ones,
  bit_and_fields k q (r / 2) (omega (arith, pow-suc 2 k)),
  mul-pow-suc q k,
)
  where
    halved : (q * 2 ^ suc k + r) / 2 ≡ q * 2 ^ k + r / 2
    halved = omega (arith, mul-pow-suc q k)

    ones : (2 ^ suc k - 1) / 2 ≡ 2 ^ k - 1
    ones = omega (arith, pow-suc 2 k)

pub bit_and_mask : (k a : ℕ) → bit_and a (2 ^ k - 1) ≡ a % 2 ^ k
bit_and_mask k a =
    ap (λ t. bit_and t (2 ^ k - 1)) (sym (div-add-mod' a (2 ^ k)))
    ∙ bit_and_fields k (a / 2 ^ k) (a % 2 ^ k) (mod-lt a (one-le-pow k 2 (omega arith)))

pub two-pow-lt : (j n : ℕ) → j < n → 2 ^ j < 2 ^ n
two-pow-lt j zero h = absurd (omega arith)
two-pow-lt zero (suc n) h = omega (arith, pow-suc 2 n, one-le-pow n 2 (omega arith))
two-pow-lt (suc j) (suc n) h = omega (arith, pow-suc 2 n, pow-suc 2 j, two-pow-lt j n (omega arith))

-- The low `n` bits are all set in `2 ^ n - 1`.
pub bit-ones : (n k : ℕ) → k < n → bit (2 ^ n - 1) k ≡ 1
bit-ones n k h =
    ap (λ t. bit t k) whole
    ∙ bit-complement n 0 k (one-le-pow n 2 (omega arith)) h
    ∙ omega (arith, bit-zero k)
  where
    whole : 2 ^ n - 1 ≡ 2 ^ n - 1 - 0
    whole = omega arith

-- A cut to `n` bits keeps the bits below `n`.
pub bit-mod : (n a k : ℕ) → k < n → bit (a % 2 ^ n) k ≡ bit a k
bit-mod n a k h =
    ap (λ t. bit t k) (sym (bit_and_mask n a))
    ∙ bit-bit_and a (2 ^ n - 1) k
    ∙ omega (arith, bit-ones n k h, bit-lt-two a k)

-- `w & (1 << k)` is 0 exactly when bit `k` of `w` is 0.
pub bit_and_pow-zero_iff : (w k : ℕ) → (bit_and w (2 ^ k) ≡ 0) ↔ (bit w k ≡ 0)
bit_and_pow-zero_iff w k =
    (λ h. pos_factor (bit w k) (sym (bit_and_pow w k) ∙ h), λ h. bit_and_pow w k ∙ grind arith)
  where
    pos_factor : (b : ℕ) → b * 2 ^ k ≡ 0 → b ≡ 0
    pos_factor zero h = refl
    pos_factor (suc b) h = absurd (grind (arith, one-le-pow k 2))

-- A mask without low bits leaves the bits above them.
pub bit_and_high :
    (k q r m : ℕ) → r < 2 ^ k → bit_and (q * 2 ^ k + r) (m * 2 ^ k) ≡ bit_and q m * 2 ^ k
bit_and_high zero q r m h =
    let e : q * 2 ^ 0 + r ≡ q = omega arith in
    let f : m * 2 ^ 0 ≡ m = omega arith in ap₂ (λ s t. bit_and s t) e f ∙ omega arith
bit_and_high (suc k) q r m h = omega (
  arith,
  bit_and_halves (q * 2 ^ suc k + r) (m * 2 ^ suc k),
  pow-suc 2 k,
  ap₂ (λ s t. bit_and s t) halved mask,
  bit_and_high k q (r / 2) m (omega (arith, pow-suc 2 k)),
  mul-pow-suc q k,
  mul-pow-suc m k,
  mul-pow-suc (bit_and q m) k,
)
  where
    halved : (q * 2 ^ suc k + r) / 2 ≡ q * 2 ^ k + r / 2
    halved = omega (arith, mul-pow-suc q k)

    mask : m * 2 ^ suc k / 2 ≡ m * 2 ^ k
    mask = omega (arith, mul-pow-suc m k)
