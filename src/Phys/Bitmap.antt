-- ===== src/Phys/Bitmap.antt =====
-- The bits of a block's bitmaps under `mark_page_used` and `mark_page_free`.
use fusee_os.Base.{
  ℕ, zero, suc, ◌+◌, ◌/◌, ◌%◌, ◌^◌, ◌<◌, ◌≡◌, refl, ◌∙◌, bit_and, bit_or, arith, ◌&&◌, Bool-cases,
  inl, inr, ◌==◌, if◌then◌else◌, u8, not32, Memory, ==→eq, ==→ne, ◌↔◌,
}
use fusee_os.Base.Bits.{
  bit, bit-mod, bit-bit_and, bit-bit_or, bit-complement, bit-pow_self, bit-pow_ne, two-pow-lt,
  bit-lt-two, bit_and_pow-zero_iff,
}
use fusee_os.Phys.{clear_bit, set_bit, test_bit, set_orders, clear_orders}

-- Bit `k` of the bitmap of order `j`.
abbrev pub page_bit : (ℕ → Memory) → ℕ → ℕ → ℕ
page_bit bm j k = bit (bm j (k / 8)) (k % 8)

one_bit : (k i : ℕ) → bit (2 ^ k) i ≡ (if k == i then 1 else 0)
one_bit k i = elim (Bool-cases (k == i)) [
  | inl same ↦ rw (same, ==→eq k i same) (bit-pow_self i)
  | inr other ↦ rw other (bit-pow_ne k i (==→ne k i other))
]

cleared_byte :
    (v k i : ℕ)
    → k < 8
    → i < 8
    → bit (u8 (bit_and v (not32 (2 ^ k)))) i ≡ (if k == i then 0 else bit v i)
cleared_byte v k i hk hi =
    bit-mod 8 (bit_and v (not32 (2 ^ k))) i hi
    ∙ bit-bit_and v (not32 (2 ^ k)) i
    ∙ ground (
      arith,
      bit-complement 32 (2 ^ k) i (two-pow-lt k 32 (omega arith)) (omega arith),
      one_bit k i,
      bit-lt-two v i,
    )

set_byte :
    (v k i : ℕ) → k < 8 → i < 8 → bit (u8 (bit_or v (2 ^ k))) i ≡ (if k == i then 1 else bit v i)
set_byte v k i hk hi =
    bit-mod 8 (bit_or v (2 ^ k)) i hi
    ∙ bit-bit_or v (2 ^ k) i
    ∙ ground (arith, one_bit k i, bit-lt-two v i)

module _ (bm : ℕ → Memory) where
  pub page_bit-clear_bit :
      (j off i k : ℕ)
      → page_bit (clear_bit bm j off) i k ≡ (if (j == i) && (off == k) then 0 else page_bit bm i k)
  unfolding clear_bit
  page_bit-clear_bit j off i k = ground (arith, cleared_byte (bm j (off / 8)) (off % 8) (k % 8))

  pub page_bit-set_bit :
      (j off i k : ℕ)
      → page_bit (set_bit bm j off) i k ≡ (if (j == i) && (off == k) then 1 else page_bit bm i k)
  unfolding set_bit
  page_bit-set_bit j off i k = ground (arith, set_byte (bm j (off / 8)) (off % 8) (k % 8))

  pub test_bit-zero_iff : (j off : ℕ) → (test_bit bm j off ≡ 0) ↔ (page_bit bm j off ≡ 0)
  unfolding test_bit
  test_bit-zero_iff j off = ground (arith, bit_and_pow-zero_iff (bm j (off / 8)) (off % 8))

-- The bits of lower orders stay as they are.
set_orders_below :
    (n j off : ℕ) (bm : ℕ → Memory) (i k : ℕ)
    → i < j
    → page_bit (set_orders n j off bm) i k ≡ page_bit bm i k
unfolding set_orders
set_orders_below zero j off bm i k h = refl
set_orders_below (suc n) j off bm i k h = ground (
  arith,
  set_orders_below n (j + 1) (off / 2) (set_bit bm j off) i k,
  page_bit-set_bit bm j off i k,
)

clear_orders_below :
    (shl3 : ℕ → ℕ) (n j off : ℕ) (bm : ℕ → Memory) (i k : ℕ)
    → i < j
    → page_bit (clear_orders shl3 n j off bm) i k ≡ page_bit bm i k
unfolding clear_orders
clear_orders_below shl3 zero j off bm i k h = refl
clear_orders_below shl3 (suc n) j off bm i k h = ground (
  arith,
  clear_orders_below shl3 n (j + 1) (off / 2) (clear_bit bm j off) i k,
  page_bit-clear_bit bm j off i k,
)

-- At the order where it begins, `mark_page_used` sets the bit of the page and no other.
pub set_orders_first :
    (n j off : ℕ) (bm : ℕ → Memory) (k : ℕ)
    → page_bit (set_orders (suc n) j off bm) j k ≡ (if off == k then 1 else page_bit bm j k)
unfolding set_orders
set_orders_first n j off bm k = ground (
  arith,
  set_orders_below n (j + 1) (off / 2) (set_bit bm j off) j k,
  page_bit-set_bit bm j off j k,
  test_bit-zero_iff bm j off,
  bit-lt-two (bm j (off / 8)) (off % 8),
)

-- At the order where it begins, `mark_page_free` clears the bit of the page and no other.
pub clear_orders_first :
    (shl3 : ℕ → ℕ) (n j off : ℕ) (bm : ℕ → Memory) (k : ℕ)
    → page_bit (clear_orders shl3 (suc n) j off bm) j k ≡ (if off == k then 0 else page_bit bm j k)
unfolding clear_orders
clear_orders_first shl3 n j off bm k = ground (
  arith,
  clear_orders_below shl3 n (j + 1) (off / 2) (clear_bit bm j off) j k,
  page_bit-clear_bit bm j off j k,
)
