-- ===== src/Image/Chs.antt =====
-- Positions as cylinder, head and sector, and back.
use fusee_os.Base.{
  ℕ, ◌+◌, ◌-◌, ◌*◌, ◌/◌, ◌%◌, ◌^◌, ◌≤◌, ◌<◌, ◌≡◌, refl, ◌∙◌, arith, true, ◌==◌, ==→eq, bit_and,
  bit_or, List, get_or,
}
use fusee_os.Base.Bits.{bit_and_mask}
use fusee_os.Base.Tables.{passes_to, passes_to_lem}
use fusee_os.Image.{to_chs, chs_bytes, lba_bytes}

-- The sector is one of 63 and the head one of 128, and the three give the position's sector back.
pub to_chs_round_trip :
    (lba : ℕ)
    → let (cyl, head, sec) = to_chs lba in
      (1 ≤ sec) × (sec ≤ 63) × (head < 128) × ((cyl * 128 + head) * 63 + (sec - 1) ≡ lba / 512)
unfolding to_chs
to_chs_round_trip lba = omega arith

high_bits_table : passes_to (λ x. bit_and x 0xc0 == x / 64 * 64) 256 ≡ true
unfolding passes_to
high_bits_table = refl

high_bits : (x : ℕ) → x < 256 → bit_and x 0xc0 ≡ x / 64 * 64
high_bits x h = ==→eq _ _ (passes_to_lem _ 256 x h high_bits_table)

joined_table : passes_to (λ v. bit_or (v % 64) (v / 64 * 64) == v) 256 ≡ true
unfolding passes_to
joined_table = refl

joined : (lo hi : ℕ) → lo < 64 → hi < 4 → bit_or lo (hi * 64) ≡ lo + hi * 64
joined lo hi p q =
    let v : ℕ = lo + hi * 64 in
    let low : v % 64 ≡ lo = omega arith in
    let high : v / 64 ≡ hi = omega arith in
    let whole = ==→eq _ _ (passes_to_lem _ 256 v (omega arith) joined_table) in
    rw (low, high) at whole

-- A cylinder below 1024, a head below 256 and a sector below 64 are read back from the three bytes
-- of a partition record: the head, the sector with the cylinder's two high bits, and its low byte.
pub chs_bytes_fields :
    (cyl head sec : ℕ)
    → cyl < 1024
    → head < 256
    → sec < 64
    → let bs = chs_bytes (cyl, head, sec) in
      (get_or bs 0 0 ≡ head)
      × (get_or bs 1 0 % 64 ≡ sec)
      × (get_or bs 1 0 / 64 * 256 + get_or bs 2 0 ≡ cyl)
unfolding chs_bytes
chs_bytes_fields cyl head sec hc hh hs =
    let low : bit_and sec 0x3f ≡ sec = bit_and_mask 6 sec ∙ omega arith in
    let high : bit_and (cyl / 4) 0xc0 ≡ cyl / 256 * 64 =
      high_bits (cyl / 4) (omega arith) ∙ omega arith in
    let both : bit_or (bit_and sec 0x3f) (bit_and (cyl / 4) 0xc0) ≡ sec + cyl / 256 * 64 =
      rw (low, high) (joined sec (cyl / 256) hs (omega arith)) in
    (omega arith, omega (arith, both), omega (arith, both))

-- Four little-endian bytes.
abbrev pub le32 : List ℕ → ℕ → ℕ
le32 bs i =
    get_or bs i 0
    + 2 ^ 8 * get_or bs (i + 1) 0
    + 2 ^ 16 * get_or bs (i + 2) 0
    + 2 ^ 24 * get_or bs (i + 3) 0

pub lba_bytes-le32 : (v : ℕ) → v < 2 ^ 32 → le32 (lba_bytes v) 0 ≡ v
unfolding lba_bytes
lba_bytes-le32 v h = omega (
  arith,
  bit_and_mask 8 v,
  bit_and_mask 8 (v / 2 ^ 8),
  bit_and_mask 8 (v / 2 ^ 16),
  bit_and_mask 8 (v / 2 ^ 24),
)
