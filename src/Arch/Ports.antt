-- ===== src/Arch/Ports.antt =====
-- What is written to the interrupt controller and to the timer.
use fusee_os.Base.{
  ℕ, ◌+◌, ◌-◌, ◌*◌, ◌/◌, ◌%◌, ◌^◌, ◌≤◌, ◌<◌, ◌≡◌, ◌≢◌, refl, sym, ◌∙◌, ap, ap₂, arith, min, max,
  bit_and, bit_or, u8, u32, not32, ◌<<<◌, u16, u64, [], ◌∷◌,
}
use fusee_os.Base.Bits.{
  bit, bit-bit_and, bit-bit_or, bit-complement, bit-mod, bit-pow_self, bit-pow_ne, bit-lt-two,
  two-pow-lt, bit_and_mask, bit_or_fields,
}
use fusee_os.Arch.{
  Out, out8, io_wait, pic_port, pic_line, pic_enable, pic_disable, timer_ns, wrmsr, rdmsr,
  wrmsr_halves,
}

pic_line-lt : (i : ℕ) → i < 16 → pic_line i < 8
pic_line-lt i h = ground arith

line_mask : (line : ℕ) → line < 8 → 1 * 2 ^ line % 2 ^ 32 ≡ 2 ^ line
line_mask line h = omega (arith, two-pow-lt line 32 (omega arith))

cleared : ℕ → ℕ → ℕ
cleared v line = u8 (bit_and v (not32 (u32 (1 <<< line))))

bit-cleared :
    (v line k : ℕ)
    → line < 8
    → k < 8
    → bit (cleared v line) k ≡ min (bit v k) (1 - bit (2 ^ line) k)
unfolding cleared
bit-cleared v line k h hk = rw (line_mask line h) (
    bit-mod 8 (bit_and v (2 ^ 32 - 1 - 2 ^ line)) k hk
    ∙ bit-bit_and v (2 ^ 32 - 1 - 2 ^ line) k
    ∙ ap (min (bit v k))
        (bit-complement 32 (2 ^ line) k (two-pow-lt line 32 (omega arith)) (omega arith)))

added : ℕ → ℕ → ℕ
added v line = u8 (bit_or v (u32 (1 <<< line)))

bit-added :
    (v line k : ℕ) → line < 8 → k < 8 → bit (added v line) k ≡ max (bit v k) (bit (2 ^ line) k)
unfolding added
bit-added v line k h hk =
    rw (line_mask line h) (bit-mod 8 (bit_or v (2 ^ line)) k hk ∙ bit-bit_or v (2 ^ line) k)

-- `out` writes to the port of the controller of line `i` its mask, as `in8` reads it, with the bit
-- of line `i` set to `value`.
pub record Masks (in8 : ℕ → ℕ) (i value : ℕ) (out : Out) : Type 0 where
  pub mask : ℕ
  pub written : out ≡ out8 (pic_port i) mask
  pub byte : mask < 256
  pub line : bit mask (pic_line i) ≡ value
  pub others : (k : ℕ) → k < 8 → k ≢ pic_line i → bit mask k ≡ bit (in8 (pic_port i)) k

-- `pic_enable` of a line below 16 writes to the data port of its controller the mask that the port
-- reads, with the bit of the line cleared and the other seven kept.
pub pic_enable-Masks : (in8 : ℕ → ℕ) (i : ℕ) → i < 16 → Masks in8 i 0 (pic_enable in8 i)
unfolding pic_enable cleared
pic_enable-Masks in8 i h =
    let v = in8 (pic_port i) in
    let line = pic_line i in
    let below = pic_line-lt i h in
    record {
      mask = cleared v line;
      written = refl;
      byte = omega arith;
      line =
          omega (arith, bit-cleared v line line below below, bit-pow_self line, bit-lt-two v line);
      others = λ k hk ne. omega (
        arith,
        bit-cleared v line k below hk,
        bit-pow_ne line k (λ e. ne (sym e)),
        bit-lt-two v k,
      );
    }

-- `pic_disable` of a line below 16 writes to the data port of its controller the mask that the port
-- reads, with the bit of the line set and the other seven kept.
pub pic_disable-Masks : (in8 : ℕ → ℕ) (i : ℕ) → i < 16 → Masks in8 i 1 (pic_disable in8 i)
unfolding pic_disable added
pic_disable-Masks in8 i h =
    let v = in8 (pic_port i) in
    let line = pic_line i in
    let below = pic_line-lt i h in
    record {
      mask = added v line;
      written = refl;
      byte = omega arith;
      line = omega (arith, bit-added v line line below below, bit-pow_self line, bit-lt-two v line);
      others = λ k hk ne.
          omega (
            arith,
            bit-added v line k below hk,
            bit-pow_ne line k (λ e. ne (sym e)),
            bit-lt-two v k,
          );
    }

-- A request of at most 18 seconds loads counter 0 with the low and then the high byte of one number
-- of 16 bits, the nanoseconds by 10^9 over 1193182, and then unmasks the timer's line.
pub timer_ns-loads :
    (in8 : ℕ → ℕ) (ns : ℕ)
    → ns ≤ 18_000_000_000
    → (lo : ℕ) × (hi : ℕ) × (lo < 256)
      × (hi < 256)
      × (lo + 256 * hi ≡ ns * 1_000_000_000 / 1193182 % 2 ^ 16)
      × (timer_ns in8 ns
          ≡ out8 0x43 0x34
            ∷ io_wait
            ∷ out8 0x40 lo
            ∷ io_wait
            ∷ out8 0x40 hi
            ∷ pic_enable in8 0
            ∷ [])
unfolding timer_ns
timer_ns-loads in8 ns h =
    let divider = u16 (u64 (ns * 1_000_000_000) / 1193182) in
    let low = bit_and_mask 8 divider in
    (
      bit_and divider 0xff,
      u8 (divider / 2 ^ 8),
      omega (arith, low),
      omega arith,
      omega (arith, low),
      refl,
    )

-- A model-specific register whose two halves are read by `rdmsr` is written back by `wrmsr` as it
-- was.
pub wrmsr-rdmsr :
    (msr lo hi : ℕ) → lo < 2 ^ 32 → hi < 2 ^ 32 → wrmsr msr (rdmsr lo hi) ≡ wrmsr_halves msr lo hi
unfolding wrmsr rdmsr
wrmsr-rdmsr msr lo hi p q =
    let whole = bit_or_fields 32 hi lo p in
    let low : bit_and (bit_or (hi * 2 ^ 32) lo) 0xffff_ffff ≡ lo =
      rw whole (bit_and_mask 32 (hi * 2 ^ 32 + lo) ∙ omega arith) in
    let high : bit_or (hi * 2 ^ 32) lo / 2 ^ 32 % 2 ^ 32 ≡ hi = omega (arith, whole) in
    ap₂ (wrmsr_halves msr) low high
