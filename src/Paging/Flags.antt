-- ===== src/Paging/Flags.antt =====
-- The flags of an entry, bit by bit, after `kmprotect` has changed it.
use fusee_os.Base.{
  ℕ, ◌-◌, ◌*◌, ◌^◌, ◌<◌, ◌≡◌, ◌∙◌, arith, max, bit_and, bit_or, ◌==◌, if◌then◌else◌, ℕ_discrete,
  not64,
}
use fusee_os.Base.Bits.{
  bit, bit-lt-two, bit-bit_and, bit-bit_or, bit-complement, bit-pow_self, bit-pow_ne, bit_and_pow,
  bit_or-lt, bit-zero,
}
use fusee_os.Paging.{page_prot_flags, protected}

bit-pow : (j k : ℕ) → bit (2 ^ j) k ≡ (if k == j then 1 else 0)
bit-pow j k = elim (ℕ_discrete j k) [
  | yes e ↦ rw e (bit-pow_self k ∙ ground arith)
  | no ne ↦ bit-pow_ne j k ne ∙ ground (arith, ne)
]

-- The flags, with the tests of `prot` as bits.
bit-page_prot_flags :
    (nx prot k : ℕ)
    → bit (page_prot_flags nx prot) k
      ≡ max
          (max (if k == 1 then bit prot 1 else 0) (if k == 2 then bit prot 3 else 0))
          ((1 - bit prot 2) * bit nx k)
unfolding page_prot_flags
bit-page_prot_flags nx prot k = ground (
  arith,
  bit_and_pow prot 1,
  bit_and_pow prot 2,
  bit_and_pow prot 3,
  bit-lt-two prot 1,
  bit-lt-two prot 2,
  bit-lt-two prot 3,
  bit-lt-two nx k,
  bit-pow 1 k,
  bit-pow 2 k,
  bit-zero k,
  bit-bit_or 0 nx k,
  bit-bit_or 2 nx k,
  bit-bit_or 0 4 k,
  bit-bit_or 2 4 k,
  bit-bit_or (bit_or 0 4) nx k,
  bit-bit_or (bit_or 2 4) nx k,
)

-- `kmprotect` sets the write bit and the user bit of an entry as `prot` says, and each bit of
-- `nx_mask` unless `prot` allows to execute; every other bit of the entry stays. `nx_mask` is a
-- 64-bit mask without the write bit and the user bit.
pub protected_bits :
    (nx prot e k : ℕ)
    → nx < 2 ^ 64
    → bit nx 1 ≡ 0
    → bit nx 2 ≡ 0
    → k < 64
    → bit (protected nx prot e) k ≡ (
        if k == 1
        then bit prot 1
        else (if k == 2 then bit prot 3 else (if bit nx k == 1 then 1 - bit prot 2 else bit e k)))
protected_bits nx prot e k small write user below =
    let mask = bit_or (bit_or 4 2) nx in
    let kept = bit_and e (not64 mask) in
    ground (
      arith,
      bit-bit_or kept (page_prot_flags nx prot) k,
      bit-bit_and e (not64 mask) k,
      bit-complement 64 mask k (bit_or-lt 64 6 nx (omega arith) small) below,
      bit-bit_or 6 nx k,
      bit-bit_or 4 2 k,
      bit-pow 1 k,
      bit-pow 2 k,
      bit-page_prot_flags nx prot k,
      bit-lt-two nx k,
      bit-lt-two e k,
      bit-lt-two prot 1,
      bit-lt-two prot 2,
      bit-lt-two prot 3,
    )
