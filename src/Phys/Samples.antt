-- ===== src/Phys/Samples.antt =====
-- Page allocators for the tests: a block whose first page alone is free.
use fusee_os.Base.{ℕ, ◌*◌, ◌≡◌, ◌^◌, ◌≤◌, ◌<◌, refl, arith, ◌==◌, if◌then◌else◌, none, [], ◌∷◌}
use fusee_os.Phys.{Block, Allocator, bitmap_words}
use fusee_os.Phys.Marks.{page_state}
use fusee_os.Phys.Valid.{IsValid, IsLive, end, live}

abbrev pub zone : Block
zone = record { base = 0x1000000; npages = 64; bitmap = λ j o. if o == 0 then 0xfe else 0xff }

abbrev pub no_block : Block
no_block = record { base = 0; npages = 0; bitmap = λ j o. 0 }

abbrev pub allocator : Allocator
allocator = record { blocks = zone ∷ no_block ∷ []; pages_total = 64; pages_free = 1 }

-- `3 << s` of a machine that takes the count modulo 32.
abbrev pub machine_shl3 : ℕ → ℕ
machine_shl3 s = 3 * 2 ^ s

pub zone-IsLive : IsLive zone
unfolding bitmap_words
zone-IsLive = record {
  pages = omega arith;
  fits = omega arith;
  is_bytes = λ a. ground arith;
  padding = λ k lo hi. absurd (small k lo hi);
}
  where
    small : (k : ℕ) → 64 ≤ k → k < 64 → ⊥
    small k lo hi = omega arith

pub no_page : (q : ℕ) → page_state [] q ≡ none
unfolding page_state
no_page q = refl

pub allocator-IsValid : IsValid allocator.blocks
allocator-IsValid =
    live zone-IsLive (λ k h. absurd (omega arith), tt) (end refl (omega arith) no_page)
