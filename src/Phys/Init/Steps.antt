-- ===== src/Phys/Init/Steps.antt =====
-- The loops of `init_physical_memory`.
use fusee_os.Base.{
  ℕ, zero, suc, ◌+◌, ◌*◌, ◌^◌, ◌≤◌, ◌<◌, ◌≡◌, refl, ◌∙◌, arith, List, u32, u64, Memory,
}
use fusee_os.Phys.{Allocator, Region, page_size, free_pages_from, alloc_phys_early}
use fusee_os.Phys.Scan.{IsBytes}
use fusee_os.Phys.Init.{filled, bitmaps_from, free_region}

-- The loop over the pages of a region is `free_phys_pages`, as long as `j * PAGESIZE` fits in an
-- `unsigned int`.
pub free_region-eq-free_pages_from :
    (shl3 : ℕ → ℕ) (n j base : ℕ) (a : Allocator)
    → (j + n) * page_size ≤ 2 ^ 32
    → a.pages_free < 2 ^ 64
    → free_region shl3 n j base a ≡ record a {
      blocks = free_pages_from shl3 n j base a.blocks;
      pages_free = u64 (a.pages_free + n);
    }
unfolding free_region free_pages_from
free_region-eq-free_pages_from shl3 zero j base a fits count =
    let e : u64 (a.pages_free + 0) ≡ a.pages_free = omega arith in rw e refl
free_region-eq-free_pages_from shl3 (suc n) j base a fits count =
    let w : u32 (j * page_size) ≡ j * page_size = omega arith in
    let c : u64 (u64 (a.pages_free + 1) + n) ≡ u64 (a.pages_free + suc n) = omega arith in
    rw (w)
      (free_region-eq-free_pages_from shl3 n (j + 1) base _ (omega arith) (omega arith) ∙ rw c refl)

module _ (ram : Memory) (ram_bytes : IsBytes ram) where
  pub filled-IsBytes : (a size : ℕ) → IsBytes (filled ram a size)
  unfolding filled
  filled-IsBytes a size o = ground (arith, ram_bytes (a + o))

  -- Later orders leave the bitmap of order 0.
  bitmaps_from-lower :
      (n j pages i : ℕ) (bm : ℕ → Memory) (rs : List Region)
      → i < j
      → (bitmaps_from ram n j pages bm rs).0 i ≡ bm i
  unfolding bitmaps_from
  bitmaps_from-lower zero j pages i bm rs h = refl
  bitmaps_from-lower (suc n) j pages i bm rs h =
      bitmaps_from-lower n (j + 1) _ i _ _ (omega arith) ∙ ground arith

  pub bitmaps_from-first :
      (n j pages : ℕ) (bm : ℕ → Memory) (rs : List Region)
      → (bitmaps_from ram (suc n) j pages bm rs).0 j
        ≡ filled ram ((alloc_phys_early pages rs).0) (u64 (pages * page_size))
  unfolding bitmaps_from
  bitmaps_from-first n j pages bm rs =
      bitmaps_from-lower n (j + 1) _ j _ _ (omega arith) ∙ ground arith
