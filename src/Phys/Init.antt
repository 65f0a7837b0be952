-- ===== src/Phys/Init.antt =====
-- `init_physical_memory` of src/kernel/mem/alloc_page.c: the blocks of the memory zones and the
-- pages that are free at the start. `gBootParams.mem_map` and `gBootParams.mem_free` are lists
-- of their entries, and `ram` gives what memory holds before.
pub mod Steps
pub mod Fresh
pub mod Blocks
pub mod Ready
mod Tests
use fusee_os.Base.{
  ℕ, zero, suc, ◌+◌, ◌-◌, ◌*◌, ◌/◌, Bool, not, ◌&&◌, true, false, Option, none, some, List, [], ◌∷◌,
  ltb, ◌==◌, if◌then◌else◌, u32, u64, Memory, store,
}
use fusee_os.Phys.{
  Block, Allocator, Region, page_size, pmb_max_order, alloc_phys_early, mark_page_free,
}

-- The buffer at `a` after `memset(.., 0xff, size)`.
pub filled : Memory → ℕ → ℕ → Memory
filled ram a size o = if ltb o size then 0xff else ram (a + o)

-- The loop over the orders, from `j` with `n` orders left.
pub bitmaps_from : Memory → ℕ → ℕ → ℕ → (ℕ → Memory) → List Region → (ℕ → Memory) × List Region
bitmaps_from ram zero j pages bm mem_free = (bm, mem_free)
bitmaps_from ram (suc n) j pages bm mem_free =
    let (a, mem_free') = alloc_phys_early pages mem_free in
    let bm' = store bm j (filled ram a (u64 (pages * page_size))) in
    bitmaps_from ram n (j + 1) (u64 (pages + 1) / 2) bm' mem_free'

-- `bitmap_size_pages` of order 0.
pub bitmap_pages : ℕ → ℕ
bitmap_pages npages = u64 (npages + page_size * 8 - 1) / (page_size * 8)

-- The block of one region, and what the bitmaps leave free.
pub init_block : Memory → Region → Block → List Region → Block × List Region
init_block ram reg b mem_free =
    let npages = reg.size / page_size in
    let (bm, mem_free') =
      bitmaps_from ram pmb_max_order 0 (bitmap_pages npages) b.bitmap mem_free in
    (record { base = reg.base; npages = npages; bitmap = bm }, mem_free')

-- The blocks, `pages_total` and `mem_free` after the loop over the zones.
pub record Zones : Type 0 where
  pub blocks : List Block
  pub total : ℕ
  pub mem_free : List Region

-- Whether `alloc_phys_early` has memory for each of the `n` bitmaps that are left: its result is
-- not 0.
pub bitmaps_served : ℕ → ℕ → List Region → Bool
bitmaps_served zero pages mem_free = true
bitmaps_served (suc n) pages mem_free =
    let (a, mem_free') = alloc_phys_early pages mem_free in
    not (a == 0) && bitmaps_served n (u64 (pages + 1) / 2) mem_free'

abbrev pub cons_block : Bool → Block → Option Zones → Option Zones
cons_block false b z = none
cons_block true b none = none
cons_block true b (some z) = some (record z { blocks = b ∷ z.blocks })

-- The loop over the zones, which ends at an entry of size 0. `none` is an access behind the last
-- entry of one of the arrays, or a bitmap for which there is no memory: the source goes on with the
-- one at physical address 0, which all such bitmaps share.
pub init_blocks : Memory → List Region → List Block → ℕ → List Region → Option Zones
init_blocks ram [] bs total mem_free = none
init_blocks ram (reg ∷ regs) [] total mem_free =
    if reg.size == 0
    then some (record { blocks = []; total = total; mem_free = mem_free })
    else none
init_blocks ram (reg ∷ regs) (b ∷ bs) total mem_free = elim (reg.size == 0) [
  | true ↦ some (record { blocks = b ∷ bs; total = total; mem_free = mem_free })
  | false ↦
      let (b', mem_free') = init_block ram reg b mem_free in
      cons_block (bitmaps_served pmb_max_order (bitmap_pages b'.npages) mem_free) b'
        (init_blocks ram regs bs (u64 (total + b'.npages)) mem_free')
]

module _ (shl3 : ℕ → ℕ) where
  -- `for (unsigned int j ...) { mark_page_free(reg->base + j * PAGESIZE); alloc->pages_free++; }`,
  -- from `j` with `n` rounds left.
  pub free_region : ℕ → ℕ → ℕ → Allocator → Allocator
  free_region zero j base a = a
  free_region (suc n) j base a = free_region n (j + 1) base (record a {
    blocks = mark_page_free shl3 (u64 (base + u32 (j * page_size))) a.blocks;
    pages_free = u64 (a.pages_free + 1);
  })

  -- The loop over the free regions, with `n` rounds left.
  pub free_regions : ℕ → List Region → Allocator → Allocator
  free_regions zero rs a = a
  free_regions (suc n) [] a = a
  free_regions (suc n) (r ∷ rs) a = free_regions n rs (free_region (r.size / page_size) 0 r.base a)

  -- The allocator and `mem_free` afterwards.
  pub init_physical_memory :
      Memory → List Region → List Region → Allocator → Option (Allocator × List Region)
  init_physical_memory ram mem_map mem_free a =
      elim (init_blocks ram mem_map a.blocks a.pages_total mem_free) [
        | none ↦ none
        | some z ↦ some (
          free_regions 32 z.mem_free (record a { blocks = z.blocks; pages_total = z.total }),
          z.mem_free,
        )
      ]
