-- ===== src/Phys.antt =====
-- The physical page allocator, src/kernel/mem/alloc_page.c, with page_count and page_round of
-- src/kernel/mem.h. A block's bitmaps are functions of the order and of the byte's offset, and
-- the buffers behind them do not overlap. `alloc->blocks` is the list of its entries.
pub mod Bitmap
mod Tests
pub mod Samples
pub mod Marks
pub mod Scan
pub mod Valid
pub mod Alloc
pub mod Contract
pub mod Init
pub mod Early
use fusee_os.Base.{
  ℕ, zero, suc, ◌+◌, ◌-◌, ◌*◌, ◌/◌, ◌%◌, bit_and, bit_or, Bool, true, false, ◌&&◌, Option, none,
  some, List, [], ◌∷◌, ltb, leb, ◌==◌, if◌then◌else◌, u8, u32, u64, sub64, not32, ◌<<<◌, Memory,
  store,
}

abbrev pub page_size : ℕ
page_size = 4096

abbrev pub pmb_max_order : ℕ
pmb_max_order = 8

abbrev pub bad_page : ℕ
bad_page = 0xffff_ffff_ffff_ffff

unfoldable pub page_count : ℕ → ℕ
page_count size = u64 (size + page_size - 1) / page_size

unfoldable pub page_round : ℕ → ℕ
unfolding page_count
page_round size = u64 (page_count size * page_size)

-- `PhysicalMemoryBlock`
pub record Block : Type 0 where
  pub base : ℕ
  pub npages : ℕ
  pub bitmap : ℕ → Memory

-- `PhysicalMemoryAllocator`
pub record Allocator : Type 0 where
  pub blocks : List Block
  pub pages_total : ℕ
  pub pages_free : ℕ

-- `page >= mblock->base && page < mblock->base + mblock->npages * PAGESIZE`
pub in_block : Block → ℕ → Bool
in_block b page = leb b.base page && ltb page (u64 (b.base + b.npages * page_size))

-- `bitmap[j][off / 8] &= ~(1 << (off % 8))`
pub clear_bit : (ℕ → Memory) → ℕ → ℕ → ℕ → Memory
clear_bit bm j off =
    store bm j (store (bm j) (off / 8) (u8 (bit_and (bm j (off / 8)) (not32 (1 <<< (off % 8))))))

-- `bitmap[j][off / 8] |= (1 << (off % 8))`
pub set_bit : (ℕ → Memory) → ℕ → ℕ → ℕ → Memory
set_bit bm j off =
    store bm j (store (bm j) (off / 8) (u8 (bit_or (bm j (off / 8)) (1 <<< (off % 8)))))

-- `bitmap[j][off / 8] & (1 << (off % 8))`
pub test_bit : (ℕ → Memory) → ℕ → ℕ → ℕ
test_bit bm j off = bit_and (bm j (off / 8)) (1 <<< (off % 8))

-- `mark_page_used` from order `j` with `n` orders left.
pub set_orders : ℕ → ℕ → ℕ → (ℕ → Memory) → ℕ → Memory
set_orders zero j off bm = bm
set_orders (suc n) j off bm = elim (test_bit bm j off == 0) [
  | false ↦ bm
  | true ↦ set_orders n (j + 1) (off / 2) (set_bit bm j off)
]

-- The loop over the blocks: the first that holds the page is changed, and the loop returns.
pub mark_page_used : ℕ → List Block → List Block
mark_page_used page [] = []
mark_page_used page (b ∷ bs) =
    if in_block b page
    then record b { bitmap = set_orders pmb_max_order 0 ((page - b.base) / page_size) b.bitmap }
      ∷ bs
    else b ∷ mark_page_used page bs

-- `3 << s` is an `int` shift by a count that reaches beyond 31, where C leaves it undefined:
-- what the compiled code computes is a parameter.
module _ (shl3 : ℕ → ℕ) where
  -- `mark_page_free` from order `j` with `n` orders left. `off & ~1` is `off - off % 2`.
  pub clear_orders : ℕ → ℕ → ℕ → (ℕ → Memory) → ℕ → Memory
  clear_orders zero j off bm = bm
  clear_orders (suc n) j off bm =
      let bm' = clear_bit bm j off in
      elim (bit_and (bm' j (off / 8)) (shl3 (off - off % 2)) == 0) [
        | true ↦ clear_orders n (j + 1) (off / 2) bm'
        | false ↦ bm'
      ]

  pub mark_page_free : ℕ → List Block → List Block
  mark_page_free page [] = []
  mark_page_free page (b ∷ bs) =
      if in_block b page
      then record b { bitmap = clear_orders pmb_max_order 0 ((page - b.base) / page_size) b.bitmap }
        ∷ bs
      else b ∷ mark_page_free page bs

  -- `for (i ...; i < npages; ++i) mark_page_free(page + i * PAGESIZE)`
  pub free_pages_from : ℕ → ℕ → ℕ → List Block → List Block
  free_pages_from zero i page bs = bs
  free_pages_from (suc n) i page bs =
      free_pages_from n (i + 1) page (mark_page_free (u64 (page + i * page_size)) bs)

  pub free_phys_pages : ℕ → ℕ → Allocator → Allocator
  free_phys_pages page npages a = record a {
    blocks = free_pages_from npages 0 page a.blocks;
    pages_free = u64 (a.pages_free + npages);
  }

  pub free_phys : ℕ → ℕ → Allocator → Allocator
  free_phys page size a = free_phys_pages page (page_count size) a

-- The little-endian number in the `n` bytes from `a` on.
unfoldable pub load_le : ℕ → Memory → ℕ → ℕ
load_le zero m a = 0
load_le (suc n) m a = m a + 256 * load_le n m (a + 1)

-- `for (k ...; k < 64; ++k) if (!(tmp & (1ull << k)))`, from `k` with `n` rounds left.
pub find_zero_bit : ℕ → ℕ → ℕ → Option ℕ
find_zero_bit zero k tmp = none
find_zero_bit (suc n) k tmp =
    if bit_and tmp (1 <<< k) == 0 then some k else find_zero_bit n (k + 1) tmp

-- The page number found in word `j`, if any.
pub find_in_word : Memory → ℕ → Option ℕ
find_in_word bitmap j =
    let tmp = load_le 8 bitmap (8 * j) in
    if tmp == 0xffff_ffff_ffff_ffff then none else find_zero_bit 64 0 tmp

-- The loop over the words of a block, from word `j` with `n` words left: the index of a page.
pub find_in_words : ℕ → ℕ → Memory → Option ℕ
find_in_words zero j bitmap = none
find_in_words (suc n) j bitmap = elim (find_in_word bitmap j) [
  | some k ↦ some (j * 64 + k)
  | none ↦ find_in_words n (j + 1) bitmap
]

-- `(mblock->npages + 63) / 64`
pub bitmap_words : ℕ → ℕ
bitmap_words npages = u64 (npages + 63) / 64

pub data Search : Type 0 where
  found : ℕ → Search
  exhausted : Search
  past_end : Search

-- The loop over the blocks, which ends at a block without pages. `past_end` is a read behind
-- the last entry of the array.
pub find_page : List Block → Search
find_page [] = past_end
find_page (b ∷ bs) =
    let next = find_page bs in
    if b.npages == 0
    then exhausted
    else elim (find_in_words (bitmap_words b.npages) 0 (b.bitmap 0)) [
      | some k ↦ found (u64 (b.base + k * page_size))
      | none ↦ next
    ]

-- `none` is the read behind the array.
pub alloc_phys_pages : ℕ → Allocator → Option (ℕ × Allocator)
alloc_phys_pages npages a =
    if npages == 1
    then (elim (find_page a.blocks) [
      | found page ↦ some (
        page,
        record a { blocks = mark_page_used page a.blocks; pages_free = sub64 a.pages_free 1 },
      )
      | exhausted ↦ some (bad_page, a)
      | past_end ↦ none
    ])
    else some (bad_page, a)

pub alloc_phys : ℕ → Allocator → Option (ℕ × Allocator)
alloc_phys size a = alloc_phys_pages (u32 (u64 (size + page_size - 1) / page_size)) a

-- `BootMemRegion`
pub record Region : Type 0 where
  pub base : ℕ
  pub size : ℕ

-- The loop of `alloc_phys_early`, with `n` rounds left; 0 if no region is large enough.
pub take_early : ℕ → ℕ → List Region → ℕ × List Region
take_early zero size rs = (0, rs)
take_early (suc n) size [] = (0, [])
take_early (suc n) size (r ∷ rs) =
    let (base, rs') = take_early n size rs in
    if leb size r.size
    then (r.base, record { base = u64 (r.base + size); size = r.size - size } ∷ rs)
    else (base, r ∷ rs')

-- `npages * PAGESIZE` is an `int`; the callers pass small counts.
pub alloc_phys_early : ℕ → List Region → ℕ × List Region
alloc_phys_early npages rs = take_early 32 (npages * page_size) rs
