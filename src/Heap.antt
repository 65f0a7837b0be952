-- ===== src/Heap.antt =====
-- The kernel heap, src/kernel/mem/kmalloc.c, and the bump allocator of IO addresses,
-- src/kernel/mem/alloc_io.c. Addresses are offsets from HEAP_BASE and IO_BASE. A header is kept
-- for each offset at which a HeapBlock may stand; the payloads are no part of the state. What
-- the heap asks of the page tables is kept as the list of its calls, the last first.
pub mod Chain
mod Tests
pub mod Best
pub mod Malloc
pub mod Free
use fusee_os.Base.{
  ℕ, zero, suc, ◌+◌, ◌-◌, ◌%◌, ◌^◌, Bool, true, false, ◌&&◌, not, Option, none, some, List, ◌∷◌,
  ltb, leb, ◌==◌, if◌then◌else◌, u64, sub64, store,
}
use fusee_os.Phys.{page_round}

-- `sizeof(HeapBlock)`
abbrev pub header_size : ℕ
header_size = 32

-- `HeapBlock`
pub record Cell : Type 0 where
  pub used : Bool
  pub size : ℕ

pub data MapCall : Type 0 where
  map_anon : ℕ → ℕ → MapCall
  unmap_anon : ℕ → ℕ → MapCall

pub record Heap : Type 0 where
  pub header : ℕ → Cell
  pub heap_size : ℕ
  pub calls : List MapCall

-- `(char*)blk + sizeof(HeapBlock) + blk->size`
abbrev pub next_block : (ℕ → Cell) → ℕ → ℕ
next_block h blk = blk + header_size + (h blk).size

-- The address returned is that behind the header; `size` is a field of 63 bits.
pub make_new_block : ℕ → Heap → ℕ × Heap
make_new_block size p =
    let blk = p.heap_size in
    let extra_size = page_round (u64 (size + header_size)) in
    (
      blk + header_size,
      record p {
        header =
            store p.header blk
              (record { used = true; size = sub64 extra_size header_size % 2 ^ 63 });
        heap_size = u64 (p.heap_size + extra_size);
        calls = map_anon blk extra_size ∷ p.calls;
      },
    )

-- `if (!best || best->size > blk->size) best = blk`
abbrev pub better : (ℕ → Cell) → ℕ → Option ℕ → Option ℕ
better h blk none = some blk
better h blk (some best) = if ltb (h blk).size (h best).size then some blk else some best

abbrev pub suits : (ℕ → Cell) → ℕ → ℕ → Bool
suits h size blk = not (h blk).used && leb size (h blk).size

-- The search of `kmalloc` on fuel; the outer `none` means that the fuel ran out.
pub best_from : ℕ → (ℕ → Cell) → ℕ → ℕ → ℕ → Option ℕ → Option (Option ℕ)
best_from zero h size end blk best = none
best_from (suc f) h size end blk best =
    let best' = if suits h size blk then better h blk best else best in
    let rest = best_from f h size end (next_block h blk) best' in
    if ltb blk end then rest else some best

-- `none` means that the fuel ran out.
pub kmalloc : ℕ → ℕ → Heap → Option (ℕ × Heap)
kmalloc fuel size p = elim (best_from fuel p.header size p.heap_size 0 none) [
  | none ↦ none
  | some (some best) ↦ some (
    best + header_size,
    record p { header = store p.header best (record (p.header best) { used = true }) },
  )
  | some none ↦ some (make_new_block size p)
]

-- The loop of `shrink` on fuel: the end of the last used block.
pub used_end : ℕ → (ℕ → Cell) → ℕ → ℕ → ℕ → Option ℕ
used_end zero h end blk new_size = none
used_end (suc f) h end blk new_size =
    let rest =
      used_end f h end (next_block h blk) (if (h blk).used then next_block h blk else new_size) in
    if ltb blk end then rest else some new_size

pub shrink : ℕ → Heap → Option Heap
shrink fuel p = elim (used_end fuel p.header p.heap_size 0 0) [
  | none ↦ none
  | some new_size ↦ some (record p {
    heap_size = new_size;
    calls = unmap_anon new_size (sub64 p.heap_size new_size) ∷ p.calls;
  })
]

-- `kfree` of the payload at an address, `none` for NULL.
pub kfree : ℕ → Option ℕ → Heap → Option Heap
kfree fuel none p = some p
kfree fuel (some addr) p =
    let blk = addr - header_size in
    let p' = record p { header = store p.header blk (record (p.header blk) { used = false }) } in
    let shrunk = shrink fuel p' in
    if addr + (p'.header blk).size == p.heap_size then shrunk else some p'

-- `io_alloc` on `gKernel.io_size`: the address and the new size.
pub io_alloc : ℕ → ℕ → ℕ × ℕ
io_alloc size io_size = (io_size, u64 (io_size + page_round size))
