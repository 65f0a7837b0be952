-- ===== src/Paging.antt =====
-- The page tables, src/kernel/mem/mmap.c. A table is a page of entries at its physical address,
-- which the kernel reads through the mapping of all physical memory. The counts of the iterator are
-- `int`; they stand for themselves, for ranges of fewer than 2^31 pages.
pub mod Maps
pub mod Changes
pub mod Flags
pub mod Walk
pub mod Lowest
pub mod Protect
pub mod Physical
mod Tests
use fusee_os.Base.{
  ℕ, zero, suc, ◌+◌, ◌-◌, ◌*◌, ◌/◌, ◌%◌, ◌^◌, bit_and, bit_or, Bool, true, false, Option, none,
  some, List, [], ◌∷◌, ◌==◌, ltb, if◌then◌else◌, u64, not64, ◌<<<◌, ◌>>>◌, store,
}
use fusee_os.Phys.{Allocator, alloc_phys_pages, page_size}

abbrev pub page_present : ℕ
page_present = 0x01

abbrev pub page_write : ℕ
page_write = 0x02

abbrev pub page_user : ℕ
page_user = 0x04

abbrev pub kprot_write : ℕ
kprot_write = 0x02

abbrev pub kprot_execute : ℕ
kprot_execute = 0x04

abbrev pub kprot_user : ℕ
kprot_user = 0x08

abbrev pub mmask_phys : ℕ
mmask_phys = 0x7ffffffffffff000

-- The entries of the tables, by the table's address and the index.
abbrev pub Tables : Type 0
Tables = ℕ → ℕ → ℕ

-- `PageIterator`; the four levels are indices.
pub record PageIterator : Type 0 where
  pub dir : ℕ → ℕ
  pub offset : ℕ → ℕ
  pub len : ℕ → ℕ
  pub len_current : ℕ → ℕ
  pub index : ℕ → ℕ
  pub state : ℕ

-- What the iterator hands out: entries of a table at a depth, from an index on.
pub record Chunk : Type 0 where
  pub depth : ℕ
  pub table : ℕ
  pub start : ℕ
  pub count : ℕ

pub page_iter_create : ℕ → ℕ → ℕ → PageIterator
page_iter_create cr3 vaddr len =
    let vpage = vaddr >>> 12 in
    let vlen = u64 (len + 2 ^ 12 - 1) >>> 12 in
    record {
      dir = λ k. if k == 3 then cr3 else 0;
      offset = λ k. (vpage >>> (9 * k)) % 512;
      len = λ k. (vlen + 2 ^ (9 * k) - 1) >>> (9 * k);
      len_current = λ k. 0;
      index = λ k. 0;
      state = 0;
    }

pub iter_compute_dir : Tables → ℕ → ℕ → ℕ → ℕ
iter_compute_dir dirs dir index offset = bit_and (dirs dir (offset + index)) mmask_phys

pub iter_compute_len : ℕ → ℕ → ℕ
iter_compute_len len offset = (if ltb 512 (len + offset) then 512 else len + offset) - offset

-- One round of the loop of level `k + 1`: the table of level `k`, handed out.
pub enter : Tables → ℕ → ℕ → PageIterator → Option Chunk × PageIterator
enter dirs k state it =
    let table = iter_compute_dir dirs (it.dir (k + 1)) (it.index (k + 1)) (it.offset (k + 1)) in
    let count = iter_compute_len (it.len k) (it.offset k) in
    (
      some (record { depth = k; table = table; start = it.offset k; count = count }),
      record it {
        dir = store it.dir k table;
        len_current = store it.len_current k count;
        state = state;
      },
    )

-- The end of the body of a loop, after the loop of level `k` within it: its length is used up.
pub leave : ℕ → PageIterator → PageIterator
leave k it = record it {
  len = store it.len k (it.len k - it.len_current k);
  offset = store it.offset k 0;
  index = store it.index (k + 1) (it.index (k + 1) + 1);
}

-- The tests of the three loops, each going on in the next outer one.
pub loop3 : Tables → PageIterator → Option Chunk × PageIterator
loop3 dirs it = if ltb (it.index 3) (it.len 3) then enter dirs 2 2 it else (none, it)

pub loop2 : Tables → PageIterator → Option Chunk × PageIterator
loop2 dirs it = if ltb (it.index 2) (it.len 2) then enter dirs 1 3 it else loop3 dirs (leave 2 it)

pub loop1 : Tables → PageIterator → Option Chunk × PageIterator
loop1 dirs it = if ltb (it.index 1) (it.len 1) then enter dirs 0 4 it else loop2 dirs (leave 1 it)

abbrev pub at_first : ℕ → PageIterator → PageIterator
at_first k it = record it { index = store it.index k 0 }

-- The next chunk, `none` for the result 1.
pub page_iter_next : Tables → PageIterator → Option Chunk × PageIterator
page_iter_next dirs it =
    if it.state == 0
    then (
      some (record { depth = 3; table = it.dir 3; start = it.offset 3; count = it.len 3 }),
      record it { state = 1 },
    )
    else (if it.state == 1
        then loop3 dirs (at_first 3 it)
        else (if it.state == 2
            then loop2 dirs (at_first 2 it)
            else (if it.state == 3
                then loop1 dirs (at_first 1 it)
                else (if it.state == 4 then loop1 dirs (leave 0 it) else (none, it)))))

-- What the kernel keeps of its memory.
pub record Kernel : Type 0 where
  pub dirs : Tables
  pub pmem : Allocator
  pub cr3 : ℕ
  pub nx_mask : ℕ
  pub io_size : ℕ

-- A loop over the chunks, on fuel; `none` means that the fuel ran out or that the body failed.
module _ {ℓ} {S : Type ℓ} (dirs_of : S → Tables) (body : Chunk → S → Option S) where
  pub each_chunk : ℕ → PageIterator → S → Option S
  each_chunk zero it s = none
  each_chunk (suc f) it s =
      let (chunk, it') = page_iter_next (dirs_of s) it in
      elim chunk [
        | none ↦ some s
        | some c ↦ (elim (body c s) [ none ↦ none | some s' ↦ each_chunk f it' s' ])
      ]

-- The loop over the entries of a chunk, from index `i` with `n` left.
module _ {ℓ} {S : Type ℓ} (change : ℕ → ℕ → S → Option S) where
  pub each_entry : ℕ → ℕ → ℕ → S → Option S
  each_entry zero table i s = some s
  each_entry (suc n) table i s = elim (change table i s) [
    | none ↦ none
    | some s' ↦ each_entry n table (i + 1) s'
  ]

-- `page_dir[i] = entry`
unfoldable pub set_entry : ℕ → ℕ → ℕ → Tables → Tables
set_entry table i entry dirs = store dirs table (store (dirs table) i entry)

-- A new page of zeros; `none` where there is no free page, when the source goes on with BADPAGE.
pub alloc_zero_page : Kernel → Option (ℕ × Kernel)
alloc_zero_page k = elim (alloc_phys_pages 1 k.pmem) [
  | none ↦ none
  | some (page, pmem) ↦ some (
    page,
    record k {
      pmem = pmem;
      dirs = store k.dirs page (λ i. if ltb i 512 then 0 else k.dirs page i);
    },
  )
]

pub physical_to_virtual : ℕ → ℕ
physical_to_virtual physical = bit_or 0xffff800000000000 physical

pub page_prot_flags : ℕ → ℕ → ℕ
page_prot_flags nx_mask prot =
    let flags = if bit_and prot kprot_write == 0 then 0 else page_write in
    let flags = if bit_and prot kprot_user == 0 then flags else bit_or flags page_user in
    if bit_and prot kprot_execute == 0 then bit_or flags nx_mask else flags

-- The entry that `kmprotect` writes in place of an entry.
abbrev pub protected : ℕ → ℕ → ℕ → ℕ
protected nx_mask prot tmp =
    bit_or (bit_and tmp (not64 (bit_or (bit_or page_user page_write) nx_mask)))
      (page_prot_flags nx_mask prot)

pub protect_entry : ℕ → ℕ → ℕ → Kernel → Option Kernel
protect_entry prot table i k =
    some (record k { dirs = set_entry table i (protected k.nx_mask prot (k.dirs table i)) k.dirs })

pub protect_chunk : ℕ → Chunk → Kernel → Option Kernel
protect_chunk prot c k =
    if c.depth == 0 then each_entry (protect_entry prot) c.count c.table c.start k else some k

pub kmprotect : ℕ → ℕ → ℕ → ℕ → Kernel → Option Kernel
kmprotect fuel addr size prot k =
    each_chunk (λ s. s.dirs) (protect_chunk prot) fuel (page_iter_create k.cr3 addr size) k
