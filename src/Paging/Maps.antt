-- ===== src/Paging/Maps.antt =====
-- What mmap.c does with the page tables: mapping, unmapping and the kernel's own half.
use fusee_os.Base.{
  ℕ, zero, suc, ◌+◌, ◌-◌, bit_and, bit_or, Option, none, some, ◌==◌, if◌then◌else◌, u64, not64,
}
use fusee_os.Phys.{free_phys_pages, page_size}
use fusee_os.Heap.{io_alloc}
use fusee_os.Paging.{
  Kernel, Chunk, set_entry, alloc_zero_page, page_prot_flags, page_present, page_write, page_user,
  mmask_phys, each_chunk, each_entry, page_iter_create, kmprotect, kprot_write, kprot_execute,
}

-- An entry of an upper table: a new table where it is not present.
pub table_entry : ℕ → ℕ → Kernel → Option Kernel
table_entry table i k =
    if bit_and (k.dirs table i) page_present == 0
    then (elim (alloc_zero_page k) [
      | none ↦ none
      | some (page, k') ↦ some (record k' {
        dirs =
            set_entry table i (bit_or page (bit_or (bit_or page_present page_write) page_user))
              k'.dirs;
      })
    ])
    else some k

-- An entry of a lowest table: a new page.
pub anon_entry : ℕ → ℕ → ℕ → Kernel → Option Kernel
anon_entry flags table i k = elim (alloc_zero_page k) [
  | none ↦ none
  | some (page, k') ↦
      some
        (record k' { dirs = set_entry table i (bit_or page (bit_or page_present flags)) k'.dirs })
]

pub anon_chunk : ℕ → Chunk → Kernel → Option Kernel
anon_chunk flags c k =
    if c.depth == 0
    then each_entry (anon_entry flags) c.count c.table c.start k
    else each_entry table_entry c.count c.table c.start k

pub kmapanon : ℕ → ℕ → ℕ → ℕ → Kernel → Option Kernel
kmapanon fuel addr size prot k =
    each_chunk (λ s. s.dirs) (anon_chunk (page_prot_flags k.nx_mask prot)) fuel
      (page_iter_create k.cr3 addr size) k

-- The physical address that `kmap` goes on with stands beside the kernel.
abbrev pub Mapping : Type 0
Mapping = Kernel × ℕ

pub on_kernel : (Kernel → Option Kernel) → Mapping → Option Mapping
on_kernel f (k, phys) = elim (f k) [ none ↦ none | some k' ↦ some (k', phys) ]

pub phys_entry : ℕ → ℕ → ℕ → Mapping → Option Mapping
phys_entry flags table i (k, phys) = some (
  record k { dirs = set_entry table i (bit_or phys (bit_or page_present flags)) k.dirs },
  u64 (phys + page_size),
)

pub phys_chunk : ℕ → Chunk → Mapping → Option Mapping
phys_chunk flags c m =
    if c.depth == 0
    then each_entry (phys_entry flags) c.count c.table c.start m
    else each_entry (λ table i. on_kernel (table_entry table i)) c.count c.table c.start m

-- The virtual address that `kmap` takes: one of the IO range for NULL.
pub kmap_address : Option ℕ → ℕ → Kernel → ℕ × Kernel
kmap_address (some addr) size k = (addr, k)
kmap_address none size k =
    let (addr, io_size) = io_alloc size k.io_size in (addr, record k { io_size = io_size })

pub kmap : ℕ → Option ℕ → ℕ → ℕ → ℕ → Kernel → Option (ℕ × Mapping)
kmap fuel to phys size prot k =
    let (addr, k') = kmap_address to size k in
    elim (each_chunk (λ m. m.0.dirs) (phys_chunk (page_prot_flags k.nx_mask prot)) fuel
      (page_iter_create k.cr3 addr size) (k', bit_and phys (not64 0xfff))) [
        | none ↦ none
        | some m ↦ some (addr, m)
      ]

-- `shl3` is the machine's shift in `mark_page_free`.
module _ (shl3 : ℕ → ℕ) where
  unfoldable pub free_entry : ℕ → ℕ → Kernel → Option Kernel
  free_entry table i k =
      let tmp = bit_and (k.dirs table i) mmask_phys in
      some
        (record k { pmem = free_phys_pages shl3 tmp 1 k.pmem; dirs = set_entry table i 0 k.dirs })

  unfoldable pub free_chunk : Chunk → Kernel → Option Kernel
  free_chunk c k = if c.depth == 0 then each_entry free_entry c.count c.table c.start k else some k

  unfoldable pub kunmapanon : ℕ → ℕ → ℕ → Kernel → Option Kernel
  kunmapanon fuel addr size k =
      each_chunk (λ s. s.dirs) free_chunk fuel (page_iter_create k.cr3 addr size) k

-- The loop of `set_kernel_half`, with `n` entries left.
pub kernel_half_entry : ℕ → ℕ → Kernel → Option Kernel
kernel_half_entry table i k =
    if bit_and (k.dirs table i) page_present == 0
    then (elim (alloc_zero_page k) [
      | none ↦ none
      | some (page, k') ↦ some (record k' {
        dirs = set_entry table i (bit_or (bit_or page page_present) page_user) k'.dirs;
      })
    ])
    else some k

pub set_kernel_half : Kernel → Option Kernel
set_kernel_half k = each_entry kernel_half_entry 256 k.cr3 256 k

-- An entry that is present is made writable; `below` goes on with the table that it names.
pub writable_entry : (ℕ → Kernel → Option Kernel) → ℕ → ℕ → Kernel → Option Kernel
writable_entry below table i k =
    let k' = record k { dirs = set_entry table i (bit_or (k.dirs table i) page_write) k.dirs } in
    if bit_and (k.dirs table i) page_present == 0
    then some k
    else below (bit_and (k'.dirs table i) mmask_phys) k'

pub set_kernel_hierarchy_mem_prot : ℕ → ℕ → Kernel → Option Kernel
set_kernel_hierarchy_mem_prot zero dir k =
    each_entry (writable_entry (λ table k. some k)) 512 dir 0 k
set_kernel_hierarchy_mem_prot (suc depth) dir k =
    each_entry (writable_entry (set_kernel_hierarchy_mem_prot depth)) 512 dir 0 k

-- One step after another.
infixl 5 ◌>>=◌
abbrev pub ◌>>=◌ : {A B : Type 0} → Option A → (A → Option B) → Option B
none >>= f = none
some a >>= f = f a

-- The bounds of the kernel's sections, which the linker sets.
pub record Sections : Type 0 where
  pub exec_start : ℕ
  pub exec_end : ℕ
  pub rodata_start : ℕ
  pub rodata_end : ℕ
  pub data_start : ℕ
  pub data_end : ℕ
  pub bss_start : ℕ
  pub bss_end : ℕ

-- KPROT_READ is 1 and sets no flag.
pub init_kernel_mem_prot : ℕ → Sections → Kernel → Option Kernel
init_kernel_mem_prot fuel at k =
    set_kernel_half k
    >>= (λ k. set_kernel_hierarchy_mem_prot 2 (bit_and (k.dirs k.cr3 511) mmask_phys) k)
    >>= kmprotect fuel at.exec_start (at.exec_end - at.exec_start) (bit_or 1 kprot_execute)
    >>= kmprotect fuel at.rodata_start (at.rodata_end - at.rodata_start) 1
    >>= kmprotect fuel at.data_start (at.data_end - at.data_start) (bit_or 1 kprot_write)
    >>= kmprotect fuel at.bss_start (at.bss_end - at.bss_start) (bit_or 1 kprot_write)
