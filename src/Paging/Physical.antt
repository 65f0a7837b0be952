-- ===== src/Paging/Physical.antt =====
-- The mapping of all physical memory, src/kernel/arch/x86/mem.c. The processor's answer to `cpuid`
-- is a parameter: the word `w` of the answer for a leaf is `cpuid leaf w`.
pub mod Entries
pub mod Filled
pub mod Translate
use fusee_os.Base.{
  ℕ, zero, suc, ◌+◌, ◌*◌, ◌^◌, bit_and, bit_or, Bool, true, false, not, List, ◌==◌, u64,
}
use fusee_os.Phys.{Region, alloc_phys_early}
use fusee_os.Paging.{Tables, page_present, page_write, set_entry}

abbrev pub page_large : ℕ
page_large = 0x80

abbrev pub pml4_physical : ℕ
pml4_physical = 0x100

pub is_1gb_pages_supported : (ℕ → ℕ → ℕ) → Bool
is_1gb_pages_supported cpuid = not (bit_and (cpuid 0x80000001 3) (2 ^ 26) == 0)

pub large_entry : ℕ → ℕ
large_entry a = bit_or (bit_or (bit_or a page_present) page_write) page_large

pub pointing_entry : ℕ → ℕ
pointing_entry a = bit_or (bit_or a page_present) page_write

-- `vpdp[i] = (i * 0x40000000ULL) | ...` from `i` with `n` entries left.
pub fill_1gb : ℕ → ℕ → ℕ → Tables → Tables
fill_1gb zero i pdp dirs = dirs
fill_1gb (suc n) i pdp dirs =
    fill_1gb n (i + 1) pdp (set_entry pdp i (large_entry (u64 (i * 0x40000000))) dirs)

-- `vpd[j] = ((i * 512 + j) * 0x200000ULL) | ...` from `j` with `n` entries left.
pub fill_2mb : ℕ → ℕ → ℕ → ℕ → Tables → Tables
fill_2mb zero j i pd dirs = dirs
fill_2mb (suc n) j i pd dirs =
    fill_2mb n (j + 1) i pd (set_entry pd j (large_entry (u64 ((i * 512 + j) * 0x200000))) dirs)

-- The loop over the page directories, from `i` with `n` left.
pub fill_pds : ℕ → ℕ → ℕ → Tables × List Region → Tables × List Region
fill_pds zero i pdp s = s
fill_pds (suc n) i pdp s =
    let (pd, mem_free) = alloc_phys_early 1 s.1 in
    fill_pds n (i + 1) pdp (set_entry pdp i (pointing_entry pd) (fill_2mb 512 0 i pd s.0), mem_free)

-- The branches on the size of the pages.
pub map_all : Bool → ℕ → Tables × List Region → Tables × List Region
map_all true pdp s = (fill_1gb 512 0 pdp s.0, s.1)
map_all false pdp s = fill_pds 512 0 pdp s

pub arch_init_physical_mapping : (ℕ → ℕ → ℕ) → ℕ → Tables × List Region → Tables × List Region
arch_init_physical_mapping cpuid cr3 s =
    let (pdp, mem_free) = alloc_phys_early 1 s.1 in
    let s' = map_all (is_1gb_pages_supported cpuid) pdp (s.0, mem_free) in
    (set_entry cr3 pml4_physical (pointing_entry pdp) s'.0, s'.1)
