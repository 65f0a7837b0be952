-- ===== src/Boot/Tables.antt =====
-- The page tables that the bootloader builds: map_identity_2mib and memory_identity_map of
-- memory.c, map_single and valloc of alloc.c. The reloads of cr3 are left out. A page at address 0
-- is none, and stays as it is.
pub mod Directory
pub mod Identity
use fusee_os.Base.{
  ℕ, zero, suc, ◌+◌, ◌-◌, ◌*◌, bit_and, bit_or, List, ◌==◌, if◌then◌else◌, u64, ◌>>>◌,
}
use fusee_os.Phys.{Region, page_size}
use fusee_os.Paging.{Tables, set_entry}
use fusee_os.Boot.{zero_page, alloc_page_lo, alloc_page_hi, decompose_addr, identity_entry}

-- `page` is the static variable of `alloc_page_lo`.
pub record Loader : Type 0 where
  pub dirs : Tables
  pub cr3 : ℕ
  pub page : ℕ
  pub mem_free : List Region

pub take_lo : Loader → ℕ × Loader
take_lo s =
    let (tmp, page) = alloc_page_lo s.page in
    (tmp, record s { dirs = zero_page tmp s.dirs; page = page })

pub take_hi : Loader → ℕ × Loader
take_hi s =
    let (tmp, mem_free) = alloc_page_hi s.mem_free in
    (
      tmp,
      record s { dirs = if tmp == 0 then s.dirs else zero_page tmp s.dirs; mem_free = mem_free },
    )

-- `tmp2 = tmp[i]`, a new table there if that is 0, and the address of the table.
pub next_table : (Loader → ℕ × Loader) → ℕ → ℕ → Loader → ℕ × Loader
next_table take tmp i s =
    let (new, s') = take s in
    let tmp2 = bit_or new 3 in
    if s.dirs tmp i == 0
    then (bit_and tmp2 0xffff_ffff_ffff_f000, record s' { dirs = set_entry tmp i tmp2 s'.dirs })
    else (bit_and (s.dirs tmp i) 0xffff_ffff_ffff_f000, s)

pub map_identity_2mib : ℕ → ℕ → Loader → Loader
map_identity_2mib i j s =
    let (pdp, s) = next_table take_lo s.cr3 0 s in
    let (pd, s) = next_table take_lo pdp i s in
    record s { dirs = set_entry pd j (identity_entry i j) s.dirs }

-- The inner loop of `memory_identity_map`, from `j` with `n` rounds left.
pub identity_from : ℕ → ℕ → ℕ → Loader → Loader
identity_from zero j i s = s
identity_from (suc n) j i s = identity_from n (j + 1) i (map_identity_2mib i j s)

-- The outer loop.
pub identity_dirs : ℕ → ℕ → Loader → Loader
identity_dirs zero i s = s
identity_dirs (suc n) i s = identity_dirs n (i + 1) (identity_from 0x200 0 i s)

pub memory_identity_map : Loader → Loader
memory_identity_map s = let (cr3, s') = take_hi s in identity_dirs 4 0 (record s' { cr3 = cr3 })

pub map_single : ℕ → Loader → Loader
map_single virtual s =
    let (a, b, c, d) = decompose_addr virtual in
    let (tmp, s) = next_table take_hi s.cr3 a s in
    let (tmp, s) = next_table take_hi tmp b s in
    let (tmp, s) = next_table take_hi tmp c s in
    let (new, s) = take_hi s in record s { dirs = set_entry tmp d (bit_or new 1) s.dirs }

-- The loop of `valloc`, from `i` with `n` pages left.
pub valloc_from : ℕ → ℕ → ℕ → Loader → Loader
valloc_from zero i vaddr s = s
valloc_from (suc n) i vaddr s =
    valloc_from n (i + 1) vaddr (map_single (u64 (vaddr + i * page_size)) s)

-- `npages` is an `int`; the callers pass small sizes.
pub valloc : ℕ → ℕ → Loader → Loader
valloc addr size s =
    let size = u64 (size + bit_and addr 0xfff) in
    let vaddr = bit_and addr 0xffff_ffff_ffff_f000 in
    valloc_from (u64 (size + page_size - 1) >>> 12) 0 vaddr s
