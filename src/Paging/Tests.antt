-- ===== src/Paging/Tests.antt =====
-- The page tables at a concrete hierarchy of four tables, and the theorems there.
use fusee_os.Base.{
  ℕ, ◌+◌, ◌-◌, ◌*◌, ◌^◌, ◌≡◌, refl, arith, bit_and, some, inl, [], ◌∷◌, ◌==◌, if◌then◌else◌,
}
use fusee_os.Base.Bits.{bit, bit-pow_ne}
use fusee_os.Phys.{free_phys_pages}
use fusee_os.Phys.{Region}
use fusee_os.Paging.Physical.{arch_init_physical_mapping}
use fusee_os.Paging.Physical.Translate.{HasRoom, IsMapped, arch_init_physical_mapping-IsMapped}
use fusee_os.Paging.{Kernel, Tables, protected, kmprotect, mmask_phys, page_prot_flags}
use fusee_os.Paging.Maps.{kunmapanon}
use fusee_os.Paging.Changes.{Changes, entries, for_entries}
use fusee_os.Paging.Flags.{protected_bits}
use fusee_os.Paging.Protect.{kmprotect-Changes, kunmapanon-Changes}

-- The tables at 0x1000 to 0x4000; the lowest one maps the pages from 0x100000 on.
abbrev tables : Tables
tables t i =
    if t == 0x1000
    then 0x2007
    else (if t == 0x2000 then 0x3007 else (if t == 0x3000 then 0x4007 else 0x100003 + 4096 * i))

abbrev kernel : Kernel
kernel = record {
  dirs = tables;
  pmem = record { blocks = []; pages_total = 0; pages_free = 0 };
  cr3 = 0x1000;
  nx_mask = 0x8000000000000000;
  io_size = 0;
}

-- Three pages from the last but one entry of a table on.
kmprotect-Changes_example :
    (dirs' : Tables) × (kmprotect 8 0x1fe000 0x3000 1 kernel
      ≡ some (record kernel { dirs = dirs' }))
    × Changes (protected 0x8000000000000000 1) 0x4000 510 512 tables dirs'
kmprotect-Changes_example =
    kmprotect-Changes 3 0x1fe000 0x3000 1 kernel refl (omega arith) (omega arith)

abbrev shl3 : ℕ → ℕ
shl3 n = n * 8

kunmapanon-Changes_example :
    (dirs' : Tables) × (kunmapanon shl3 5 0x5000 0x1001 kernel
      ≡ some (record kernel {
        pmem =
            for_entries
              (λ e p. free_phys_pages shl3 (bit_and e mmask_phys) 1 p)
              (entries tables 0x4000 5 2)
              kernel.pmem;
        dirs = dirs';
      }))
    × Changes (λ e. 0) 0x4000 5 7 tables dirs'
kunmapanon-Changes_example =
    kunmapanon-Changes shl3 0 0x5000 0x1001 kernel refl (omega arith) (omega arith)

read_only : page_prot_flags 0x8000000000000000 1 ≡ 0x8000000000000000
unfolding page_prot_flags
read_only = refl

protected_bits_example : bit (protected (2 ^ 63) 3 0x100005) 63 ≡ (
    if 63 == 1
    then bit 3 1
    else (if 63 == 2
        then bit 3 3
        else (if bit (2 ^ 63) 63 == 1 then 1 - bit 3 2 else bit 0x100005 63)))
protected_bits_example =
    protected_bits (2 ^ 63) 3 0x100005 63 (omega arith) (bit-pow_ne 63 1 (omega arith))
      (bit-pow_ne 63 2 (omega arith)) (omega arith)

abbrev early_region : Region
early_region = record { base = 0x1001000; size = 0x300000 }

early_region-HasRoom : HasRoom 0x1000000 early_region
early_region-HasRoom = record {
  root = refl;
  aligned = refl;
  room = omega arith;
  fits = omega arith;
  outside = inl (omega arith);
}

arch_init_physical_mapping-IsMapped_example :
    IsMapped
      (λ t k. 0)
      0x1000000
      early_region
      ((arch_init_physical_mapping (λ leaf w. 0) 0x1000000 (λ t k. 0, early_region ∷ [])).0)
arch_init_physical_mapping-IsMapped_example =
    arch_init_physical_mapping-IsMapped (λ leaf w. 0) 0x1000000 (λ t k. 0) early_region []
      early_region-HasRoom
