-- ===== src/Paging/Physical/Translate.antt =====
-- What `arch_init_physical_mapping` maps.
use fusee_os.Base.{
  ℕ, ◌+◌, ◌-◌, ◌*◌, ◌/◌, ◌%◌, ◌≤◌, ◌<◌, ◌^◌, ◌≡◌, ◌≢◌, ap, ap₂, ◌∙◌, arith, ◌⊎◌, Bool, true, false,
  some, List, ◌∷◌, u64, ◌==◌, if◌then◌else◌,
}
use fusee_os.Phys.{Region}
use fusee_os.Phys.Early.{alloc_phys_early_first}
use fusee_os.Paging.{Tables, set_entry, physical_to_virtual}
use fusee_os.Paging.Physical.{
  large_entry, pointing_entry, pml4_physical, map_all, is_1gb_pages_supported,
  arch_init_physical_mapping,
}
use fusee_os.Paging.Physical.Entries.{
  frame, root_of, translate, physical_to_virtual-sum, entry_of_table, entry_1gb, entry_2mb,
  resolve_1gb, resolve_2mb,
}
use fusee_os.Paging.Physical.Filled.{fill_1gb_entry, fill_1gb_other, AreFilled, fill_pds-AreFilled}

named : (b : ℕ) → b % 4096 ≡ 0 → b < 2 ^ 52 → frame (b + 3) ≡ b
named b h lt = omega arith

module _ (dirs : Tables) (cr3 pdp p : ℕ) (root : cr3 % 4096 ≡ 0) (aligned : pdp % 4096 ≡ 0)
    (fits : pdp < 2 ^ 52) (small : p < 2 ^ 39) (top : dirs cr3 256 ≡ pdp + 3) where
  by_1gb :
      dirs pdp (p / 2 ^ 30) ≡ p / 2 ^ 30 * 2 ^ 30 + 131
      → translate dirs cr3 (0xffff800000000000 + p) ≡ some p
  unfolding translate
  by_1gb h =
      let v : ℕ = 0xffff800000000000 + p in
      let i4 : v / 2 ^ 39 % 512 ≡ 256 = omega arith in
      let i3 : v / 2 ^ 30 % 512 ≡ p / 2 ^ 30 = omega arith in
      let at_root : root_of cr3 ≡ cr3 = omega arith in
      let e4 : dirs (root_of cr3) (v / 2 ^ 39 % 512) ≡ pdp + 3 = ap₂ dirs at_root i4 ∙ top in
      let e3 = ap₂ dirs (ap frame e4 ∙ named pdp aligned fits) i3 ∙ h in
      resolve_1gb _ _ _ _ v p (omega (arith, e4)) small e3 (omega arith)

  by_2mb :
      (pd : ℕ)
      → pd % 4096 ≡ 0
      → pd < 2 ^ 52
      → dirs pdp (p / 2 ^ 30) ≡ pd + 3
      → dirs pd (p / 2 ^ 21 % 512) ≡ p / 2 ^ 21 * 2 ^ 21 + 131
      → translate dirs cr3 (0xffff800000000000 + p) ≡ some p
  unfolding translate
  by_2mb pd whole lt h g =
      let v : ℕ = 0xffff800000000000 + p in
      let i4 : v / 2 ^ 39 % 512 ≡ 256 = omega arith in
      let i3 : v / 2 ^ 30 % 512 ≡ p / 2 ^ 30 = omega arith in
      let i2 : v / 2 ^ 21 % 512 ≡ p / 2 ^ 21 % 512 = omega arith in
      let at_root : root_of cr3 ≡ cr3 = omega arith in
      let e4 : dirs (root_of cr3) (v / 2 ^ 39 % 512) ≡ pdp + 3 = ap₂ dirs at_root i4 ∙ top in
      let e3 = ap₂ dirs (ap frame e4 ∙ named pdp aligned fits) i3 ∙ h in
      let e2 = ap₂ dirs (ap frame e3 ∙ named pd whole lt) i2 ∙ g in
      resolve_2mb _ _ _ _ v p (omega (arith, e4)) (omega (arith, e3)) (omega (arith, e3)) small e2
        (omega arith)

-- The first region has the pages of the tables, and `cr3` is a page outside of it.
pub record HasRoom (cr3 : ℕ) (r : Region) : Type 0 where
  pub root : cr3 % 4096 ≡ 0
  pub aligned : r.base % 4096 ≡ 0
  pub room : 513 * 4096 ≤ r.size
  pub fits : r.base + r.size < 2 ^ 52
  pub outside : cr3 < r.base ⊎ r.base + r.size ≤ cr3

-- All physical memory below 512 GiB is mapped where `physical_to_virtual` expects it, and other
-- entries have not changed.
pub record IsMapped (dirs : Tables) (cr3 : ℕ) (r : Region) (dirs' : Tables) : Type 0 where
  pub mapped : (p : ℕ) → p < 2 ^ 39 → translate dirs' cr3 (physical_to_virtual p) ≡ some p
  pub root : (k : ℕ) → k ≢ pml4_physical → dirs' cr3 k ≡ dirs cr3 k
  pub others : (t k : ℕ) → t ≢ cr3 → (t < r.base ⊎ r.base + r.size ≤ t) → dirs' t k ≡ dirs t k

module _ (cr3 : ℕ) (dirs : Tables) (r : Region) (rs : List Region) (room : HasRoom cr3 r) where
  rest : List Region
  rest = record { base = r.base + 4096; size = r.size - 4096 } ∷ rs

  linked : Tables → Tables
  linked t = set_entry cr3 pml4_physical (pointing_entry r.base) t

  linked_root :
      (d : Tables) (k : ℕ) → linked d cr3 k ≡ (if 256 == k then pointing_entry r.base else d cr3 k)
  unfolding linked set_entry
  linked_root d k = ground arith

  linked_other : (d : Tables) (t k : ℕ) → t ≢ cr3 → linked d t k ≡ d t k
  unfolding linked set_entry
  linked_other d t k h = ground arith

  linked_top : (d : Tables) → linked d cr3 256 ≡ r.base + 3
  linked_top d = linked_root d 256 ∙ entry_of_table r.base room.aligned

  in_region : (m : ℕ) → m < 513 → r.base + m * 4096 ≢ cr3
  in_region m h = ground (arith, room.outside, room.room)

  with_1gb : IsMapped dirs cr3 r (linked ((map_all true r.base (dirs, rest)).0))
  unfolding map_all
  with_1gb = record {
    mapped = λ p h.
        ap (translate _ cr3) (physical_to_virtual-sum p h)
        ∙ by_1gb _ cr3 r.base p room.root room.aligned (omega (arith, room.fits)) h (linked_top _) (
            linked_other _ r.base _ (omega (arith, in_region 0 (omega arith)))
            ∙ fill_1gb_entry r.base dirs (p / 2 ^ 30) (omega arith)
            ∙ entry_1gb (p / 2 ^ 30) (omega arith));
    root = λ k ne. linked_root _ k ∙ ground (arith, fill_1gb_other r.base dirs cr3 k, in_region 0);
    others = λ t k ne far.
        linked_other _ t k ne ∙ fill_1gb_other r.base dirs t k (ground (arith, room.room));
  }

  directories : AreFilled 512 0 r.base (r.base + 4096) dirs ((map_all false r.base (dirs, rest)).0)
  unfolding map_all rest
  directories =
      fill_pds-AreFilled 512 0 r.base dirs (record { base = r.base + 4096; size = r.size - 4096 })
        rs (omega (arith, room.room)) (omega (arith, room.room, room.fits)) (omega arith)

  module _ (p : ℕ) (h : p < 2 ^ 39) where
    directory : ℕ
    directory = r.base + 4096 + p / 2 ^ 30 * 4096

    directory_entry :
        linked ((map_all false r.base (dirs, rest)).0) r.base (p / 2 ^ 30) ≡ directory + 3
    unfolding directory
    directory_entry =
        let e : p / 2 ^ 30 ≡ 0 + p / 2 ^ 30 = omega arith in
        linked_other _ r.base (p / 2 ^ 30) (omega (arith, in_region 0 (omega arith)))
        ∙ ap ((map_all false r.base (dirs, rest)).0 r.base) e
        ∙ directories.tables (p / 2 ^ 30) (omega arith)
        ∙ entry_of_table _ (omega (arith, room.aligned))

    page_entry :
        linked ((map_all false r.base (dirs, rest)).0) directory (p / 2 ^ 21 % 512)
        ≡ p / 2 ^ 21 * 2 ^ 21 + 131
    unfolding directory
    page_entry =
        let e : (0 + p / 2 ^ 30) * 512 + p / 2 ^ 21 % 512 ≡ p / 2 ^ 21 = omega arith in
        linked_other _ _ _ (omega (arith, in_region (1 + p / 2 ^ 30) (omega arith)))
        ∙ directories.pages (p / 2 ^ 30) (p / 2 ^ 21 % 512) (omega arith) (omega arith)
        ∙ ap (λ k. large_entry (u64 (k * 0x200000))) e
        ∙ entry_2mb (p / 2 ^ 21) (omega arith)

    mapped_2mb :
        translate (linked ((map_all false r.base (dirs, rest)).0)) cr3 (physical_to_virtual p)
        ≡ some p
    mapped_2mb =
        ap (translate _ cr3) (physical_to_virtual-sum p h)
        ∙ by_2mb _ cr3 r.base p room.root room.aligned (omega (arith, room.fits)) h (linked_top _)
            directory (unfold directory in omega (arith, room.aligned))
            (unfold directory in omega (arith, room.room, room.fits)) directory_entry page_entry

  with_2mb : IsMapped dirs cr3 r (linked ((map_all false r.base (dirs, rest)).0))
  with_2mb = record {
    mapped = mapped_2mb;
    root = λ k ne.
        linked_root _ k
        ∙ ground (arith, directories.others cr3 k, in_region 0, room.outside, room.room);
    others = λ t k ne far.
        linked_other _ t k ne
        ∙ directories.others t k (ground (arith, room.room)) (ground (arith, room.room));
  }

  by_size : (large : Bool) → IsMapped dirs cr3 r (linked ((map_all large r.base (dirs, rest)).0))
  by_size true = with_1gb
  by_size false = with_2mb

-- With pages of 1 GiB and without them, the walk through the tables translates the address that
-- `physical_to_virtual` gives for a physical address below 512 GiB to that physical address. No
-- other entry of the root table has changed, nor has any table outside of the first free region,
-- which has room for 513 pages, begins at a page, ends below 2^52 and does not hold the root.
pub arch_init_physical_mapping-IsMapped :
    (cpuid : ℕ → ℕ → ℕ) (cr3 : ℕ) (dirs : Tables) (r : Region) (rs : List Region)
    → HasRoom cr3 r
    → IsMapped dirs cr3 r ((arch_init_physical_mapping cpuid cr3 (dirs, r ∷ rs)).0)
unfolding arch_init_physical_mapping
arch_init_physical_mapping-IsMapped cpuid cr3 dirs r rs room =
    let e = alloc_phys_early_first 1 r rs (omega (arith, room.room)) (omega (arith, room.fits)) in
    rw e (unfold linked rest in by_size cr3 dirs r rs room (is_1gb_pages_supported cpuid))
