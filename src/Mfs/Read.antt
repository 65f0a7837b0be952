-- ===== src/Mfs/Read.antt =====
-- `mfs_read` puts the bytes of a file into the memory.
use fusee_os.Base.{
  ℕ, ◌+◌, ◌-◌, ◌*◌, ◌/◌, ◌%◌, ◌≤◌, ◌<◌, ◌≡◌, ◌≢◌, refl, sym, ◌∙◌, ap, ◌⊎◌, arith, Memory, u32, u64,
  ltb, ◌==◌, true, false, ℕ_discrete, dec_lt, le→ltb,
}
use fusee_os.Phys.{load_le}
use fusee_os.Volume.{Volume, inode_page, size_of}
use fusee_os.Volume.Words.{at, word}
use fusee_os.Volume.Slots.{idata, slot, byte, slot-direct, slot-none, slot-Stored, indirect}
use fusee_os.Volume.Append.{IsFilled}
use fusee_os.Mfs.{Bios, mfs_read_page, mfs_file_size, mfs_read_data, mfs_read_idata, mfs_read}
use fusee_os.Mfs.Pages.{PageRead, HasVolume, mfs_read_page-PageRead}
use fusee_os.Mfs.Listed.{Listed, load_le-shift, read_listed-Listed}

-- The pages of a file.
abbrev pub page_number : ℕ → ℕ
page_number size = (size + 4095) / 4096

module _ (bios : Bios) (lba_start pages : ℕ) (buffer : Memory) (v : Volume) (file : ℕ)
    (g : IsFilled v file) (d : HasVolume bios.disk lba_start v.bytes v.next_inode) (dst : ℕ)
    (m : Memory)
    (apart : (pages + 8192 ≤ dst) ⊎ (dst + 4096 * page_number (size_of v file) ≤ pages)) where
  abbrev count : ℕ
  count = page_number (size_of v file)

  abbrev read_page : Memory → ℕ → ℕ → Memory
  read_page = mfs_read_page bios lba_start pages buffer

  page_of :
      (m : Memory) (a inode : ℕ)
      → inode ≤ v.next_inode
      → PageRead v.bytes m a inode (read_page m a inode)
  page_of = mfs_read_page-PageRead bios lba_start pages buffer v.bytes v.next_inode d

  -- A number in a page that was read is that of the volume, while the page is left alone.
  field :
      (m out : Memory) (a inode o n : ℕ)
      → PageRead v.bytes m a inode out
      → o + n ≤ 4096
      → load_le n out (a + o) ≡ load_le n v.bytes (inode_page inode + o)
  field m out a inode o n p h =
      load_le-shift n out v.bytes (a + o) (inode_page inode + o)
        (λ k lt. ap out (omega arith) ∙ p.inside (o + k) (omega arith) ∙ ap v.bytes (omega arith))

  abbrev m0 : Memory
  m0 = read_page m pages file

  abbrev m1 : Memory
  m1 = read_page m0 pages file

  read0 : PageRead v.bytes m pages file m0
  read0 = page_of m pages file g.is_file.page.given

  read1 : PageRead v.bytes m0 pages file m1
  read1 = page_of m0 pages file g.is_file.page.given

  size_read : load_le 8 m0 (pages + 16) ≡ size_of v file
  size_read = field m m0 pages file 16 8 read0 (omega arith)

  pub mfs_file_size-size : (mfs_file_size bios lba_start pages buffer m file).0 ≡ size_of v file
  unfolding mfs_file_size
  mfs_file_size-size = size_read

  has : (j : ℕ) → j < count → slot v.bytes file j ≢ 0
  has j h = g.has_page j (omega arith)

  given : (j : ℕ) → j < count → slot v.bytes file j ≤ v.next_inode
  given j h = (g.is_file.slot_page j (omega (arith, g.small)) (has j h)).given

  -- The first loop, for `n` of the pages.
  module _ (n : ℕ) (direct_ones : n ≤ 16) (few : n ≤ count) where
    data_read :
        let (dst', out) = mfs_read_data bios lba_start pages buffer dst n m1 in
        (dst' ≡ dst + 4096 * n) × Listed v.bytes (slot v.bytes file) 0 n dst m1 out
    unfolding mfs_read_data
    data_read =
        read_listed-Listed bios lba_start pages buffer v.bytes v.next_inode d (pages + 56)
          (slot v.bytes file) n 0 dst m1
          (λ j lo hi.
            let e : pages + 56 + 8 * j ≡ pages + (56 + 8 * j) = omega arith in
            ap (load_le 8 m1) e
            ∙ field m0 m1 pages file (56 + 8 * j) 8 read1 (omega arith)
            ∙ sym (slot-direct v.bytes file j (omega arith)))
          (λ j lo hi. given j (omega arith)) (omega (arith, apart))

  number : u32 (u64 (load_le 8 m0 (pages + 16) + 4096 - 1) / 4096) ≡ count
  number = omega (arith, size_read, g.small)

  run_small :
      count ≢ 0
      → count ≤ 16
      → mfs_read bios lba_start pages buffer dst file m
        ≡ (mfs_read_data bios lba_start pages buffer dst count m1).1
  unfolding mfs_read mfs_file_size
  run_small some few =
      let direct_only : ltb 16 count ≡ false = ground (arith, few) in
      let left : (count - count == 0) ≡ true = ground arith in
      let there : (count == 0) ≡ false = ground (arith, some) in
      rw (number) (rw (direct_only) (rw (there, left) refl))

  m2 : Memory
  m2 = (mfs_read_data bios lba_start pages buffer dst 16 m1).1

  ltb_fits : ltb 512 (count - 16) ≡ false
  ltb_fits = le→ltb 512 (count - 16) (omega (arith, g.small))

  idata_read :
      16 < count
      → load_le 8 (mfs_read_data bios lba_start pages buffer dst 16 m1).1 (pages + 184)
        ≡ idata v.bytes file
  idata_read many =
      let l = (data_read 16 (omega arith) (omega (arith, many))).1 in
      load_le-shift 8 (mfs_read_data bios lba_start pages buffer dst 16 m1).1 m1 (pages + 184)
        (pages + 184) (λ k lt. l.outside (pages + 184 + k) (omega (arith, apart, many)))
      ∙ field m0 m1 pages file 184 8 read1 (omega arith)

  run_large :
      16 < count
      → mfs_read bios lba_start pages buffer dst file m
        ≡ (mfs_read_idata bios lba_start pages buffer
            (dst + 4096 * 16)
            (count - 16)
            (read_page m2 (pages + 4096) (idata v.bytes file))).1
  unfolding mfs_read mfs_file_size m2
  run_large many =
      let indirect_too : ltb 16 count ≡ true = ground (arith, many) in
      let left : (count - 16 == 0) ≡ false = ground (arith, many) in
      let there : (count == 0) ≡ false = ground (arith, many) in
      let fits : ltb 512 (count - 16) ≡ false = ltb_fits in
      let behind = (data_read 16 (omega arith) (omega (arith, many))).0 in
      rw (number) (rw (indirect_too) (rw (there, left, fits, behind, idata_read many) refl))

  has_idata : 16 < count → idata v.bytes file ≢ 0
  has_idata many z = has 16 many (slot-none v.bytes file 16 (omega arith) z)

  m3 : Memory
  m3 = read_page m2 (pages + 4096) (idata v.bytes file)

  read3 : 16 < count → PageRead v.bytes m2 (pages + 4096) (idata v.bytes file) m3
  unfolding m3
  read3 many =
      page_of m2 (pages + 4096) (idata v.bytes file) ((g.is_file.idata_page (has_idata many)).given)

  slot_indirect :
      (j : ℕ) → 16 < count → slot v.bytes file (16 + j) ≡ word v.bytes (idata v.bytes file) (8 * j)
  slot_indirect j many =
      slot-Stored v.bytes file (16 + j) (idata v.bytes file) (8 * j)
        (indirect (idata v.bytes file) (8 * j) (omega arith) refl (has_idata many) (omega arith))

  idata-Listed :
      16 < count
      → Listed v.bytes
          (λ j. slot v.bytes file (16 + j))
          0
          (count - 16)
          (dst + 4096 * 16)
          m3
          (mfs_read_idata bios lba_start pages buffer (dst + 4096 * 16) (count - 16) m3).1
  unfolding mfs_read_idata
  idata-Listed many =
      (read_listed-Listed bios lba_start pages buffer v.bytes v.next_inode d (pages + 4096)
        (λ j. slot v.bytes file (16 + j)) (count - 16) 0 (dst + 4096 * 16) m3
        (λ j lo hi.
          field m2 m3 (pages + 4096) (idata v.bytes file) (8 * j) 8 (read3 many)
            (omega (arith, g.small))
          ∙ sym (slot_indirect j many))
        (λ j lo hi. given (16 + j) (omega arith)) (omega (arith, apart, many, g.small))).1

  -- The bytes of the file stand at `dst`, and no byte has changed but those of its pages and of the
  -- two buffers.
  pub record ReadsFile (out : Memory) : Type 0 where
    pub inside : (k : ℕ) → k < size_of v file → out (dst + k) ≡ byte v.bytes file k
    pub outside :
        (a : ℕ)
        → (a < pages) ⊎ (pages + 8192 ≤ a)
        → (a < dst) ⊎ (dst + 4096 * count ≤ a)
        → out a ≡ m a

  mfs_read-none : count ≡ 0 → mfs_read bios lba_start pages buffer dst file m ≡ m0
  unfolding mfs_read mfs_file_size
  mfs_read-none z = let e = number ∙ z in rw e refl

  read_small :
      count ≤ 16
      → Listed v.bytes
          (slot v.bytes file)
          0
          count
          dst
          m1
          (mfs_read_data bios lba_start pages buffer dst count m1).1
  read_small few = (data_read count few (omega arith)).1

  mfs_read-ReadsFile_small :
      count ≢ 0 → count ≤ 16 → ReadsFile (mfs_read bios lba_start pages buffer dst file m)
  mfs_read-ReadsFile_small some few =
      let l = read_small few in
      rw (run_small some few) (record {
        inside = λ k h.
            ap (mfs_read_data bios lba_start pages buffer dst count m1).1 (omega arith)
            ∙ l.inside (k / 4096) (k % 4096) (omega arith) (omega arith)
            ∙ ap (λ j. at v.bytes (slot v.bytes file j) (k % 4096)) (omega arith);
        outside = λ a off_pages off_dst.
            l.outside a off_dst ∙ read1.outside a (omega arith) ∙ read0.outside a (omega arith);
      })

  mfs_read-ReadsFile_large :
      16 < count → ReadsFile (mfs_read bios lba_start pages buffer dst file m)
  unfolding m2 m3
  mfs_read-ReadsFile_large many =
      let l = (data_read 16 (omega arith) (omega (arith, many))).1 in
      let l' = idata-Listed many in
      let r = read3 many in
      rw (run_large many) (record {
        inside = λ k h. elim (dec_lt k (4096 * 16)) [
          | yes near ↦
              l'.outside (dst + k) (omega (arith, near))
              ∙ r.outside (dst + k) (omega (arith, apart))
              ∙ ap (mfs_read_data bios lba_start pages buffer dst 16 m1).1 (omega arith)
              ∙ l.inside (k / 4096) (k % 4096) (omega (arith, near)) (omega arith)
              ∙ ap (λ j. at v.bytes (slot v.bytes file j) (k % 4096)) (omega arith)
          | no far ↦
              ap (mfs_read_idata bios lba_start pages buffer (dst + 4096 * 16) (count - 16) m3).1
                (omega (arith, far))
              ∙ l'.inside (k / 4096 - 16) (k % 4096) (omega (arith, far)) (omega arith)
              ∙ ap (λ j. at v.bytes (slot v.bytes file j) (k % 4096)) (omega (arith, far))
        ];
        outside = λ a off_pages off_dst.
            l'.outside a (omega (arith, many))
            ∙ r.outside a (omega arith)
            ∙ l.outside a (omega (arith, many))
            ∙ read1.outside a (omega arith)
            ∙ read0.outside a (omega arith);
      })

  -- `mfs_read` of a file that is within the format, on a disk that has the volume: the bytes of the
  -- file stand at `dst`, and no byte has changed but those of its pages there and of the two page
  -- buffers.
  pub mfs_read-ReadsFile : ReadsFile (mfs_read bios lba_start pages buffer dst file m)
  mfs_read-ReadsFile = elim (ℕ_discrete count 0) [
    | yes z ↦ rw (mfs_read-none z) (record {
      inside = λ k h. absurd (omega (arith, z));
      outside = λ a off_pages off_dst. read0.outside a (omega arith);
    })
    | no some ↦ (elim (dec_lt 16 count) [
      | yes many ↦ mfs_read-ReadsFile_large many
      | no few ↦ mfs_read-ReadsFile_small some (omega (arith, few))
    ])
  ]
