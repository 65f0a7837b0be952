-- ===== src/Mfs/Pages.antt =====
-- The reading of pages from the disk.
use fusee_os.Base.{
  ℕ, ◌+◌, ◌*◌, ◌^◌, ◌≤◌, ◌<◌, ◌≡◌, refl, ◌∙◌, ap, ◌⊎◌, arith, Memory, bytes_at, length-bytes_at,
  get_or-bytes_at, bit_and, u64, ◌>>>◌,
}
use fusee_os.Base.Bits.{bit_and_mask}
use fusee_os.Base.Bytes.{write_bytes, write_bytes_inside, write_bytes_outside}
use fusee_os.Volume.{inode_page}
use fusee_os.Mfs.{Bios, DiskAccessPacket, read_sectors_from, disk_read_raw, mfs_read_page}

-- The packet for the page of an inode.
abbrev page_lba : ℕ → ℕ → ℕ
page_lba lba_start inode = u64 (u64 ((64 + inode) * 8) + lba_start)

abbrev packet : ℕ → DiskAccessPacket
packet lba = record { transfer_size = 8; lba_lo = bit_and lba 0xffffffff; lba_hi = lba >>> 32 }

-- A page of the volume is read to an address.
pub record PageRead (vol : Memory) (m : Memory) (page inode : ℕ) (out : Memory) : Type 0 where
  pub inside : (x : ℕ) → x < 4096 → out (page + x) ≡ vol (inode_page inode + x)
  pub outside : (a : ℕ) → (a < page) ⊎ (page + 4096 ≤ a) → out a ≡ m a

-- The disk has the pages of a volume up to inode `last` from the start of the partition on.
pub record HasVolume (disk : Memory) (lba_start : ℕ) (vol : Memory) (last : ℕ) : Type 0 where
  pub bytes : (a : ℕ) → a < inode_page (last + 1) → disk (lba_start * 512 + a) ≡ vol a
  pub small : last + lba_start < 2 ^ 56

module _ (bios : Bios) (lba_start pages : ℕ) (buffer vol : Memory) (last : ℕ)
    (d : HasVolume bios.disk lba_start vol last) where
  page_run :
      (m : Memory) (page inode : ℕ)
      → mfs_read_page bios lba_start pages buffer m page inode
        ≡ write_bytes m page
            (bytes_at (bios.read (packet (page_lba lba_start inode)) buffer) 0 4096)
  unfolding mfs_read_page disk_read_raw read_sectors_from
  page_run m page inode = refl

  pub mfs_read_page-PageRead :
      (m : Memory) (page inode : ℕ)
      → inode ≤ last
      → PageRead vol m page inode (mfs_read_page bios lba_start pages buffer m page inode)
  mfs_read_page-PageRead m page inode h =
      let lba = page_lba lba_start inode in
      let got = bios.read (packet lba) buffer in
      let len = length-bytes_at got 0 4096 in
      let small = d.small in
      let place : lba ≡ (64 + inode) * 8 + lba_start = omega arith in
      rw (page_run m page inode) (record {
        inside = λ x lt.
            write_bytes_inside m page (bytes_at got 0 4096) x (omega (arith, len))
            ∙ get_or-bytes_at got 0 4096 x lt
            ∙ bios.read_sectors (packet lba) buffer (0 + x) (omega arith)
            ∙ ap bios.disk (omega (arith, bit_and_mask 32 lba, place))
            ∙ d.bytes (inode_page inode + x) (omega arith);
        outside = λ a out. write_bytes_outside m page (bytes_at got 0 4096) a (omega (arith, len));
      })
