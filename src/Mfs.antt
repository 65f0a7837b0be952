-- ===== src/Mfs.antt =====
-- The boot loader's reader of a volume, src/boot/bootloader/mfs.c and disk.c. The call of the BIOS
-- that reads sectors is a parameter.
pub mod Pages
pub mod Listed
pub mod Read
pub mod RoundTrip
mod Tests
use fusee_os.Base.{
  ℕ, zero, suc, ◌+◌, ◌-◌, ◌*◌, ◌/◌, ◌%◌, ◌^◌, ◌<◌, ◌≡◌, bit_and, Bool, true, false, Option, none,
  some, ◌&&◌, Memory, bytes_at, ◌==◌, ltb, if◌then◌else◌, u32, u64, ◌>>>◌,
}
use fusee_os.Base.Bytes.{write_bytes}
use fusee_os.Phys.{load_le}
use fusee_os.Libc.{strlen, memcmp}
use fusee_os.Initram.{is_zero}
use fusee_os.Volume.{
  mfs_page_size, mfs_reserved_pages, mfs_metadata_page, mfs_data_pointers, mfs_idata_pointers,
  file_size, file_data, file_idata,
}

-- The packet for the BIOS, with the fields that change.
pub record DiskAccessPacket : Type 0 where
  pub transfer_size : ℕ
  pub lba_lo : ℕ
  pub lba_hi : ℕ

-- What the extended read of the BIOS leaves in the buffer, and that it is the sectors' bytes.
pub record Bios : Type 0 where
  pub disk : Memory
  pub read : DiskAccessPacket → Memory → Memory
  pub read_sectors :
      (dap : DiskAccessPacket) (buffer : Memory) (k : ℕ)
      → k < dap.transfer_size * 512
      → read dap buffer k ≡ disk ((dap.lba_lo + dap.lba_hi * 2 ^ 32) * 512 + k)

-- `lba_start` is that of the partition, and `pages` the address of `gPages`.
module _ (bios : Bios) (lba_start pages : ℕ) where
  -- The loop of `disk_read_raw` in at most `n` rounds, with `buffer` on the stack.
  pub read_sectors_from : ℕ → Memory → Memory → ℕ → ℕ → ℕ → Memory
  read_sectors_from zero m buffer dst lba sectors = m
  read_sectors_from (suc n) m buffer dst lba sectors =
      let nsectors = if ltb 8 sectors then 8 else sectors in
      let dap : DiskAccessPacket = record {
        transfer_size = nsectors;
        lba_lo = bit_and lba 0xffffffff;
        lba_hi = lba >>> 32;
      } in
      let buffer = bios.read dap buffer in
      let m' = write_bytes m dst (bytes_at buffer 0 (nsectors * 512)) in
      let rest =
        read_sectors_from n m' buffer (dst + nsectors * 512) (u64 (lba + nsectors))
          (sectors - nsectors) in
      if sectors == 0 then m else rest

  -- Every round reads a sector at least.
  pub disk_read_raw : Memory → Memory → ℕ → ℕ → ℕ → Memory
  disk_read_raw m buffer dst lba sectors =
      read_sectors_from sectors m buffer dst (u64 (lba + lba_start)) sectors

  -- The stack's buffer starts with anything.
  module _ (buffer : Memory) where
    pub mfs_read_page : Memory → ℕ → ℕ → Memory
    mfs_read_page m page inode =
        disk_read_raw m buffer page (u64 ((mfs_reserved_pages + inode) * 8)) (mfs_page_size / 512)

    -- `metadata` is the address of `gMetadata`.
    pub mfs_init : ℕ → Memory → Memory
    mfs_init metadata m =
        disk_read_raw m buffer metadata (mfs_metadata_page * 8) (mfs_page_size / 512)

    -- The loop of `mfs_lookup_at` from the entry at `dir`, on fuel. It has no end of its own.
    pub lookup_entry : ℕ → Memory → ℕ → ℕ → ℕ → Option ℕ
    lookup_entry zero m name namelen dir = none
    lookup_entry (suc fuel) m name namelen dir =
        let size = load_le 4 m (dir + 8) in
        let rest = lookup_entry fuel m name namelen (dir + 12 + size) in
        if (size == namelen) && is_zero (memcmp m name (dir + 12) namelen)
        then some (load_le 8 m dir)
        else rest

    pub mfs_lookup_at : ℕ → Memory → ℕ → ℕ → Option (ℕ × Memory)
    mfs_lookup_at fuel m inode name =
        let m = mfs_read_page m pages inode in
        let m = mfs_read_page m pages (load_le 8 m (pages + file_data)) in
        elim (strlen fuel m name) [
          | none ↦ none
          | some n ↦ (elim (lookup_entry fuel m name (u32 n) pages) [
            | none ↦ none
            | some found ↦ some (found, m)
          ])
        ]

    pub mfs_lookup_root : ℕ → ℕ → Memory → ℕ → Option (ℕ × Memory)
    mfs_lookup_root metadata fuel m name = mfs_lookup_at fuel m (load_le 8 m (metadata + 16)) name

    pub mfs_file_size : Memory → ℕ → ℕ × Memory
    mfs_file_size m inode =
        let m = mfs_read_page m pages inode in (load_le 8 m (pages + file_size), m)

    -- The loops of `mfs_read_data` and `mfs_read_idata`, over the inodes in a table from index `i`
    -- on, with `n` left.
    pub read_listed : ℕ → ℕ → ℕ → ℕ → Memory → ℕ × Memory
    read_listed table zero i dst m = (dst, m)
    read_listed table (suc n) i dst m =
        read_listed table n (i + 1) (dst + mfs_page_size)
          (mfs_read_page m dst (load_le 8 m (table + 8 * i)))

    pub mfs_read_idata : ℕ → ℕ → Memory → ℕ × Memory
    mfs_read_idata dst count m = read_listed (pages + mfs_page_size) count 0 dst m

    pub mfs_read_data : ℕ → ℕ → Memory → ℕ × Memory
    mfs_read_data dst count m = read_listed (pages + file_data) count 0 dst m

    pub mfs_read : ℕ → ℕ → Memory → Memory
    mfs_read dst inode m =
        let (size, m) = mfs_file_size m inode in
        let npages = u32 (u64 (size + mfs_page_size - 1) / mfs_page_size) in
        let m1 = mfs_read_page m pages inode in
        let tmp = if ltb mfs_data_pointers npages then mfs_data_pointers else npages in
        let (dst, m2) = mfs_read_data dst tmp m1 in
        let npages' = npages - tmp in
        let m3 = mfs_read_page m2 (pages + mfs_page_size) (load_le 8 m2 (pages + file_idata)) in
        let tmp' = if ltb mfs_idata_pointers npages' then mfs_idata_pointers else npages' in
        if npages == 0 then m else (if npages' == 0 then m2 else (mfs_read_idata dst tmp' m3).1)
