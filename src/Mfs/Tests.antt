-- ===== src/Mfs/Tests.antt =====
-- A file of three bytes, from the volume tool to the boot loader.
use fusee_os.Base.{
  ℕ, ◌+◌, ◌-◌, ◌*◌, ◌^◌, ◌≤◌, ◌<◌, ◌≡◌, ap, inl, arith, List, [], ◌∷◌, get_or, Memory, some, ltb,
  if◌then◌else◌,
}
use fusee_os.Volume.{Volume, create_file, inode_open}
use fusee_os.Volume.Slots.{Fresh}
use fusee_os.Volume.Build.{make_volume, copy_contents}
use fusee_os.Volume.Create.{make_volume-IsFilled}
use fusee_os.Volume.Contents.{HasContents, copy_contents-HasContents}
use fusee_os.Mfs.{Bios, DiskAccessPacket, mfs_read, mfs_file_size}
use fusee_os.Mfs.Pages.{HasVolume}
use fusee_os.Mfs.RoundTrip.{mfs_read-copy_contents}

-- A drive whose extended read copies the sectors.
module _ (disk : Memory) where
  abbrev read_drive : DiskAccessPacket → Memory → Memory
  read_drive dap buffer k =
      if ltb k (dap.transfer_size * 512)
      then disk ((dap.lba_lo + dap.lba_hi * 2 ^ 32) * 512 + k)
      else buffer k

  read_drive_sectors :
      (dap : DiskAccessPacket) (buffer : Memory) (k : ℕ)
      → k < dap.transfer_size * 512
      → read_drive dap buffer k ≡ disk ((dap.lba_lo + dap.lba_hi * 2 ^ 32) * 512 + k)
  read_drive_sectors dap buffer k h = ground (arith, h)

  abbrev drive : Bios
  drive = record { disk = disk; read = read_drive; read_sectors = read_drive_sectors }

abbrev volume : Volume
volume = make_volume 1000 0x100000

abbrev bytes : List ℕ
bytes = 7 ∷ 8 ∷ 9 ∷ []

volume-Fresh : Fresh volume.bytes volume.next_inode
volume-Fresh = (make_volume-IsFilled 1000 0x100000).0.is_file.fresh

volume-few : volume.next_inode ≤ 2
volume-few = (make_volume-IsFilled 1000 0x100000).2

-- The volume with the file, on a drive where its partition begins at sector 63.
copied :
    let (file, v1) = create_file volume in
    (v' : Volume) × (copy_contents 4 v1 (inode_open file) bytes ≡ some v')
    × HasContents file bytes v'
    × (v'.next_inode ≤ volume.next_inode + 2 + 4 * 3)
copied =
    copy_contents-HasContents 4 volume bytes volume-Fresh (omega arith) (omega arith)
      (omega (arith, volume-few))

abbrev on_disk : Memory
on_disk a = copied.0.bytes (a - 63 * 512)

on_disk-HasVolume : HasVolume on_disk 63 copied.0.bytes copied.0.next_inode
on_disk-HasVolume = record {
  bytes = λ a h. ap copied.0.bytes (omega arith);
  small = omega (arith, copied.3, volume-few);
}

mfs_read-copy_contents_example :
    ((mfs_file_size (drive on_disk) 63 0x9000 (λ k. 0) (λ k. 0) (create_file volume).0).0 ≡ 3)
    × ((k : ℕ)
        → k < 3
        → mfs_read
            (drive on_disk)
            63
            0x9000
            (λ k. 0)
            0x100000
            (create_file volume).0
            (λ k. 0)
            (0x100000 + k)
          ≡ get_or bytes k 0)
mfs_read-copy_contents_example =
    mfs_read-copy_contents (drive on_disk) 63 0x9000 (λ k. 0) volume copied.0 bytes 0x100000
      (λ k. 0) volume-Fresh (omega (arith, volume-few)) (omega arith) copied.1 on_disk-HasVolume
      (inl (omega arith))
