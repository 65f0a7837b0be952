-- ===== src/Mfs/RoundTrip.antt =====
-- What the volume tool writes is what the boot loader reads.
use fusee_os.Base.{
  ℕ, ◌+◌, ◌*◌, ◌^◌, ◌≤◌, ◌<◌, ◌≡◌, sym, ◌∙◌, ◌⊎◌, arith, List, length, get_or, Memory, some,
}
use mathlib.Core.Path.{subst}
use fusee_os.Volume.{Volume, inode_open, create_file}
use fusee_os.Volume.Slots.{Fresh}
use fusee_os.Volume.Build.{copy_contents}
use fusee_os.Volume.Contents.{HasContents, copy_contents-HasContents}
use fusee_os.Mfs.{Bios, mfs_read, mfs_file_size}
use fusee_os.Mfs.Pages.{HasVolume}
use fusee_os.Mfs.Read.{page_number, mfs_read-ReadsFile, mfs_file_size-size}

some_injective {ℓ} : {A : Type ℓ} {a b : A} → some a ≡ some b → a ≡ b
some_injective p = cc

-- A source file of at most 528 pages is copied to a new file of a volume, and the volume put on a
-- disk. Then the boot loader finds the file's size, and reads the very bytes of the source file,
-- wherever the memory for them lies apart from its two page buffers.
pub mfs_read-copy_contents :
    (bios : Bios) (lba_start pages : ℕ) (buffer : Memory) (v v' : Volume) (src : List ℕ) (dst : ℕ)
    (m : Memory)
    → Fresh v.bytes v.next_inode
    → v.next_inode < 2 ^ 62
    → length src ≤ 528 * 4096
    → let (file, v1) = create_file v in
      copy_contents (length src + 1) v1 (inode_open file) src ≡ some v'
      → HasVolume bios.disk lba_start v'.bytes v'.next_inode
      → (pages + 8192 ≤ dst) ⊎ (dst + 4096 * page_number (length src) ≤ pages)
      → ((mfs_file_size bios lba_start pages buffer m (create_file v).0).0 ≡ length src)
        × ((k : ℕ)
            → k < length src
            → mfs_read bios lba_start pages buffer dst (create_file v).0 m (dst + k)
              ≡ get_or src k 0)
mfs_read-copy_contents bios lba_start pages buffer v v' src dst m fresh inodes room copied d apart =
    let file = (create_file v).0 in
    let (w, result, h, few) =
      copy_contents-HasContents (length src + 1) v src fresh (omega arith) room inodes in
    let same : w ≡ v' = some_injective (sym result ∙ copied) in
    let c : HasContents file src v' = subst (λ u. HasContents file src u) same h in
    let apart' =
      subst (λ n. (pages + 8192 ≤ dst) ⊎ (dst + 4096 * page_number n ≤ pages)) (sym c.size) apart in
    let r = mfs_read-ReadsFile bios lba_start pages buffer v' file c.filled d dst m apart' in
    (
      mfs_file_size-size bios lba_start pages buffer v' file c.filled d dst m apart' ∙ c.size,
      λ k lt. r.inside k (omega (arith, c.size)) ∙ c.bytes k lt,
    )
