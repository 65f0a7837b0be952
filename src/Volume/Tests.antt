-- ===== src/Volume/Tests.antt =====
-- A new volume, and the theorems there.
use fusee_os.Base.{ℕ, ◌<◌, ◌≤◌, ◌≡◌, arith, List, [], ◌∷◌, length, length-append, some}
use fusee_os.Volume.{Volume, size_of, file_write, ptr_from_data_index}
use fusee_os.Volume.Slots.{Fresh}
use fusee_os.Volume.Append.{IsFilled, Appended}
use fusee_os.Volume.Place.{Placed}
use fusee_os.Volume.Pointer.{ptr_from_data_index-Placed}
use fusee_os.Volume.Write.{file_write-Appended}
use fusee_os.Volume.Create.{make_volume-IsFilled}
use fusee_os.Volume.Start.{IsVolume, make_volume-IsVolume}
use fusee_os.Volume.Directory.{
  Link, IsDir, AreLinks, dir_bytes, head_bytes, length-head_bytes, find_file_dir-first_match,
}
use fusee_os.Volume.Extend.{find_file_dir-append_dir, append_dir-IsDir}
use fusee_os.Volume.Build.{append_dir, find_file_dir, make_volume}

abbrev volume : Volume
volume = make_volume 1000 0x100000

volume-few : volume.next_inode ≤ 2
volume-few = (make_volume-IsFilled 1000 0x100000).2

make_volume-IsVolume_example : IsVolume 0x100000 volume
make_volume-IsVolume_example = make_volume-IsVolume 1000 0x100000 (omega arith) (omega arith)

root-IsFilled : IsFilled volume volume.root
root-IsFilled = (make_volume-IsFilled 1000 0x100000).0

volume-Fresh : Fresh volume.bytes volume.next_inode
volume-Fresh = root-IsFilled.is_file.fresh

root_size : size_of volume volume.root ≡ 0
root_size = (make_volume-IsFilled 1000 0x100000).1

ptr_from_data_index-Placed_example :
    (r : ℕ) × (v' : Volume) × (ptr_from_data_index volume volume.root 20 ≡ some (r, v'))
    × Placed volume volume.root 20 r v'
ptr_from_data_index-Placed_example =
    ptr_from_data_index-Placed volume volume.root 20 root-IsFilled.is_file (omega arith)
      (omega (arith, volume-few))

abbrev bytes : List ℕ
bytes = 7 ∷ 8 ∷ 9 ∷ []

file_write-Appended_example :
    (v' : Volume) × (file_write 4 volume
        (record { file = volume.root; pos = size_of volume volume.root })
        bytes
      ≡ some (record { file = volume.root; pos = size_of v' volume.root }, v'))
    × Appended volume volume.root bytes v'
file_write-Appended_example =
    file_write-Appended 4 volume volume.root bytes root-IsFilled (omega arith)
      (omega (arith, root_size)) (omega (arith, volume-few))

abbrev link : Link
link = record { inode = 7; name = b'b' ∷ b'i' ∷ b'n' ∷ [] }

root-IsDir : IsDir volume volume.root []
root-IsDir = record { filled = root-IsFilled; links = tt; bytes = tt; size = root_size }

link-AreLinks : AreLinks (link ∷ [])
link-AreLinks = (omega arith, omega arith, (omega arith, (omega arith, (omega arith, tt))), tt)

fits : length (dir_bytes (link ∷ [])) < 40
fits = omega (
  arith,
  length-head_bytes link,
  length-append (head_bytes link) link.name,
  length-append link.name [],
)

find_file_dir-append_dir_example :
    (v' : Volume) × (append_dir 40 volume volume.root link.name 7 ≡ some v')
    × IsDir v' volume.root (link ∷ [])
    × (find_file_dir 40 v' volume.root link.name (λ a. 0) (λ a. 0) ≡ some (7, v'))
find_file_dir-append_dir_example =
    find_file_dir-append_dir 40 volume volume.root [] link (λ a. 0) (λ a. 0) root-IsDir
      link-AreLinks tt (omega arith) fits (omega (arith, root_size)) (omega (arith, volume-few))

-- The root with the entry.
linked :
    (v' : Volume) × (append_dir 40 volume volume.root link.name 7 ≡ some v')
    × IsDir v' volume.root (link ∷ [])
linked =
    append_dir-IsDir 40 volume volume.root [] link root-IsDir link-AreLinks (omega arith)
      (omega arith) (omega (arith, root_size)) (omega (arith, volume-few))

-- "bin" is found for "bin2".
find_file_dir-first_match_example :
    find_file_dir 40 linked.0 volume.root (b'b' ∷ b'i' ∷ b'n' ∷ b'2' ∷ []) (λ a. 0) (λ a. 0)
    ≡ some (7, linked.0)
find_file_dir-first_match_example =
    find_file_dir-first_match 40 linked.0 volume.root (link ∷ []) (b'b' ∷ b'i' ∷ b'n' ∷ b'2' ∷ [])
      (λ a. 0) (λ a. 0) linked.2 (omega arith) fits
