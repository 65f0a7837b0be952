-- ===== src/Initram/Tests.antt =====
-- A disk of two files, and the theorems there.
use fusee_os.Base.{◌-◌, ◌≡◌, refl, arith, some, List, [], ◌∷◌, get_or, Memory, ltb, if◌then◌else◌}
use fusee_os.Initram.{
  Disk, added, add_file, add_files, init_initram, save_initram, initram_lookup, header_bytes,
  entry_bytes, entries_bytes, le_bytes, placed,
}
use fusee_os.Initram.Layout.{Holds}
use fusee_os.Initram.Build.{File, readable, IsCounted}
use fusee_os.Initram.Lookup.{PointsTo, initram_lookup-PointsTo}

-- "a" with "xy" and "ab" with "z".
abbrev files : List File
files = (b'a' ∷ [], b'x' ∷ b'y' ∷ []) ∷ (b'a' ∷ b'b' ∷ [], b'z' ∷ []) ∷ []

abbrev disk : Disk
disk = record {
  header = record {
    fh_cnt = 2;
    fh_off = 0;
    fh_size = 64;
    sh_off = 0;
    sh_size = 5;
    data_off = 0;
    data_size = 3;
  };
  entries =
      record { name_off = 0; name_size = 1; data_off = 0; data_size = 2 }
      ∷ record { name_off = 2; name_size = 2; data_off = 2; data_size = 1 }
      ∷ [];
  names = b'a' ∷ 0 ∷ b'a' ∷ b'b' ∷ 0 ∷ [];
  contents = b'x' ∷ b'y' ∷ b'z' ∷ [];
}

-- The disk at address 0, and the query "ab" at 0x1000.
abbrev memory : Memory
memory a =
    if ltb a 0x1000
    then get_or (save_initram disk) a 0
    else get_or (b'a' ∷ b'b' ∷ []) (a - 0x1000) 0

disk-files : add_files (readable files) init_initram ≡ some disk
unfolding add_files add_file added init_initram
disk-files = refl

init_initram-IsCounted : IsCounted init_initram
unfolding init_initram
init_initram-IsCounted = record { count = refl; table = refl; names = refl; contents = refl }

memory-disk : Holds memory 0 (save_initram disk)
unfolding save_initram header_bytes entries_bytes entry_bytes le_bytes placed
memory-disk = omega arith

-- The query "ab" finds the file "a", which comes first.
initram_lookup-PointsTo_example :
    PointsTo memory (some (b'x' ∷ b'y' ∷ [])) (initram_lookup memory 0 0x1000)
initram_lookup-PointsTo_example =
    initram_lookup-PointsTo files disk (b'a' ∷ b'b' ∷ []) memory 0 0x1000 (omega arith)
      (omega arith) (omega arith) (omega arith) disk-files memory-disk (omega arith)
