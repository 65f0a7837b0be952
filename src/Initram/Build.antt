-- ===== src/Initram/Build.antt =====
-- The disk that `add_files` builds.
use mathlib.Core.List.{append_assoc, append-nil}
use fusee_os.Base.{
  ℕ, ◌+◌, ◌*◌, ◌^◌, ◌<◌, ◌≡◌, refl, sym, ◌∙◌, ap, ap₂, arith, Option, some, List, [], ◌∷◌, ◌++◌,
  length, length-append, ◌≤◌, lt→ltb, le→leb,
}
use fusee_os.Initram.{Entry, Disk, added, add_file, add_files}

-- A file with its name, and the files to add.
abbrev pub File : Type 0
File = List ℕ × List ℕ

abbrev pub readable : List File → List (List ℕ × Option (List ℕ))
readable [] = []
readable ((name, bytes) ∷ fs) = (name, some bytes) ∷ readable fs

abbrev pub names_of : List File → List ℕ
names_of [] = []
names_of ((name, bytes) ∷ fs) = (name ++ 0 ∷ []) ++ names_of fs

abbrev pub contents_of : List File → List ℕ
contents_of [] = []
contents_of ((name, bytes) ∷ fs) = bytes ++ contents_of fs

-- The entries of files whose names begin at `start` and whose contents begin at `off`.
abbrev pub entries_of : List File → ℕ → ℕ → List Entry
entries_of [] start off = []
entries_of ((name, bytes) ∷ fs) start off =
    record { name_off = start; name_size = length name; data_off = off; data_size = length bytes }
    ∷ entries_of fs (start + (length name + 1)) (off + length bytes)

-- The header counts what the buffers hold.
pub record IsCounted (rd : Disk) : Type 0 where
  pub count : rd.header.fh_cnt ≡ length rd.entries
  pub table : rd.header.fh_size ≡ 32 * length rd.entries
  pub names : rd.header.sh_size ≡ length rd.names
  pub contents : rd.header.data_size ≡ length rd.contents

-- The bytes that files take on the disk.
abbrev pub bytes_of : List File → ℕ
bytes_of [] = 0
bytes_of ((name, bytes) ∷ fs) = length name + 1 + 32 + length bytes + bytes_of fs

abbrev pub bytes_on : Disk → ℕ
bytes_on rd = length rd.names + 32 * length rd.entries + length rd.contents

pub record IsBuilt (fs : List File) (rd rd' : Disk) : Type 0 where
  pub counted : IsCounted rd'
  pub entries : rd'.entries ≡ rd.entries ++ entries_of fs (length rd.names) (length rd.contents)
  pub names : rd'.names ≡ rd.names ++ names_of fs
  pub contents : rd'.contents ≡ rd.contents ++ contents_of fs

-- One file.
add_file-IsBuilt :
    (name bytes : List ℕ) (rd : Disk)
    → IsCounted rd
    → length rd.entries < 256
    → length rd.names + (length name + 1) ≤ 4096
    → bytes_on rd + (length name + 1 + 32 + length bytes) < 2 ^ 64
    → (rd' : Disk) × (add_file name (some bytes) rd ≡ some rd')
      × IsBuilt ((name, bytes) ∷ []) rd rd'
unfolding add_file added
add_file-IsBuilt name bytes rd c few short fits =
    let entry : Entry = record {
      name_off = rd.header.sh_size;
      name_size = length name;
      data_off = rd.header.data_size;
      data_size = length bytes;
    } in
    let more_entries = length-append rd.entries (entry ∷ []) in
    let more_names = length-append rd.names (name ++ 0 ∷ []) in
    let more_contents = length-append rd.contents bytes in
    let name_end = length-append name (0 ∷ []) in
    (
      added name bytes rd,
      rw
          (
            lt→ltb rd.header.fh_cnt 256 (omega (arith, c.count)),
            le→leb (rd.header.sh_size + (length name + 1)) 4096 (omega (arith, c.names)),
          )
          refl,
      record {
        counted = record {
          count = omega (arith, c.count, more_entries);
          table = omega (arith, c.table, more_entries);
          names = omega (arith, c.names, more_names, name_end);
          contents = omega (arith, c.contents, more_contents);
        };
        entries = rw (c.names, c.contents) refl;
        names = ap (◌++◌ rd.names) (sym (append-nil (name ++ 0 ∷ [])));
        contents = ap (◌++◌ rd.contents) (sym (append-nil bytes));
      },
    )

-- `add_files` of files that can all be opened adds their names, entries and contents in order, and
-- the header counts them, as long as there are at most 256 entries, 4096 bytes of names with their
-- zeros, and all the bytes fit 64 bits.
pub add_files-IsBuilt :
    (fs : List File) (rd : Disk)
    → IsCounted rd
    → length rd.entries + length fs ≤ 256
    → length rd.names + length (names_of fs) ≤ 4096
    → bytes_on rd + bytes_of fs < 2 ^ 64
    → (rd' : Disk) × (add_files (readable fs) rd ≡ some rd') × IsBuilt fs rd rd'
unfolding add_files
add_files-IsBuilt [] rd c few short fits = (
  rd,
  refl,
  record {
    counted = c;
    entries = sym (append-nil rd.entries);
    names = sym (append-nil rd.names);
    contents = sym (append-nil rd.contents);
  },
)
add_files-IsBuilt ((name, bytes) ∷ fs) rd c few short fits =
    let name_end = length-append name (0 ∷ []) in
    let split = length-append (name ++ 0 ∷ []) (names_of fs) in
    let (rd1, run, one) =
      add_file-IsBuilt name bytes rd c (omega arith) (omega (arith, split, name_end))
        (omega arith) in
    let names_at : length rd1.names ≡ length rd.names + (length name + 1) =
      ap length one.names
      ∙ length-append rd.names ((name ++ 0 ∷ []) ++ [])
      ∙ ap (λ k. length rd.names + k) (ap length (append-nil (name ++ 0 ∷ [])) ∙ name_end) in
    let contents_at : length rd1.contents ≡ length rd.contents + length bytes =
      ap length one.contents
      ∙ length-append rd.contents (bytes ++ [])
      ∙ ap (λ k. length rd.contents + k) (ap length (append-nil bytes)) in
    let entries_at : length rd1.entries ≡ length rd.entries + 1 =
      ap length one.entries
      ∙ length-append rd.entries
          (entries_of ((name, bytes) ∷ []) (length rd.names) (length rd.contents)) in
    let (rd', runs, rest) =
      add_files-IsBuilt fs rd1 one.counted (omega (arith, entries_at))
        (omega (arith, names_at, split, name_end))
        (omega (arith, names_at, contents_at, entries_at)) in
    (
      rd',
      rw (run, add_files) runs,
      record {
        counted = rest.counted;
        entries =
            rest.entries
            ∙ ap₂ (λ xs ys. xs ++ ys) one.entries (ap₂ (entries_of fs) names_at contents_at)
            ∙ append_assoc rd.entries
                (entries_of ((name, bytes) ∷ []) (length rd.names) (length rd.contents)) _;
        names =
            rest.names
            ∙ ap (λ xs. xs ++ names_of fs) one.names
            ∙ append_assoc rd.names ((name ++ 0 ∷ []) ++ []) (names_of fs)
            ∙ ap (λ xs. rd.names ++ (xs ++ names_of fs)) (append-nil (name ++ 0 ∷ []));
        contents =
            rest.contents
            ∙ ap (λ xs. xs ++ contents_of fs) one.contents
            ∙ append_assoc rd.contents (bytes ++ []) (contents_of fs)
            ∙ ap (λ xs. rd.contents ++ (xs ++ contents_of fs)) (append-nil bytes);
      },
    )
