-- ===== src/Initram.antt =====
-- The initial ramdisk: tools/mkinitram.c writes it, src/libboot/initram.c looks files up in it, and
-- include/fusee/initram.h lays it out. The buffers of the tool are lists of what is in them; the
-- file that `add_file` reads is given by its contents, and `none` is the exit on a file that cannot
-- be opened.
pub mod Layout
pub mod Build
pub mod Lookup
mod Tests
use fusee_os.Base.{
  ℕ, zero, suc, ◌+◌, ◌*◌, ◌/◌, ◌%◌, ◌^◌, Bool, true, false, Option, none, some, List, [], ◌∷◌, ◌++◌,
  length, take, ltb, leb, ◌&&◌, if◌then◌else◌, u64, Memory, ℤ, pos, negsuc,
}
use fusee_os.Phys.{load_le}
use fusee_os.Libc.{memcmp}

-- `InitRamHeader`, its magic apart.
pub record Header : Type 0 where
  pub fh_cnt : ℕ
  pub fh_off : ℕ
  pub fh_size : ℕ
  pub sh_off : ℕ
  pub sh_size : ℕ
  pub data_off : ℕ
  pub data_size : ℕ

-- `InitRamFileEntry`
pub record Entry : Type 0 where
  pub name_off : ℕ
  pub name_size : ℕ
  pub data_off : ℕ
  pub data_size : ℕ

-- `InitRamDisk`
pub record Disk : Type 0 where
  pub header : Header
  pub entries : List Entry
  pub names : List ℕ
  pub contents : List ℕ

abbrev pub header_size : ℕ
header_size = 64

abbrev pub entry_size : ℕ
entry_size = 32

-- A little-endian number of `n` bytes.
pub le_bytes : ℕ → ℕ → List ℕ
le_bytes zero v = []
le_bytes (suc n) v = v % 256 ∷ le_bytes n (v / 256)

abbrev pub magic : List ℕ
magic = b'I' ∷ b'N' ∷ b'I' ∷ b'T' ∷ b'R' ∷ b'A' ∷ b'M' ∷ 0x7f ∷ []

pub header_bytes : Header → List ℕ
header_bytes h =
    magic
    ++ (le_bytes 8 h.fh_cnt
        ++ (le_bytes 8 h.fh_off
            ++ (le_bytes 8 h.fh_size
                ++ (le_bytes 8 h.sh_off
                    ++ (le_bytes 8 h.sh_size
                        ++ (le_bytes 8 h.data_off ++ le_bytes 8 h.data_size))))))

pub entry_bytes : Entry → List ℕ
entry_bytes e =
    le_bytes 8 e.name_off
    ++ (le_bytes 8 e.name_size ++ (le_bytes 8 e.data_off ++ le_bytes 8 e.data_size))

pub entries_bytes : List Entry → List ℕ
entries_bytes [] = []
entries_bytes (e ∷ es) = entry_bytes e ++ entries_bytes es

pub init_initram : Disk
init_initram = record {
  header = record {
    fh_cnt = 0;
    fh_off = 0;
    fh_size = 0;
    sh_off = 0;
    sh_size = 0;
    data_off = 0;
    data_size = 0;
  };
  entries = [];
  names = [];
  contents = [];
}

-- The buffers of `init_initram`: the entries, and the bytes of the names.
abbrev pub max_entries : ℕ
max_entries = 256

abbrev pub max_names : ℕ
max_names = 4096

-- The disk with one more file.
pub added : List ℕ → List ℕ → Disk → Disk
added name bytes rd =
    let h = rd.header in
    let namelen = length name in
    let file_size = length bytes in
    record {
      header = record h {
        sh_size = u64 (h.sh_size + (namelen + 1));
        data_size = u64 (h.data_size + file_size);
        fh_cnt = u64 (h.fh_cnt + 1);
        fh_size = u64 (h.fh_size + entry_size);
      };
      entries =
          rd.entries
          ++ (record {
            name_off = h.sh_size;
            name_size = namelen;
            data_off = h.data_size;
            data_size = file_size;
          }
              ∷ []);
      names = rd.names ++ (name ++ 0 ∷ []);
      contents = rd.contents ++ bytes;
    }

-- The file of the name `name` with the contents `bytes`, `none` where it cannot be opened. The
-- result is `none` too where the entry or the name is written behind the end of its buffer, which
-- the tool does not test.
pub add_file : List ℕ → Option (List ℕ) → Disk → Option Disk
add_file name none rd = none
add_file name (some bytes) rd =
    if ltb rd.header.fh_cnt max_entries && leb (rd.header.sh_size + (length name + 1)) max_names
    then some (added name bytes rd)
    else none

-- The header with its offsets, as `save_initram` sets them.
pub placed : Header → Header
placed h = record h {
  sh_off = header_size;
  fh_off = u64 (header_size + h.sh_size);
  data_off = u64 (u64 (header_size + h.sh_size) + h.fh_size);
}

-- The bytes of the file that `save_initram` writes.
pub save_initram : Disk → List ℕ
save_initram rd =
    let h = placed rd.header in
    header_bytes h
    ++ (take h.sh_size rd.names
        ++ (take h.fh_size (entries_bytes rd.entries) ++ take h.data_size rd.contents))

-- `main`'s loop, over the files that the specification names.
pub add_files : List (List ℕ × Option (List ℕ)) → Disk → Option Disk
add_files [] rd = some rd
add_files ((name, file) ∷ fs) rd = elim (add_file name file rd) [
  | none ↦ none
  | some rd' ↦ add_files fs rd'
]

-- The reader: the fields of the header at `base` and of the entry `i` of the table at `fe`.
abbrev pub read_u64 : Memory → ℕ → ℕ
read_u64 m a = load_le 8 m a

pub read_entry : Memory → ℕ → ℕ → Entry
read_entry m fe i =
    let a = fe + entry_size * i in
    record {
      name_off = read_u64 m a;
      name_size = read_u64 m (a + 8);
      data_off = read_u64 m (a + 16);
      data_size = read_u64 m (a + 24);
    }

abbrev pub is_zero : ℤ → Bool
is_zero (pos zero) = true
is_zero (pos (suc n)) = false
is_zero (negsuc n) = false

-- The loop of `initram_lookup` from entry `i`, with `n` entries left.
pub lookup_from : ℕ → ℕ → Memory → ℕ → ℕ → Option ℕ
lookup_from zero i m base name = none
lookup_from (suc n) i m base name =
    let fe = read_entry m (base + read_u64 m (base + 16)) i in
    let sh_off = read_u64 m (base + 32) in
    let data_off = read_u64 m (base + 48) in
    if is_zero (memcmp m name (base + sh_off + fe.name_off) fe.name_size)
    then some (base + data_off + fe.data_off)
    else lookup_from n (i + 1) m base name

-- The address of the file's contents, `none` for NULL.
pub initram_lookup : Memory → ℕ → ℕ → Option ℕ
initram_lookup m base name = lookup_from (read_u64 m (base + 8)) 0 m base name
