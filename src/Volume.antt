-- ===== src/Volume.antt =====
-- The volume tool, tools/mkvolume.c, over the format of include/fusee/mfs.h. The volume is the
-- memory that `calloc` returns; it goes on behind the size of the volume, since nothing tests for
-- the end. The program's `exit(1)` is `none`.
pub mod Words
pub mod Slots
pub mod Take
pub mod Place
pub mod Pointer
pub mod Agree
pub mod Append
pub mod Write
pub mod Create
pub mod Start
pub mod Contents
pub mod Reading
pub mod Directory
pub mod Extend
mod Tests
pub mod Build
use fusee_os.Base.{
  ℕ, zero, suc, ◌+◌, ◌-◌, ◌*◌, ◌/◌, ◌%◌, ◌^◌, bit_or, min, Bool, true, false, Option, none, some,
  List, [], ◌∷◌, ◌++◌, length, take, drop, get_or, Memory, store, bytes_at, ◌==◌, ltb, leb, ◌&&◌,
  ◌||◌, if◌then◌else◌, u8, u32, u64, sub64, ◌<<<◌,
}
use fusee_os.Base.Bytes.{write_bytes}
use fusee_os.Phys.{load_le}
use fusee_os.Spec

abbrev pub mfs_page_size : ℕ
mfs_page_size = 4096

abbrev pub mfs_reserved_pages : ℕ
mfs_reserved_pages = 64

abbrev pub mfs_metadata_page : ℕ
mfs_metadata_page = 63

abbrev pub mfs_bitmap_size : ℕ
mfs_bitmap_size = 4096 * 8

abbrev pub mfs_data_pointers : ℕ
mfs_data_pointers = 16

abbrev pub mfs_idata_pointers : ℕ
mfs_idata_pointers = 512

abbrev pub mfs_type_file : ℕ
mfs_type_file = 0x00000000

abbrev pub mfs_type_dir : ℕ
mfs_type_dir = 0x00010000

-- The offsets of the fields of `MfsPageFile`.
abbrev pub file_size : ℕ
file_size = 16

abbrev pub file_data : ℕ
file_data = 56

abbrev pub file_idata : ℕ
file_idata = 184

-- A number of `n` bytes is stored at `a`, the lowest byte first.
pub store_le : ℕ → Memory → ℕ → ℕ → Memory
store_le zero m a v = m
store_le (suc n) m a v = store_le n (store m a (v % 256)) (a + 1) (v / 256)

pub record Volume : Type 0 where
  pub size : ℕ
  pub bytes : Memory
  pub now : ℕ
  pub root : ℕ
  pub next_inode : ℕ

-- An open file: the inode page that `file` points to, and the position.
pub record File : Type 0 where
  pub file : ℕ
  pub pos : ℕ

-- The address of the page of an inode.
abbrev pub inode_page : ℕ → ℕ
inode_page inode = (mfs_reserved_pages + inode) * mfs_page_size

-- `volume->next_inode`, past the page of a bitmap.
abbrev pub following : ℕ → ℕ
following inode =
    let next = u64 (inode + 1) in if next % mfs_bitmap_size == 0 then u64 (next + 1) else next

pub alloc_page : Volume → ℕ × Volume
alloc_page v =
    let next = following v.next_inode in
    let bit = next % mfs_bitmap_size in
    let bitmap = next / mfs_bitmap_size * mfs_bitmap_size in
    let a = inode_page bitmap + bit / 8 in
    (
      next,
      record v {
        next_inode = next;
        bytes = store v.bytes a (u8 (bit_or (v.bytes a) (1 <<< (bit % 8))));
      },
    )

pub inode_open : ℕ → File
inode_open inode = record { file = inode; pos = 0 }

-- The inode stored at an address, of a new page if there is none yet.
pub page_at : Volume → ℕ → ℕ × Volume
page_at v a =
    let inode = load_le 8 v.bytes a in
    let (new, v') = alloc_page v in
    if inode == 0 then (new, record v' { bytes = store_le 8 v'.bytes a new }) else (inode, v)

-- The inode of the page with the data, instead of its address.
pub ptr_from_data_index : Volume → ℕ → ℕ → Option (ℕ × Volume)
ptr_from_data_index v file index =
    if ltb index 16
    then some (page_at v (inode_page file + file_data + 8 * index))
    else (if ltb index (mfs_idata_pointers + 16)
        then (let (inode, v') = page_at v (inode_page file + file_idata) in
            some (page_at v' (inode_page inode + 8 * (index - 16))))
        else none)

abbrev pub size_of : Volume → ℕ → ℕ
size_of v file = load_le 8 v.bytes (inode_page file + file_size)

-- `file_read`, which returns the bytes that it copies to the buffer, on fuel; `none` also if the
-- fuel runs out.
pub file_read : ℕ → Volume → File → ℕ → Option (List ℕ × File × Volume)
file_read zero v f len = none
file_read (suc fuel) v f len =
    let size = size_of v f.file in
    let offset = f.pos % mfs_page_size in
    elim ((len == 0) || (f.pos == size)) [
      | true ↦ some ([], f, v)
      | false ↦ (elim (ptr_from_data_index v f.file (f.pos / mfs_page_size)) [
        | none ↦ none
        | some (inode, v') ↦
            (let tmp = min (mfs_page_size - offset) len in
              let tmp = if ltb size (u64 (tmp + f.pos)) then sub64 size f.pos else tmp in
              let rest = file_read fuel v' (record f { pos = u64 (f.pos + tmp) }) (sub64 len tmp) in
              elim rest [
                | none ↦ none
                | some (bs, f', v'') ↦
                    some (bytes_at v'.bytes (inode_page inode + offset) tmp ++ bs, f', v'')
              ])
      ])
    ]

-- One round of `file_write` for the `tmp` bytes `bs`, into the page of an inode.
pub write_chunk : Volume → File → ℕ → List ℕ → File × Volume
write_chunk v f inode bs =
    let tmp = length bs in
    let bytes = write_bytes v.bytes (inode_page inode + f.pos % mfs_page_size) bs in
    let a = inode_page f.file + file_size in
    (
      record f { pos = u64 (f.pos + tmp) },
      record v { bytes = store_le 8 bytes a (u64 (load_le 8 bytes a + tmp)) },
    )

-- `file_write` of the bytes `bs`, on fuel.
pub file_write : ℕ → Volume → File → List ℕ → Option (File × Volume)
file_write zero v f bs = none
file_write (suc fuel) v f [] = some (f, v)
file_write (suc fuel) v f (b ∷ bs) = elim (ptr_from_data_index v f.file (f.pos / mfs_page_size)) [
  | none ↦ none
  | some (inode, v') ↦
      (let tmp = min (mfs_page_size - f.pos % mfs_page_size) (length (b ∷ bs)) in
        let (f', v'') = write_chunk v' f inode (take tmp (b ∷ bs)) in
        file_write fuel v'' f' (drop tmp (b ∷ bs)))
]

pub create_file_raw : Volume → ℕ → ℕ × Volume
create_file_raw v mode =
    let (inode, v') = alloc_page v in
    let a = inode_page inode in
    let m = store_le 4 v'.bytes a mode in
    let m = store_le 8 m (a + 24) v.now in
    let m = store_le 8 m (a + 32) v.now in
    let m = store_le 8 m (a + 40) v.now in
    (inode, record v' { bytes = store_le 8 m (a + 48) v.now })

pub create_directory : Volume → ℕ × Volume
create_directory v = create_file_raw v (bit_or mfs_type_dir 0x1ed)

pub create_file : Volume → ℕ × Volume
create_file v = create_file_raw v (bit_or mfs_type_file 0x1a4)
