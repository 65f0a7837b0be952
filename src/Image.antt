-- ===== src/Image.antt =====
-- The disk image tool, tools/mkimage.c. A file is its bytes, zero where nothing is written, and the
-- position in it; the sources are given by their contents.
pub mod Chs
pub mod Layout
mod Tests
use fusee_os.Base.{
  ℕ, zero, suc, ◌+◌, ◌-◌, ◌*◌, ◌/◌, ◌%◌, ◌^◌, bit_and, bit_or, Bool, true, false, List, [], ◌∷◌,
  ◌==◌, length, ◌++◌, if◌then◌else◌, u8, u64, sub64, ◌>>>◌, Memory,
}
use fusee_os.Base.Bytes.{write_bytes}

pub record File : Type 0 where
  pub bytes : Memory
  pub pos : ℕ

abbrev pub max_sectors : ℕ
max_sectors = 63

abbrev pub max_heads : ℕ
max_heads = 256

-- `fwrite` of bytes at the position.
pub fwrite : List ℕ → File → File
fwrite bs f = record { bytes = write_bytes f.bytes f.pos bs; pos = f.pos + length bs }

pub pad : ℕ → File → File
pad amount f =
    let n = f.pos % amount in
    if n == 0 then f else fwrite (0 ∷ []) (record f { pos = f.pos + (amount - n - 1) })

-- The size that `append` returns is the length of the source.
pub append : List ℕ → File → ℕ × File
append source f = (length source, fwrite source f)

pub make_mbr : List ℕ → File → File
make_mbr mbr f = pad (512 * 64) (append mbr f).1

-- The cylinder, the head and the sector of a position in bytes.
pub to_chs : ℕ → ℕ × ℕ × ℕ
to_chs lba = (lba / (512 * 63 * 128), lba / (512 * 63) % 128, lba / 512 % 63 + 1)

-- Three bytes of the record; `char` is read as unsigned.
pub chs_bytes : ℕ × ℕ × ℕ → List ℕ
chs_bytes (cyl, head, sec) =
    u8 head ∷ u8 (bit_or (bit_and sec 0x3f) (bit_and (cyl >>> 2) 0xc0)) ∷ u8 cyl ∷ []

pub lba_bytes : ℕ → List ℕ
lba_bytes v =
    bit_and v 0xff ∷ bit_and (v >>> 8) 0xff ∷ bit_and (v >>> 16) 0xff ∷ bit_and (v >>> 24) 0xff ∷ []

-- The partition record of a volume of `size` bytes at `base`.
pub volume_record : ℕ → ℕ → List ℕ
volume_record base size =
    0x80
    ∷ (chs_bytes (to_chs base)
        ++ (0x60
            ∷ (chs_bytes (to_chs (sub64 (u64 (base + size)) 512))
                ++ (lba_bytes (base / 512) ++ lba_bytes (size / 512)))))

pub add_volume : List ℕ → File → File
add_volume volume f =
    let base = f.pos in
    let (size, f) = append volume f in
    let f = pad 512 f in
    let tmp = f.pos in
    let f = fwrite (volume_record base size) (record f { pos = 0x01be }) in record f { pos = tmp }

-- `main`, once the file is open.
pub make_image : List ℕ → List ℕ → File → File
make_image mbr volume f = pad (512 * max_sectors * max_heads) (add_volume volume (make_mbr mbr f))
