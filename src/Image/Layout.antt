-- ===== src/Image/Layout.antt =====
-- The image that the tool writes.
use fusee_os.Base.{
  ℕ, ◌+◌, ◌-◌, ◌*◌, ◌/◌, ◌%◌, ◌^◌, ◌≤◌, ◌<◌, ◌≡◌, refl, ◌∙◌, ap, ◌⊎◌, if◌then◌else◌, inl, inr,
  arith, Bool-cases, ◌==◌, List, [], ◌∷◌, length, get_or,
}
use native.Mathlib.Nat.{mod-lt}
use fusee_os.Base.Bytes.{write_bytes, write_bytes_inside, write_bytes_outside}
use fusee_os.Image.{
  File, fwrite, pad, append, make_mbr, add_volume, make_image, volume_record, chs_bytes, lba_bytes,
}
use fusee_os.Image.Chs.{lba_bytes-le32}

pad_kept : (amount : ℕ) (f : File) (k : ℕ) → k < f.pos → (pad amount f).bytes k ≡ f.bytes k
unfolding pad fwrite
pad_kept amount f k h = elim (Bool-cases (f.pos % amount == 0)) [
  | inl e ↦ rw e refl
  | inr e ↦ rw e (
      write_bytes_outside f.bytes (f.pos + (amount - f.pos % amount - 1)) (0 ∷ []) k
        (inl (omega arith)))
]

pos-pad :
    (amount : ℕ) (f : File)
    → 0 < amount
    → (pad amount f).pos
      ≡ (if f.pos % amount == 0 then f.pos else f.pos + (amount - f.pos % amount))
unfolding pad fwrite
pos-pad amount f h = elim (Bool-cases (f.pos % amount == 0)) [
  | inl e ↦ rw e refl
  | inr e ↦ rw e (omega (arith, mod-lt f.pos h))
]

-- The image of a boot sector `mbr` and a volume at sector 64.
pub record IsImage (mbr volume : List ℕ) (f : File) : Type 0 where
  pub boot : (k : ℕ) → k < length mbr → (k < 0x1be) ⊎ (0x1ce ≤ k) → f.bytes k ≡ get_or mbr k 0
  pub bootable : f.bytes 0x1be ≡ 0x80
  pub lba_start :
      f.bytes 0x1c6 + 2 ^ 8 * f.bytes 0x1c7 + 2 ^ 16 * f.bytes 0x1c8 + 2 ^ 24 * f.bytes 0x1c9 ≡ 64
  pub lba_size :
      f.bytes 0x1ca + 2 ^ 8 * f.bytes 0x1cb + 2 ^ 16 * f.bytes 0x1cc + 2 ^ 24 * f.bytes 0x1cd
      ≡ length volume / 512
  pub partition : (k : ℕ) → k < length volume → f.bytes (64 * 512 + k) ≡ get_or volume k 0
  pub aligned : f.pos % (512 * 63 * 256) ≡ 0

module _ (mbr volume : List ℕ) (f : File) (at_start : f.pos ≡ 0) (some_code : 0 < length mbr)
    (short_code : length mbr ≤ 64 * 512) (short : length volume < 2 ^ 41) where
  boot_part : File
  boot_part = make_mbr mbr f

  pos-boot_part : boot_part.pos ≡ 64 * 512
  unfolding boot_part make_mbr append fwrite
  pos-boot_part = pos-pad (512 * 64) (fwrite mbr f) (omega arith) ∙ ground (arith, at_start)

  boot_part_bytes : (k : ℕ) → k < length mbr → boot_part.bytes k ≡ get_or mbr k 0
  unfolding boot_part make_mbr append fwrite
  boot_part_bytes k h =
      pad_kept (512 * 64) (fwrite mbr f) k (omega (arith, at_start))
      ∙ ap (write_bytes f.bytes f.pos mbr) (omega (arith, at_start))
      ∙ write_bytes_inside f.bytes f.pos mbr k h

  copied : File
  copied = pad 512 (fwrite volume boot_part)

  copied_volume : (k : ℕ) → k < length volume → copied.bytes (64 * 512 + k) ≡ get_or volume k 0
  unfolding copied fwrite
  copied_volume k h =
      pad_kept 512 (fwrite volume boot_part) (64 * 512 + k) (omega (arith, pos-boot_part))
      ∙ ap (write_bytes boot_part.bytes boot_part.pos volume) (omega (arith, pos-boot_part))
      ∙ write_bytes_inside boot_part.bytes boot_part.pos volume k h

  copied_boot : (k : ℕ) → k < length mbr → copied.bytes k ≡ get_or mbr k 0
  unfolding copied fwrite
  copied_boot k h =
      pad_kept 512 (fwrite volume boot_part) k (omega (arith, pos-boot_part))
      ∙ write_bytes_outside boot_part.bytes boot_part.pos volume k
          (inl (omega (arith, pos-boot_part)))
      ∙ boot_part_bytes k h

  copied_end : 64 * 512 + length volume ≤ copied.pos
  unfolding copied fwrite
  copied_end = ground (arith, pos-pad 512 (fwrite volume boot_part) (omega arith), pos-boot_part)

  record_of : List ℕ
  record_of = volume_record (64 * 512) (length volume)

  length-record_of : length record_of ≡ 16
  unfolding record_of volume_record chs_bytes lba_bytes
  length-record_of = refl

  finished : File
  finished = add_volume volume boot_part

  finished_bytes : (k : ℕ) → finished.bytes k ≡ write_bytes copied.bytes 0x1be record_of k
  unfolding finished add_volume append fwrite record_of copied
  finished_bytes k =
      ap
        (λ base.
          write_bytes (pad 512 (fwrite volume boot_part)).bytes 0x1be
            (volume_record base (length volume)) k)
        pos-boot_part

  finished_record : (i : ℕ) → i < 16 → finished.bytes (0x1be + i) ≡ get_or record_of i 0
  finished_record i h =
      finished_bytes (0x1be + i)
      ∙ write_bytes_inside copied.bytes 0x1be record_of i (omega (arith, length-record_of))

  finished_outside : (k : ℕ) → (k < 0x1be) ⊎ (0x1ce ≤ k) → finished.bytes k ≡ copied.bytes k
  finished_outside k h =
      finished_bytes k
      ∙ write_bytes_outside copied.bytes 0x1be record_of k (omega (arith, length-record_of))

  pos-finished : finished.pos ≡ copied.pos
  unfolding finished add_volume append fwrite copied
  pos-finished = refl

  image_kept :
      (k : ℕ) → k < 64 * 512 + length volume → (make_image mbr volume f).bytes k ≡ finished.bytes k
  unfolding make_image finished boot_part
  image_kept k h = pad_kept (512 * 63 * 256) finished k (omega (arith, pos-finished, copied_end))

  image_record :
      (i : ℕ) → i < 16 → (make_image mbr volume f).bytes (0x1be + i) ≡ get_or record_of i 0
  image_record i h = image_kept (0x1be + i) (omega arith) ∙ finished_record i h

  image_start :
      get_or record_of 8 0
        + 2 ^ 8 * get_or record_of 9 0
        + 2 ^ 16 * get_or record_of 10 0
        + 2 ^ 24 * get_or record_of 11 0
      ≡ 64
  unfolding record_of volume_record chs_bytes lba_bytes
  image_start = lba_bytes-le32 64 (omega arith)

  image_size :
      get_or record_of 12 0
        + 2 ^ 8 * get_or record_of 13 0
        + 2 ^ 16 * get_or record_of 14 0
        + 2 ^ 24 * get_or record_of 15 0
      ≡ length volume / 512
  unfolding record_of volume_record chs_bytes lba_bytes
  image_size = lba_bytes-le32 (length volume / 512) (omega arith)

  image_aligned : (make_image mbr volume f).pos % (512 * 63 * 256) ≡ 0
  unfolding make_image finished boot_part
  image_aligned = ground (arith, pos-pad (512 * 63 * 256) finished (omega arith))

  -- For a boot sector of at most 64 sectors and a volume of fewer than 2^41 bytes, written from the
  -- start of a file, `make_image` puts the volume at sector 64, and writes an active partition
  -- record from which the start sector and the number of whole sectors are read back; the boot
  -- sector's bytes outside the record are kept, and the file ends at a whole cylinder.
  pub make_image-IsImage : IsImage mbr volume (make_image mbr volume f)
  unfolding record_of volume_record
  make_image-IsImage = record {
    boot = λ k h o. image_kept k (omega arith) ∙ finished_outside k o ∙ copied_boot k h;
    bootable = image_record 0 (omega arith);
    lba_start = omega (
      arith,
      image_record 8 (omega arith),
      image_record 9 (omega arith),
      image_record 10 (omega arith),
      image_record 11 (omega arith),
      image_start,
    );
    lba_size = omega (
      arith,
      image_record 12 (omega arith),
      image_record 13 (omega arith),
      image_record 14 (omega arith),
      image_record 15 (omega arith),
      image_size,
    );
    partition = λ k h.
        image_kept (64 * 512 + k) (omega arith)
        ∙ finished_outside (64 * 512 + k) (inr (omega arith))
        ∙ copied_volume k h;
    aligned = image_aligned;
  }
