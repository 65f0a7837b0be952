-- ===== src/Volume/Start.antt =====
-- The volume that `make_volume` makes.
use fusee_os.Base.{
  ℕ, ◌+◌, ◌-◌, ◌*◌, ◌/◌, ◌%◌, ◌^◌, ◌≤◌, ◌<◌, ◌≡◌, refl, sym, ap, ◌∙◌, ◌⊎◌, ◌≢◌, Memory, inl, inr,
  arith, [], ◌∷◌,
}
use fusee_os.Base.Bytes.{write_bytes, write_bytes_outside}
use fusee_os.Phys.{load_le}
use fusee_os.Volume.{
  Volume, inode_page, size_of, store_le, alloc_page, create_file_raw, create_directory,
}
use fusee_os.Volume.Words.{
  store_le_outside, load_le-agree, load_le-store_le, load_le-store_le_apart,
}
use fusee_os.Volume.Append.{IsFilled}
use fusee_os.Volume.Build.{make_volume, empty_volume}
use fusee_os.Volume.Create.{make_volume-IsFilled}

-- A volume of `size` bytes, rounded up to pages, whose root is an empty directory.
pub record IsVolume (size : ℕ) (v : Volume) : Type 0 where
  pub root_file : IsFilled v v.root
  pub root_mode : load_le 4 v.bytes (inode_page v.root) ≡ 0x10000 + 0x1ed
  pub root_size : size_of v v.root ≡ 0
  pub root_field : load_le 8 v.bytes (63 * 4096 + 16) ≡ v.root
  pub page_count : load_le 8 v.bytes (63 * 4096 + 8) ≡ v.size / 4096
  pub rounded : (v.size % 4096 ≡ 0) × (size ≤ v.size) × (v.size < size + 4096)
  pub within : (k : ℕ) → v.size ≤ k → v.bytes k ≡ 0

made_root : (now size : ℕ) → (make_volume now size).root ≡ 1
unfolding make_volume create_directory create_file_raw alloc_page empty_volume
made_root now size = refl

module _ (now size : ℕ) where
  -- The volume before the root is made, the inode written, and the volume then.
  before : Volume
  before = empty_volume now size

  inode : ℕ
  inode = 65 * 4096

  a : ℕ
  a = 63 * 4096

  taken : Memory
  taken = (alloc_page before).1.bytes

  with_mode : Memory
  with_mode = store_le 4 taken inode (0x10000 + 0x1ed)

  with_times : Memory
  with_times =
      store_le 8
        (store_le 8 (store_le 8 (store_le 8 with_mode (inode + 24) now) (inode + 32) now)
          (inode + 40) now)
        (inode + 48) now

  made_bytes : (make_volume now size).bytes ≡ store_le 8 with_times (a + 16) 1
  unfolding make_volume create_directory create_file_raw alloc_page empty_volume before inode a
      taken with_mode with_times
  made_bytes = refl

  made_size : (make_volume now size).size ≡ (size + 4096 - 1) / 4096 * 4096
  unfolding make_volume create_directory create_file_raw alloc_page empty_volume
  made_size = refl

  taken_beside : (k : ℕ) → k ≢ 64 * 4096 → taken k ≡ before.bytes k
  unfolding taken alloc_page before empty_volume
  taken_beside k h = ground arith

  header : Memory
  header =
      store_le 4 (write_bytes (λ k. 0) (63 * 4096) (77 ∷ 101 ∷ 111 ∷ 119 ∷ [])) (63 * 4096 + 4)
        0x01000000

  before_bytes :
      before.bytes ≡ store_le 8 header (63 * 4096 + 8) ((size + 4096 - 1) / 4096 * 4096 / 4096)
  unfolding before empty_volume header
  before_bytes = refl

  made_mode : load_le 4 (make_volume now size).bytes inode ≡ 0x10000 + 0x1ed
  unfolding inode a with_times with_mode
  made_mode =
      ap (λ m. load_le 4 m inode) made_bytes
      ∙ load_le-store_le_apart 4 8 _ inode (a + 16) 1 (omega arith)
      ∙ load_le-store_le_apart 4 8 _ inode (inode + 48) now (omega arith)
      ∙ load_le-store_le_apart 4 8 _ inode (inode + 40) now (omega arith)
      ∙ load_le-store_le_apart 4 8 _ inode (inode + 32) now (omega arith)
      ∙ load_le-store_le_apart 4 8 _ inode (inode + 24) now (omega arith)
      ∙ load_le-store_le 4 taken inode (0x10000 + 0x1ed) (omega arith)

  made_root_field : load_le 8 (make_volume now size).bytes (63 * 4096 + 16) ≡ 1
  unfolding a
  made_root_field =
      ap (λ m. load_le 8 m (63 * 4096 + 16)) made_bytes
      ∙ load_le-store_le 8 with_times (a + 16) 1 (omega arith)

  beside :
      (k : ℕ)
      → (k < 63 * 4096 + 16) ⊎ (66 * 4096 ≤ k)
      → (make_volume now size).bytes k ≡ before.bytes k
  unfolding inode a with_times with_mode
  beside k h =
      ap (λ m. m k) made_bytes
      ∙ store_le_outside 8 _ (a + 16) 1 k (omega arith)
      ∙ store_le_outside 8 _ (inode + 48) now k (omega arith)
      ∙ store_le_outside 8 _ (inode + 40) now k (omega arith)
      ∙ store_le_outside 8 _ (inode + 32) now k (omega arith)
      ∙ store_le_outside 8 _ (inode + 24) now k (omega arith)
      ∙ store_le_outside 4 taken inode (0x10000 + 0x1ed) k (omega arith)
      ∙ taken_beside k (omega arith)

  before_blank : (k : ℕ) → 66 * 4096 ≤ k → before.bytes k ≡ 0
  unfolding header
  before_blank k h =
      ap (λ m. m k) before_bytes
      ∙ store_le_outside 8 header (63 * 4096 + 8) ((size + 4096 - 1) / 4096 * 4096 / 4096) k
          (omega arith)
      ∙ store_le_outside 4 _ (63 * 4096 + 4) 0x01000000 k (omega arith)
      ∙ write_bytes_outside (λ j. 0) (63 * 4096) (77 ∷ 101 ∷ 111 ∷ 119 ∷ []) k (omega arith)

  made_page_count :
      size < 2 ^ 31
      → load_le 8 (make_volume now size).bytes (63 * 4096 + 8)
        ≡ (size + 4096 - 1) / 4096 * 4096 / 4096
  made_page_count h =
      load_le-agree 8 _ _ (63 * 4096 + 8) (λ k lo hi. beside k (inl (omega arith)))
      ∙ ap (λ m. load_le 8 m (63 * 4096 + 8)) before_bytes
      ∙ load_le-store_le 8 header (63 * 4096 + 8) ((size + 4096 - 1) / 4096 * 4096 / 4096)
          (omega arith)

-- A size of at least the 66 pages that are written, which with the rounding fits an `int`, gives a
-- volume of that size in pages: its root is an empty file with the mode of a directory, the header
-- names the root and the number of pages, and nothing is written behind the end.
pub make_volume-IsVolume :
    (now size : ℕ) → 66 * 4096 ≤ size → size + 4095 < 2 ^ 31 → IsVolume size (make_volume now size)
make_volume-IsVolume now size room fits =
    let s = made_size now size in
    let (file, empty, few) = make_volume-IsFilled now size in
    record {
      root_file = file;
      root_mode = rw (made_root now size) (unfold inode in made_mode now size);
      root_size = empty;
      root_field = made_root_field now size ∙ sym (made_root now size);
      page_count = made_page_count now size (omega arith) ∙ ap (λ n. n / 4096) (sym s);
      rounded = omega (arith, s);
      within = λ k h.
          beside now size k (inr (omega (arith, s))) ∙ before_blank now size k (omega (arith, s));
    }
