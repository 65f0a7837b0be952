-- ===== src/Volume/Build.antt =====
-- The rest of tools/mkvolume.c: directories, the volume's first pages, and the copying of files.
use fusee_os.Base.{
  ℕ, zero, suc, ◌+◌, ◌-◌, ◌*◌, ◌/◌, Bool, true, false, Option, none, some, List, [], ◌∷◌, ◌++◌,
  length, take, drop, get_or, Memory, ◌==◌, ltb, if◌then◌else◌,
}
use fusee_os.Base.Bytes.{write_bytes}
use fusee_os.Phys.{load_le}
use fusee_os.Initram.{le_bytes}
use fusee_os.Spec.{Entry, Stream, parse_specs}
use fusee_os.Volume.{
  Volume, File, mfs_page_size, mfs_metadata_page, inode_open, size_of, store_le, file_read,
  file_write, create_directory, create_file,
}

-- `strncmp(s, name, n) == 0`, where a zero follows the bytes of `name`.
unfoldable pub strncmp_is_zero : ℕ → Memory → ℕ → List ℕ → Bool
strncmp_is_zero zero s i name = true
strncmp_is_zero (suc n) s i name =
    let rest = strncmp_is_zero n s (i + 1) name in
    if s i == get_or name i 0 then (if s i == 0 then true else rest) else false

-- `sizeof(namebuf)`
abbrev pub namebuf_size : ℕ
namebuf_size = 1024

-- `find_file_dir` from the position of an open directory. The buffers keep what the last rounds
-- have read; 0 is the inode of no file. `fuel` is for the rounds here and for those of `file_read`;
-- `none` means that it ran out, or that a name is written behind the end of `namebuf`.
unfoldable pub find_from : ℕ → ℕ → Volume → File → Memory → Memory → List ℕ → Option (ℕ × Volume)
find_from zero rounds v f entry namebuf name = none
find_from (suc fuel) rounds v f entry namebuf name = elim (f.pos == size_of v f.file) [
  | true ↦ some (0, v)
  | false ↦ (elim (file_read rounds v f 12) [
    | none ↦ none
    | some (bs, f', v') ↦
        (let entry = write_bytes entry 0 bs in
          let namelen = load_le 4 entry 8 in
          elim (ltb namebuf_size namelen) [
            | true ↦ none
            | false ↦ (elim (file_read rounds v' f' namelen) [
              | none ↦ none
              | some (bs', f'', v'') ↦
                  (let namebuf = write_bytes namebuf 0 bs' in
                    elim (strncmp_is_zero namelen namebuf 0 name) [
                      | true ↦ some (load_le 8 entry 0, v'')
                      | false ↦ find_from fuel rounds v'' f'' entry namebuf name
                    ])
            ])
          ])
  ])
]

-- `fuel` bounds the rounds; the buffers start with what the stack holds.
unfoldable pub find_file_dir : ℕ → Volume → ℕ → List ℕ → Memory → Memory → Option (ℕ × Volume)
find_file_dir fuel v dir_inode name entry namebuf =
    find_from fuel fuel v (inode_open dir_inode) entry namebuf name

unfoldable pub append_dir : ℕ → Volume → ℕ → List ℕ → ℕ → Option Volume
append_dir fuel v dir_inode name file_inode =
    let f = record (inode_open dir_inode) { pos = size_of v dir_inode } in
    let entry = le_bytes 8 file_inode ++ le_bytes 4 (length name) in
    elim (file_write fuel v f entry) [
      | none ↦ none
      | some (f', v') ↦ (elim (file_write fuel v' f' name) [
        | none ↦ none
        | some (f'', v'') ↦ some v''
      ])
    ]

-- The cleared volume with the header, up to the root. The time is that of the clock; the int `size`
-- stays below 2^31.
unfoldable pub empty_volume : ℕ → ℕ → Volume
empty_volume now size =
    let size = (size + mfs_page_size - 1) / mfs_page_size * mfs_page_size in
    let a = mfs_metadata_page * mfs_page_size in
    let m = write_bytes (λ k. 0) a (b'M' ∷ b'e' ∷ b'o' ∷ b'w' ∷ []) in
    let m = store_le 4 m (a + 4) 0x01000000 in
    let m = store_le 8 m (a + 8) (size / mfs_page_size) in
    record { size = size; bytes = m; now = now; root = 0; next_inode = 0 }

unfoldable pub make_volume : ℕ → ℕ → Volume
make_volume now size =
    let (root, v) = create_directory (empty_volume now size) in
    record v {
      bytes = store_le 8 v.bytes (mfs_metadata_page * mfs_page_size + 16) root;
      root = root;
    }

-- The loop of `make_vbr` from address `dst`: `fread` gives up to 4096 bytes of the file, on fuel.
pub copy_vbr : ℕ → Memory → ℕ → List ℕ → Option Memory
copy_vbr zero m dst src = none
copy_vbr (suc fuel) m dst [] = some m
copy_vbr (suc fuel) m dst (b ∷ bs) =
    let chunk = take 4096 (b ∷ bs) in
    copy_vbr fuel (write_bytes m dst chunk) (dst + length chunk) (drop 4096 (b ∷ bs))

pub make_vbr : ℕ → Volume → List ℕ → Option Volume
make_vbr fuel v src = elim (copy_vbr fuel v.bytes 0 src) [
  | none ↦ none
  | some m ↦ some (record v { bytes = m })
]

-- The loop of `copy_file` over the contents of the source, up to 4096 bytes at a time.
unfoldable pub copy_contents : ℕ → Volume → File → List ℕ → Option Volume
copy_contents zero v f src = none
copy_contents (suc fuel) v f [] = some v
copy_contents (suc fuel) v f (b ∷ bs) = elim (file_write 4097 v f (take 4096 (b ∷ bs))) [
  | none ↦ none
  | some (f', v') ↦ copy_contents fuel v' f' (drop 4096 (b ∷ bs))
]

module _ (fuel : ℕ) (entry namebuf : Memory) where
  -- The directory of a name in a directory, made if it is not there.
  pub enter_dir : Volume → ℕ → List ℕ → Option (ℕ × Volume)
  enter_dir v dir_inode name = elim (find_file_dir fuel v dir_inode name entry namebuf) [
    | none ↦ none
    | some (tmp, v') ↦
        (let (new, v'') = create_directory v' in
          if tmp == 0
          then (elim (append_dir fuel v'' dir_inode name new) [
            | none ↦ none
            | some v''' ↦ some (new, v''')
          ])
          else some (tmp, v'))
  ]

  -- The loop of `copy_file` over the path, `e` being the bytes behind the last slash.
  pub walk_path : Volume → ℕ → List ℕ → List ℕ → Option (ℕ × List ℕ × Volume)
  walk_path v dir_inode e [] = some (dir_inode, e, v)
  walk_path v dir_inode e (c ∷ cs) = elim (c == b'/') [
    | false ↦ walk_path v dir_inode (e ++ (c ∷ [])) cs
    | true ↦ (elim (enter_dir v dir_inode e) [
      | none ↦ none
      | some (tmp, v') ↦ walk_path v' tmp [] cs
    ])
  ]

  abbrev pub without_slash : List ℕ → List ℕ
  without_slash [] = []
  without_slash (c ∷ cs) = if c == b'/' then cs else c ∷ cs

  -- `src` holds the bytes of the source file.
  pub copy_file : Volume → List ℕ → List ℕ → Option Volume
  copy_file v path src = elim (walk_path v v.root [] (without_slash path)) [
    | none ↦ none
    | some (dir_inode, e, v') ↦
        (let (file_inode, v'') = create_file v' in
          elim (copy_contents fuel v'' (inode_open file_inode) src) [
            | none ↦ none
            | some v''' ↦ append_dir fuel v''' dir_inode e file_inode
          ])
  ]

  -- The loop of `main` over the entries of the specification; `open` gives the bytes of a file.
  pub copy_files : (List ℕ → List ℕ) → Volume → List Entry → Option Volume
  copy_files open_file v [] = some v
  copy_files open_file v (e ∷ es) = elim (copy_file v e.dst (open_file e.src)) [
    | none ↦ none
    | some v' ↦ copy_files open_file v' es
  ]

  -- `main`, up to the writing of the volume: `vbr` and `spec` are the bytes of two of its files.
  pub make_filled_volume : ℕ → ℕ → List ℕ → (List ℕ → List ℕ) → Stream → Option Volume
  make_filled_volume now size vbr open_file spec =
      elim (make_vbr (length vbr + 1) (make_volume now size) vbr) [
        | none ↦ none
        | some v ↦ (elim (parse_specs fuel spec) [
          | none ↦ none
          | some es ↦ copy_files open_file v es
        ])
      ]
