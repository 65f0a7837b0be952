-- ===== src/Volume/Create.antt =====
-- A new file or directory, and a new volume.
use fusee_os.Base.{
  ℕ, ◌+◌, ◌-◌, ◌*◌, ◌/◌, ◌%◌, ◌^◌, ◌≤◌, ◌<◌, ◌≡◌, ◌≢◌, refl, ◌∙◌, ◌⊎◌, inl, inr, arith, [], ◌∷◌,
  bit_or, dec_lt,
}
use fusee_os.Base.Bytes.{write_bytes, write_bytes_outside}
use fusee_os.Volume.{
  Volume, inode_page, size_of, following, alloc_page, store_le, create_file_raw, create_file,
  create_directory,
}
use fusee_os.Volume.Words.{at, word, word-agree, word-zeros, following_bounds, store_le_outside}
use fusee_os.Volume.Slots.{idata, slot, slot-direct, slot-none, Fresh}
use fusee_os.Volume.Take.{alloc_page_bytes}
use fusee_os.Volume.Append.{IsFilled}
use fusee_os.Volume.Agree.{IsFile-agree}
use fusee_os.Volume.Build.{make_volume, empty_volume}

-- The new inode, and that it is an empty file of its own.
pub record Created (v : Volume) (inode : ℕ) (v' : Volume) : Type 0 where
  pub later : v.next_inode < inode
  pub filled : IsFilled v' inode
  pub empty : size_of v' inode ≡ 0
  pub next : v'.next_inode ≡ inode
  pub near : inode ≤ v.next_inode + 2
  pub beside : (q x : ℕ) → q % 32768 ≢ 0 → x < 4096 → q ≢ inode → at v'.bytes q x ≡ at v.bytes q x

module _ (v : Volume) (mode : ℕ) (fresh : Fresh v.bytes v.next_inode)
    (room : v.next_inode + 2 < 2 ^ 63) where
  abbrev inode : ℕ
  inode = following v.next_inode

  abbrev after : Volume
  after = (create_file_raw v mode).1

  bounds : (v.next_inode < inode) × (inode ≤ v.next_inode + 2) × (inode % 32768 ≢ 0)
  bounds = following_bounds v.next_inode (omega arith)

  -- The fields that are set lie in front of the size, and behind it up to the inodes.
  kept :
      (q x : ℕ)
      → q % 32768 ≢ 0
      → x < 4096
      → (q ≢ inode) ⊎ (((4 ≤ x) × (x < 24)) ⊎ (56 ≤ x))
      → at after.bytes q x ≡ at v.bytes q x
  unfolding create_file_raw
  kept q x plain h out =
      let a = inode_page inode in
      let m = (alloc_page v).1.bytes in
      let m0 = store_le 4 m a mode in
      let m1 = store_le 8 m0 (a + 24) v.now in
      let m2 = store_le 8 m1 (a + 32) v.now in
      let m3 = store_le 8 m2 (a + 40) v.now in
      let k = inode_page q + x in
      unfold alloc_page in
      (store_le_outside 8 m3 (a + 48) v.now k (omega arith)
        ∙ store_le_outside 8 m2 (a + 40) v.now k (omega arith)
        ∙ store_le_outside 8 m1 (a + 32) v.now k (omega arith)
        ∙ store_le_outside 8 m0 (a + 24) v.now k (omega arith)
        ∙ store_le_outside 4 m a mode k (omega arith)
        ∙ alloc_page_bytes v q x plain h)

  unused : (x : ℕ) → x < 4096 → ((4 ≤ x) × (x < 24)) ⊎ (56 ≤ x) → at after.bytes inode x ≡ 0
  unused x h out =
      let (more, near, plain) = bounds in
      kept inode x plain h (inr out) ∙ fresh inode x more plain h

  no_word : (o : ℕ) → o + 8 ≤ 4096 → (o ≡ 16) ⊎ (56 ≤ o) → word after.bytes inode o ≡ 0
  no_word o h out = word-zeros after.bytes inode o (λ x lo hi.
      unused x (omega arith)
        (elim out [ inl e ↦ inl (omega arith, omega arith) | inr le ↦ inr (omega arith) ]))

  no_slot : (j : ℕ) → j < 528 → slot after.bytes inode j ≡ 0
  no_slot j h = elim (dec_lt j 16) [
    | yes small ↦
        slot-direct after.bytes inode j small
        ∙ no_word (56 + 8 * j) (omega arith) (inr (omega arith))
    | no large ↦
        slot-none after.bytes inode j (omega (arith, large))
          (no_word 184 (omega arith) (inr (omega arith)))
  ]

  next_after : after.next_inode ≡ inode
  unfolding create_file_raw alloc_page
  next_after = refl

  pub create_file_raw-Created : Created v (create_file_raw v mode).0 after
  unfolding create_file_raw alloc_page
  create_file_raw-Created =
      let (more, near, plain) = bounds in
      let empty : size_of after inode ≡ 0 = no_word 16 (omega arith) (inl refl) in
      let no_idata : idata after.bytes inode ≡ 0 = no_word 184 (omega arith) (inr (omega arith)) in
      record {
        later = more;
        filled = record {
          is_file = record {
            fresh = λ p o lt plain_p h.
                kept p o plain_p h (inl (λ e. absurd (omega arith)))
                ∙ fresh p o (omega arith) plain_p h;
            page = record { given = omega arith; plain = plain };
            idata_page = λ some. absurd (some no_idata);
            idata_own = λ e. absurd (omega (arith, no_idata, e));
            slot_page = λ j h some. absurd (some (no_slot j h));
            slot_own = λ j h e. absurd (omega (arith, no_slot j h, e));
            slot_data = λ j h some e. some (no_slot j h);
            slot_apart = λ i j hi hj ne some e. some (no_slot i hi);
          };
          has_page = λ j lt z. absurd (omega (arith, empty));
          small = omega (arith, empty);
        };
        empty = empty;
        next = refl;
        near = near;
        beside = λ q x plain_q h ne. kept q x plain_q h (inl ne);
      }

module _ (v : Volume) (fresh : Fresh v.bytes v.next_inode) (room : v.next_inode + 2 < 2 ^ 63) where
  -- A new file is empty and has its own page, and no other page in use has changed.
  pub create_file-Created : let (inode, v') = create_file v in Created v inode v'
  unfolding create_file
  create_file-Created = create_file_raw-Created v (bit_or 0 0x1a4) fresh room

  pub create_directory-Created : let (inode, v') = create_directory v in Created v inode v'
  unfolding create_directory
  create_directory-Created = create_file_raw-Created v (bit_or 0x10000 0x1ed) fresh room

starts : (now size : ℕ) → (empty_volume now size).next_inode ≡ 0
unfolding empty_volume
starts now size = refl

make_room : (now size : ℕ) → (empty_volume now size).next_inode + 2 < 2 ^ 63
unfolding empty_volume
make_room now size = omega arith

empty_volume_bytes : (now size p o : ℕ) → at (empty_volume now size).bytes p o ≡ 0
unfolding empty_volume
empty_volume_bytes now size p o =
    let size = (size + 4096 - 1) / 4096 * 4096 in
    let a : ℕ = 63 * 4096 in
    let m0 = write_bytes (λ k. 0) a (77 ∷ 101 ∷ 111 ∷ 119 ∷ []) in
    let m1 = store_le 4 m0 (a + 4) 0x01000000 in
    let k = inode_page p + o in
    store_le_outside 8 m1 (a + 8) ((size) / 4096) k (omega arith)
    ∙ store_le_outside 4 m0 (a + 4) 0x01000000 k (omega arith)
    ∙ write_bytes_outside (λ k. 0) a (77 ∷ 101 ∷ 111 ∷ 119 ∷ []) k (omega arith)

-- A new volume has an empty root directory, and no more than two inodes are given out.
pub make_volume-IsFilled :
    (now size : ℕ)
    → let v = make_volume now size in
      IsFilled v v.root × (size_of v v.root ≡ 0) × (v.next_inode ≤ 2)
unfolding make_volume
make_volume-IsFilled now size =
    let v0 = empty_volume now size in
    let fresh : Fresh v0.bytes v0.next_inode = λ p o lt plain h. empty_volume_bytes now size p o in
    let c = create_directory-Created v0 fresh (make_room now size) in
    let (root, v1) = create_directory v0 in
    let m = store_le 8 v1.bytes (63 * 4096 + 16) root in
    let same : (p o : ℕ) → at m p o ≡ at v1.bytes p o =
      λ p o. store_le_outside 8 v1.bytes (63 * 4096 + 16) root (inode_page p + o) (omega arith) in
    let size_same : word m root 16 ≡ word v1.bytes root 16 =
      word-agree m v1.bytes root 16 (λ x lo hi. same root x) in
    let in_page = λ (x : ℕ) (lo : 56 ≤ x) (hi : x < 192). same root x in
    let in_idata =
      λ (x : ℕ) (h : x < 4096) (has : idata v1.bytes root ≢ 0). same (idata v1.bytes root) x in
    let file = c.filled in
    (
      record {
        is_file =
            IsFile-agree v1.bytes m root in_page in_idata v1.next_inode
              (λ p o lt plain h. same p o ∙ file.is_file.fresh p o lt plain h) file.is_file;
        has_page = λ j lt z. absurd (omega (arith, size_same, c.empty));
        small = omega (arith, size_same, c.empty);
      },
      size_same ∙ c.empty,
      omega (arith, c.next, c.near, starts now size),
    )
