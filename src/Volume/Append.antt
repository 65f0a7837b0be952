-- ===== src/Volume/Append.antt =====
-- What `file_write` appends to a file.
use fusee_os.Base.{
  ℕ, ◌+◌, ◌*◌, ◌/◌, ◌%◌, ◌≤◌, ◌<◌, ◌≡◌, ◌≢◌, refl, sym, ◌∙◌, ap, ◌⊎◌, inl, inr, arith, Memory, List,
  length, get_or, u64, ℕ_discrete,
}
use mathlib.Core.Path.{subst}
use fusee_os.Base.Bytes.{write_bytes, write_bytes_inside, write_bytes_outside}
use fusee_os.Phys.{load_le}
use fusee_os.Volume.{Volume, inode_page, size_of, file_size, write_chunk}
use fusee_os.Volume.Words.{at, word-agree, store_le_outside, load_le-store_le}
use fusee_os.Volume.Slots.{idata, slot, byte, IsPage, IsFile}
use fusee_os.Volume.Place.{Placed}
use fusee_os.Volume.Agree.{idata-agree, slot-agree, IsFile-agree}

-- A file has a page for each of its bytes, and a size that the format has room for.
pub record IsFilled (v : Volume) (file : ℕ) : Type 0 where
  pub is_file : IsFile v.bytes v.next_inode file
  pub has_page : (j : ℕ) → j * 4096 < size_of v file → slot v.bytes file j ≢ 0
  pub small : size_of v file ≤ 528 * 4096

-- The bytes `bs` stand behind those of the file, and no page of another file has changed.
pub record Appended (v : Volume) (file : ℕ) (bs : List ℕ) (v' : Volume) : Type 0 where
  pub filled : IsFilled v' file
  pub size : size_of v' file ≡ size_of v file + length bs
  pub old : (k : ℕ) → k < size_of v file → byte v'.bytes file k ≡ byte v.bytes file k
  pub new : (k : ℕ) → k < length bs → byte v'.bytes file (size_of v file + k) ≡ get_or bs k 0
  pub frame :
      (q x : ℕ)
      → IsPage v.next_inode q
      → x < 4096
      → q ≢ file
      → q ≢ idata v.bytes file
      → ((j : ℕ) → j < 528 → slot v.bytes file j ≢ q)
      → at v'.bytes q x ≡ at v.bytes q x
  pub idata_kept : (idata v'.bytes file ≡ idata v.bytes file) ⊎ (v.next_inode < idata v'.bytes file)
  pub slots_kept :
      (j : ℕ)
      → j < 528
      → (slot v'.bytes file j ≡ slot v.bytes file j) ⊎ (v.next_inode < slot v'.bytes file j)
  pub more : v.next_inode ≤ v'.next_inode
  pub few : v'.next_inode ≤ v.next_inode + 4 * length bs

-- One round, with the page `r` for the position at the end of the file.
module _ (v v1 : Volume) (file r : ℕ) (bs : List ℕ) (g : IsFilled v file)
    (fits : size_of v file % 4096 + length bs ≤ 4096)
    (room : size_of v file + length bs ≤ 528 * 4096) (some_bytes : 0 < length bs)
    (p : Placed v file (size_of v file / 4096) r v1) where
  abbrev end : ℕ
  end = size_of v file

  abbrev written : Memory
  written = write_bytes v1.bytes (inode_page r + end % 4096) bs

  abbrev v2 : Volume
  v2 = (write_chunk v1 (record { file = file; pos = end }) r bs).1

  in_file : end / 4096 < 528
  in_file = omega arith

  r-IsPage : IsPage v1.next_inode r
  r-IsPage =
      subst (λ x. IsPage v1.next_inode x) p.here
        (p.file_kept.slot_page (end / 4096) in_file (λ z. p.nonzero (sym p.here ∙ z)))

  r_own : r ≢ file
  r_own e = p.file_kept.slot_own (end / 4096) in_file (p.here ∙ e)

  r_data : r ≢ idata v1.bytes file
  r_data e =
      p.file_kept.slot_data (end / 4096) in_file (λ z. p.nonzero (sym p.here ∙ z)) (p.here ∙ e)

  -- The bytes that the round leaves alone.
  beside :
      (q x : ℕ)
      → x < 4096
      → (q ≢ r) ⊎ (x < end % 4096)
      → (q ≢ file) ⊎ ((x < 16) ⊎ (24 ≤ x))
      → at v2.bytes q x ≡ at v1.bytes q x
  unfolding write_chunk
  beside q x h off_r off_size =
      store_le_outside 8 written (inode_page file + file_size)
        (u64 (load_le 8 written (inode_page file + file_size) + length bs)) (inode_page q + x)
        (omega arith)
      ∙ write_bytes_outside v1.bytes (inode_page r + end % 4096) bs (inode_page q + x) (omega arith)

  size_before : load_le 8 written (inode_page file + file_size) ≡ end
  size_before = word-agree written v.bytes file 16 (λ x lo hi.
      write_bytes_outside v1.bytes (inode_page r + end % 4096) bs (inode_page file + x)
        (omega (arith, r_own))
      ∙ p.fields x (omega arith))

  size_after : size_of v2 file ≡ end + length bs
  unfolding write_chunk
  size_after =
      load_le-store_le 8 written (inode_page file + file_size)
        (u64 (load_le 8 written (inode_page file + file_size) + length bs)) (omega arith)
      ∙ omega (arith, size_before)

  in_page : (x : ℕ) → 56 ≤ x → x < 192 → at v2.bytes file x ≡ at v1.bytes file x
  in_page x lo hi = beside file x (omega arith) (inl (λ e. r_own (sym e))) (inr (inr (omega arith)))

  in_idata :
      (x : ℕ)
      → x < 4096
      → idata v1.bytes file ≢ 0
      → at v2.bytes (idata v1.bytes file) x ≡ at v1.bytes (idata v1.bytes file) x
  in_idata x h has =
      beside (idata v1.bytes file) x h (inl (λ e. r_data (sym e))) (inl p.file_kept.idata_own)

  slots_after : (j : ℕ) → j < 528 → slot v2.bytes file j ≡ slot v1.bytes file j
  slots_after = slot-agree v1.bytes v2.bytes file in_page in_idata

  next_after : v2.next_inode ≡ v1.next_inode
  unfolding write_chunk
  next_after = refl

  file_after : IsFile v2.bytes v2.next_inode file
  file_after =
      subst (λ next. IsFile v2.bytes next file) (sym next_after)
        (IsFile-agree v1.bytes v2.bytes file in_page in_idata v1.next_inode
          (λ q x lt plain h.
            beside q x h (inl (λ e. absurd (omega (arith, r-IsPage.given))))
              (inl (λ e. absurd (omega (arith, p.file_kept.page.given))))
            ∙ p.file_kept.fresh q x lt plain h)
          p.file_kept)

  -- A page that the file had is left alone, but for the bytes that are written.
  had :
      (j x : ℕ)
      → j < 528
      → slot v.bytes file j ≢ 0
      → x < 4096
      → (j ≢ end / 4096) ⊎ (x < end % 4096)
      → at v2.bytes (slot v2.bytes file j) x ≡ at v.bytes (slot v.bytes file j) x
  had j x h has small apart =
      let same : slot v1.bytes file j ≡ slot v.bytes file j = elim (ℕ_discrete j (end / 4096)) [
        | yes e ↦
            ap (slot v1.bytes file) e
            ∙ p.here
            ∙ p.kept (λ z. has (ap (slot v.bytes file) e ∙ z))
            ∙ ap (slot v.bytes file) (sym e)
        | no ne ↦ p.others j h ne
      ] in
      let q = slot v.bytes file j in
      let page = g.is_file.slot_page j h has in
      let off_r : (q ≢ r) ⊎ (x < end % 4096) = elim apart [
        | inl ne ↦ inl (λ e.
            p.file_kept.slot_apart j (end / 4096) h in_file ne (λ z. has (sym same ∙ z))
              (same ∙ e ∙ sym p.here))
        | inr lt ↦ inr lt
      ] in
      ap (λ s. at v2.bytes s x) (slots_after j h ∙ same)
      ∙ beside q x small off_r (inl (g.is_file.slot_own j h))
      ∙ p.bytes q x page.plain small page.given (g.is_file.slot_own j h)
          (g.is_file.slot_data j h has)

  new_byte : (k : ℕ) → k < length bs → byte v2.bytes file (end + k) ≡ get_or bs k 0
  unfolding write_chunk
  new_byte k h =
      let index : (end + k) / 4096 ≡ end / 4096 = omega arith in
      let offset : (end + k) % 4096 ≡ end % 4096 + k = omega arith in
      let there : slot v2.bytes file ((end + k) / 4096) ≡ r =
        ap (slot v2.bytes file) index ∙ slots_after (end / 4096) in_file ∙ p.here in
      ap (λ s. at v2.bytes s ((end + k) % 4096)) there
      ∙ store_le_outside 8 written (inode_page file + file_size)
          (u64 (load_le 8 written (inode_page file + file_size) + length bs))
          (inode_page r + (end + k) % 4096) (omega (arith, r_own))
      ∙ ap written (omega arith)
      ∙ write_bytes_inside v1.bytes (inode_page r + end % 4096) bs k h

  slot_grows :
      (j : ℕ)
      → j < 528
      → (slot v2.bytes file j ≡ slot v.bytes file j) ⊎ (v.next_inode < slot v2.bytes file j)
  slot_grows j h = elim (ℕ_discrete j (end / 4096)) [
    | no ne ↦ inl (slots_after j h ∙ p.others j h ne)
    | yes e ↦
        (let here = ap (slot v2.bytes file) e ∙ slots_after (end / 4096) in_file ∙ p.here in
          elim (ℕ_discrete (slot v.bytes file j) 0) [
            | yes z ↦ inr (omega (arith, here, p.new (ap (slot v.bytes file) (sym e) ∙ z)))
            | no nz ↦ inl (
                here
                ∙ p.kept (λ z. nz (ap (slot v.bytes file) e ∙ z))
                ∙ ap (slot v.bytes file) (sym e))
          ])
  ]

  pub round-Appended : Appended v file bs v2
  round-Appended = record {
    filled = record {
      is_file = file_after;
      has_page = λ j lt z. elim (ℕ_discrete j (end / 4096)) [
        | yes e ↦
            p.nonzero
              (sym (ap (slot v2.bytes file) e ∙ slots_after (end / 4096) in_file ∙ p.here) ∙ z)
        | no ne ↦
            (let before : j * 4096 < end = omega (arith, size_after, ne) in
              let small : j < 528 = omega (arith, g.small) in
              g.has_page j before (sym (slots_after j small ∙ p.others j small ne) ∙ z))
      ];
      small = omega (arith, size_after);
    };
    size = size_after;
    old = λ k h.
        had (k / 4096) (k % 4096) (omega arith) (g.has_page (k / 4096) (omega arith)) (omega arith)
          (elim (ℕ_discrete (k / 4096) (end / 4096)) [
            | yes e ↦ inr (omega arith)
            | no ne ↦ inl ne
          ]);
    new = new_byte;
    frame = λ q x page h off_file off_idata off_slots.
        beside q x h
          (inl (λ e. elim (ℕ_discrete (slot v.bytes file (end / 4096)) 0) [
            | yes z ↦ absurd (omega (arith, p.new z, page.given, e))
            | no nz ↦ off_slots (end / 4096) in_file (sym (p.kept nz) ∙ sym e)
          ]))
          (inl off_file)
        ∙ p.bytes q x page.plain h page.given off_file off_idata;
    idata_kept =
        let same = idata-agree v1.bytes v2.bytes file in_page in_idata in
        elim p.idata_kept [ inl e ↦ inl (same ∙ e) | inr lt ↦ inr (omega (arith, same)) ];
    slots_kept = slot_grows;
    more = omega (arith, p.more, next_after);
    few = omega (arith, p.few, next_after);
  }
