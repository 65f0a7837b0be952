-- ===== src/Volume/Pointer.antt =====
-- What `ptr_from_data_index` leaves of a file.
use fusee_os.Base.{
  ℕ, ◌+◌, ◌-◌, ◌*◌, ◌%◌, ◌^◌, ◌≤◌, ◌<◌, ◌≡◌, ◌≢◌, refl, sym, ◌∙◌, ◌⊎◌, inl, inr, arith, some,
  ℕ_discrete, dec_lt,
}
use mathlib.Core.Path.{subst}
use fusee_os.Volume.{Volume, inode_page, ptr_from_data_index, page_at, file_data, file_idata}
use fusee_os.Volume.Words.{at, word-agree, word-zeros}
use fusee_os.Volume.Slots.{
  idata, slot, Stored, direct, indirect, slot-Stored, slot-none, slot-direct, IsPage, IsFile,
}
use fusee_os.Volume.Take.{Taken, page_at-Taken}
use fusee_os.Volume.Place.{Placed, Taken-Placed, few, idata_same}

-- The file has an indirect page, and the same pages as before.
record Prepared (v : Volume) (file q : ℕ) (v' : Volume) : Type 0 where
  file_kept : IsFile v'.bytes v'.next_inode file
  here : idata v'.bytes file ≡ q
  nonzero : q ≢ 0
  slots : (j : ℕ) → j < 528 → slot v'.bytes file j ≡ slot v.bytes file j
  more : v.next_inode ≤ v'.next_inode
  few : v'.next_inode ≤ v.next_inode + 2
  kept : (q ≡ idata v.bytes file) ⊎ (v.next_inode < q)
  fields : (x : ℕ) → x < 56 → at v'.bytes file x ≡ at v.bytes file x
  bytes : (p x : ℕ) → p % 32768 ≢ 0 → x < 4096 → p ≢ file → at v'.bytes p x ≡ at v.bytes p x

module _ (v v' : Volume) (file q : ℕ) (f : IsFile v.bytes v.next_inode file)
    (t : Taken v file 184 q v') where
  elsewhere : (p x : ℕ) → p % 32768 ≢ 0 → x < 4096 → p ≢ file → at v'.bytes p x ≡ at v.bytes p x
  elsewhere p x plain h off = t.bytes p x plain h (inl off)

  Taken-Prepared_new : idata v.bytes file ≡ 0 → Prepared v file q v'
  Taken-Prepared_new lacks =
      let (more, plain, next, few) = t.fresh lacks in
      let given = f.page.given in
      let empty : (x : ℕ) → x < 4096 → at v'.bytes q x ≡ 0 =
        λ x h. elsewhere q x plain h (λ e. absurd (omega (arith, e))) ∙ f.fresh q x more plain h in
      let same : (j : ℕ) → j < 528 → slot v'.bytes file j ≡ slot v.bytes file j = λ j h.
        elim (dec_lt j 16) [
          | yes small ↦
              slot-direct v'.bytes file j small
              ∙ word-agree v'.bytes v.bytes file (56 + 8 * j)
                  (λ x lo hi. t.bytes file x f.page.plain (omega arith) (inr (inl (omega arith))))
              ∙ sym (slot-direct v.bytes file j small)
          | no large ↦
              slot-Stored v'.bytes file j q (8 * (j - 16)) (
                indirect q (8 * (j - 16)) (omega (arith, large)) (sym t.stored)
                  (λ z. t.nonzero (sym t.stored ∙ z)) refl)
              ∙ word-zeros v'.bytes q (8 * (j - 16)) (λ x lo hi. empty x (omega arith))
              ∙ sym (slot-none v.bytes file j (omega (arith, large)) lacks)
        ] in
      let before : (p : ℕ) → IsPage v.next_inode p → IsPage v'.next_inode p =
        λ p page. record { given = omega (arith, page.given); plain = page.plain } in
      record {
        file_kept = record {
          fresh = λ p x lt plain h.
              elsewhere p x plain h (λ e. absurd (omega arith)) ∙ f.fresh p x (omega arith) plain h;
          page = before file f.page;
          idata_page = λ has.
              subst (λ p. IsPage v'.next_inode p) (sym t.stored)
                (record { given = omega arith; plain = plain });
          idata_own = λ e. absurd (omega (arith, t.stored, e));
          slot_page = λ j h has.
              let page = f.slot_page j h (λ z. has (same j h ∙ z)) in
              subst (λ p. IsPage v'.next_inode p) (sym (same j h))
                (before (slot v.bytes file j) page);
          slot_own = λ j h e. f.slot_own j h (sym (same j h) ∙ e);
          slot_data = λ j h has e.
              let page = f.slot_page j h (λ z. has (same j h ∙ z)) in
              absurd (omega (arith, page.given, same j h, e, t.stored));
          slot_apart = λ i j hi hj ne has e.
              f.slot_apart i j hi hj ne (λ z. has (same i hi ∙ z))
                (sym (same i hi) ∙ e ∙ same j hj);
        };
        here = t.stored;
        nonzero = t.nonzero;
        slots = same;
        more = omega arith;
        few = omega arith;
        kept = inr more;
        fields = λ x h. t.bytes file x f.page.plain (omega arith) (inr (inl (omega arith)));
        bytes = elsewhere;
      }

  Taken-Prepared : Prepared v file q v'
  Taken-Prepared = elim (ℕ_discrete (idata v.bytes file) 0) [
    | yes lacks ↦ Taken-Prepared_new lacks
    | no there ↦
        (let (e, same) = t.kept there in
          subst (λ w. Prepared v file q w) (sym same)
            (record {
              file_kept = f;
              here = sym e;
              nonzero = t.nonzero;
              slots = λ j h. refl;
              more = omega arith;
              few = omega arith;
              kept = inl e;
              fields = λ x h. refl;
              bytes = λ p x plain h off. refl;
            }))
  ]

-- For an index that the format has room for, while the inodes stay below 2^64,
-- `ptr_from_data_index` returns a page, not 0: the one that the file had at that index, or a new
-- one behind all inodes in use. It is then the file's page at the index. The file's other pages and
-- the fields of its inode are the same, at most four pages are taken, and no page in use but the
-- file's inode and its indirect page, and the bitmaps, changes.
pub ptr_from_data_index-Placed :
    (v : Volume) (file idx : ℕ)
    → IsFile v.bytes v.next_inode file
    → idx < 528
    → v.next_inode + 4 < 2 ^ 64
    → (r : ℕ) × (v' : Volume) × (ptr_from_data_index v file idx ≡ some (r, v'))
      × Placed v file idx r v'
unfolding ptr_from_data_index
ptr_from_data_index-Placed v file idx f in_file room = elim (dec_lt idx 16) [
  | yes small ↦
      (let (r, v') = page_at v (inode_page file + file_data + 8 * idx) in
        let same : inode_page file + file_data + 8 * idx ≡ inode_page file + (56 + 8 * idx) =
          omega arith in
        let t : Taken v file (56 + 8 * idx) r v' =
          rw same (page_at-Taken v file (56 + 8 * idx) (omega arith) (omega arith)) in
        (
          r,
          v',
          ground (arith, small),
          Taken-Placed v v' file idx file (56 + 8 * idx) r f in_file
              (direct file (56 + 8 * idx) small refl refl) t,
        ))
  | no large ↦
      (let (q, v1) = page_at v (inode_page file + file_idata) in
        let prep =
          Taken-Prepared v v1 file q f (page_at-Taken v file 184 (omega arith) (omega arith)) in
        let o = 8 * (idx - 16) in
        let (r, v') = page_at v1 (inode_page q + o) in
        let t = page_at-Taken v1 q o (omega (arith, prep.few)) (omega arith) in
        let s : Stored v1.bytes file idx q o =
          indirect q o (omega (arith, large)) (sym prep.here)
            (λ z. prep.nonzero (sym prep.here ∙ z)) refl in
        let placed = Taken-Placed v1 v' file idx q o r prep.file_kept in_file s t in
        (
          r,
          v',
          ground (arith, large),
          record {
            file_kept = placed.file_kept;
            here = placed.here;
            nonzero = placed.nonzero;
            others = λ j h ne. placed.others j h ne ∙ prep.slots j h;
            kept = λ nz.
                placed.kept (λ z. nz (sym (prep.slots idx in_file) ∙ z)) ∙ prep.slots idx in_file;
            new = λ z. omega (arith, prep.more, placed.new (prep.slots idx in_file ∙ z));
            more = omega (arith, prep.more, placed.more);
            few = omega (arith, prep.few, few v1 v' file idx q o r prep.file_kept in_file s t);
            idata_kept =
                let e = idata_same v1 v' file idx q o r prep.file_kept in_file s t ∙ prep.here in
                elim prep.kept [ inl k ↦ inl (e ∙ k) | inr k ↦ inr (omega (arith, e)) ];
            fields = λ x h. placed.fields x h ∙ prep.fields x h;
            bytes = λ p x plain h given off_file off_idata.
                placed.bytes p x plain h (omega (arith, prep.more)) off_file (λ e. elim prep.kept [
                  | inl k ↦ off_idata (e ∙ prep.here ∙ k)
                  | inr k ↦ absurd (omega (arith, prep.here, e))
                ])
                ∙ prep.bytes p x plain h off_file;
          },
        ))
]
