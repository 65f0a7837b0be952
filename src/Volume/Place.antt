-- ===== src/Volume/Place.antt =====
-- What becomes of a file when the page of one of its slots is taken.
use fusee_os.Base.{ℕ, ◌+◌, ◌%◌, ◌≤◌, ◌<◌, ◌≡◌, ◌≢◌, sym, ◌∙◌, ap, ◌⊎◌, inl, inr, arith, ℕ_discrete}
use mathlib.Core.Path.{subst}
use fusee_os.Volume.{Volume}
use fusee_os.Volume.Words.{at, word, word-agree}
use fusee_os.Volume.Slots.{
  idata, slot, Stored, direct, indirect, slot-Stored, slot-none, IsPage, IsFile, locate,
  Stored-apart, Stored-within, Stored-same, Stored-IsPage,
}
use fusee_os.Volume.Take.{Taken}

-- Slot `idx` has the page `r`, which was its page or is a new one; all else of the file is the
-- same.
pub record Placed (v : Volume) (file idx r : ℕ) (v' : Volume) : Type 0 where
  pub file_kept : IsFile v'.bytes v'.next_inode file
  pub here : slot v'.bytes file idx ≡ r
  pub nonzero : r ≢ 0
  pub others : (j : ℕ) → j < 528 → j ≢ idx → slot v'.bytes file j ≡ slot v.bytes file j
  pub kept : slot v.bytes file idx ≢ 0 → r ≡ slot v.bytes file idx
  pub new : slot v.bytes file idx ≡ 0 → v.next_inode < r
  pub more : v.next_inode ≤ v'.next_inode
  pub few : v'.next_inode ≤ v.next_inode + 4
  pub idata_kept : (idata v'.bytes file ≡ idata v.bytes file) ⊎ (v.next_inode < idata v'.bytes file)
  pub fields : (x : ℕ) → x < 56 → at v'.bytes file x ≡ at v.bytes file x
  pub bytes :
      (q x : ℕ)
      → q % 32768 ≢ 0
      → x < 4096
      → q ≤ v.next_inode
      → q ≢ file
      → q ≢ idata v.bytes file
      → at v'.bytes q x ≡ at v.bytes q x

-- The slot is stored, so that its page is taken there.
module _ (v v' : Volume) (file idx p o r : ℕ) (f : IsFile v.bytes v.next_inode file)
    (in_file : idx < 528) (s : Stored v.bytes file idx p o) (t : Taken v p o r v') where
  home : IsPage v.next_inode p
  home = Stored-IsPage v.bytes v.next_inode file idx p o f s

  old_or_new :
      ((r ≡ slot v.bytes file idx) × (v'.next_inode ≡ v.next_inode))
      ⊎ ((slot v.bytes file idx ≡ 0)
          × (v.next_inode < r)
          × (r % 32768 ≢ 0)
          × (v'.next_inode ≡ r)
          × (r ≤ v.next_inode + 2))
  old_or_new =
      let e = slot-Stored v.bytes file idx p o s in
      elim (ℕ_discrete (word v.bytes p o) 0) [
        | yes z ↦ (let (a, b, c, d) = t.fresh z in inr (e ∙ z, a, b, c, d))
        | no nz ↦ (let (a, b) = t.kept nz in inl (a ∙ sym e, ap (λ w. w.next_inode) b))
      ]

  word_elsewhere :
      (q y : ℕ)
      → IsPage v.next_inode q
      → y + 8 ≤ 4096
      → (q ≢ p) ⊎ ((y + 8 ≤ o) ⊎ (o + 8 ≤ y))
      → word v'.bytes q y ≡ word v.bytes q y
  word_elsewhere q y page fits apart =
      word-agree v'.bytes v.bytes q y
        (λ x lo hi. t.bytes q x page.plain (omega arith) (omega (arith, apart)))

  pub idata_same : idata v'.bytes file ≡ idata v.bytes file
  idata_same =
      let (fits, out) = Stored-within v.bytes file f.idata_own idx p o in_file s in
      word_elsewhere file 184 f.page (omega arith) (omega (arith, out))

  slot_same : (j : ℕ) → j < 528 → j ≢ idx → slot v'.bytes file j ≡ slot v.bytes file j
  slot_same j h ne = elim (locate v.bytes file j) [
    | inl (many, none) ↦
        slot-none v'.bytes file j many (idata_same ∙ none)
        ∙ sym (slot-none v.bytes file j many none)
    | inr (q, y, sj) ↦
        slot-Stored v'.bytes file j q y (Stored-same v.bytes v'.bytes file j q y idata_same sj)
        ∙ word_elsewhere q y (Stored-IsPage v.bytes v.next_inode file j q y f sj)
            ((Stored-within v.bytes file f.idata_own j q y h sj).0)
            (Stored-apart v.bytes file f.idata_own idx j p o q y s sj (λ e. ne (sym e)))
        ∙ sym (slot-Stored v.bytes file j q y sj)
  ]

  slot_here : slot v'.bytes file idx ≡ r
  slot_here =
      slot-Stored v'.bytes file idx p o (Stored-same v.bytes v'.bytes file idx p o idata_same s)
      ∙ t.stored

  -- A page that was given out before, and one that is given out now.
  IsPage-before : (q : ℕ) → IsPage v.next_inode q → IsPage v'.next_inode q
  IsPage-before q page = record {
    given = elim old_or_new [
      | inl (a, b) ↦ omega (arith, page.given)
      | inr (a, b, c, d, e) ↦ omega (arith, page.given)
    ];
    plain = page.plain;
  }

  IsPage-here : IsPage v'.next_inode r
  IsPage-here = elim old_or_new [
    | inl (a, b) ↦ IsPage-before r (
        subst (λ x. IsPage v.next_inode x) (sym a)
          (f.slot_page idx in_file (λ z. t.nonzero (a ∙ z))))
    | inr (a, b, c, d, e) ↦ record { given = omega arith; plain = c }
  ]

  -- The page taken is not one that was given out to another part of the file.
  r_apart :
      (q : ℕ) → q ≤ v.next_inode → (slot v.bytes file idx ≢ 0 → slot v.bytes file idx ≢ q) → r ≢ q
  r_apart q given apart same = elim old_or_new [
    | inl (a, b) ↦ apart (λ z. t.nonzero (a ∙ z)) (sym a ∙ same)
    | inr (a, b, c, d, e) ↦ absurd (omega arith)
  ]

  slot_given : (j : ℕ) → j < 528 → slot v.bytes file j ≤ v.next_inode
  slot_given j h = elim (ℕ_discrete (slot v.bytes file j) 0) [
    | yes z ↦ omega (arith, z)
    | no nz ↦ (f.slot_page j h nz).given
  ]

  idata_given : idata v.bytes file ≤ v.next_inode
  idata_given = elim (ℕ_discrete (idata v.bytes file) 0) [
    | yes z ↦ omega (arith, z)
    | no nz ↦ (f.idata_page nz).given
  ]

  -- For each slot: it is the one whose page is taken, or the same as before.
  cases :
      (j : ℕ)
      → j < 528
      → ((j ≡ idx) × (slot v'.bytes file j ≡ r))
        ⊎ ((j ≢ idx) × (slot v'.bytes file j ≡ slot v.bytes file j))
  cases j h = elim (ℕ_discrete j idx) [
    | yes e ↦ inl (e, ap (slot v'.bytes file) e ∙ slot_here)
    | no ne ↦ inr (ne, slot_same j h ne)
  ]

  more : v.next_inode ≤ v'.next_inode
  more = elim old_or_new [ inl (a, b) ↦ omega arith | inr (a, b, c, d, e) ↦ omega arith ]

  pub few : v'.next_inode ≤ v.next_inode + 2
  few = elim old_or_new [ inl (a, b) ↦ omega arith | inr (a, b, c, d, e) ↦ omega arith ]

  pages_apart :
      (i j : ℕ)
      → i < 528
      → j < 528
      → i ≢ j
      → slot v'.bytes file i ≢ 0
      → slot v'.bytes file i ≢ slot v'.bytes file j
  pages_apart i j hi hj ne nz e =
      let taken : (k : ℕ) → k < 528 → k ≢ idx → r ≢ slot v.bytes file k = λ k h other.
        r_apart (slot v.bytes file k) (slot_given k h)
          (λ some. f.slot_apart idx k in_file h (λ e'. other (sym e')) some) in
      elim (cases i hi) [
        | inl (ii, a) ↦ (elim (cases j hj) [
          | inl (jj, b) ↦ ne (ii ∙ sym jj)
          | inr (nj, b) ↦ taken j hj nj (sym a ∙ e ∙ b)
        ])
        | inr (ni, a) ↦ (elim (cases j hj) [
          | inl (jj, b) ↦ taken i hi ni (sym b ∙ sym e ∙ a)
          | inr (nj, b) ↦ f.slot_apart i j hi hj ne (λ z. nz (a ∙ z)) (sym a ∙ e ∙ b)
        ])
      ]

  file_IsFile : IsFile v'.bytes v'.next_inode file
  file_IsFile = record {
    fresh = λ q x lt plain h.
        t.bytes q x plain h (inl (λ e. absurd (omega (arith, more, home.given))))
        ∙ f.fresh q x (omega (arith, more)) plain h;
    page = IsPage-before file f.page;
    idata_page = λ nz. IsPage-before (idata v'.bytes file) (
        subst (λ x. IsPage v.next_inode x) (sym idata_same)
          (f.idata_page (λ z. nz (idata_same ∙ z))));
    idata_own = λ e. f.idata_own (sym idata_same ∙ e);
    slot_page = λ j h nz. elim (cases j h) [
      | inl (e, a) ↦ subst (λ x. IsPage v'.next_inode x) (sym a) IsPage-here
      | inr (ne, a) ↦
          IsPage-before (slot v'.bytes file j)
            (subst (λ x. IsPage v.next_inode x) (sym a) (f.slot_page j h (λ z. nz (a ∙ z))))
    ];
    slot_own = λ j h e. elim (cases j h) [
      | inl (i, a) ↦ r_apart file f.page.given (λ nz. f.slot_own idx in_file) (sym a ∙ e)
      | inr (ne, a) ↦ f.slot_own j h (sym a ∙ e)
    ];
    slot_data = λ j h nz e. elim (cases j h) [
      | inl (i, a) ↦
          r_apart (idata v.bytes file) idata_given (λ some. f.slot_data idx in_file some)
            (sym a ∙ e ∙ idata_same)
      | inr (ne, a) ↦ f.slot_data j h (λ z. nz (a ∙ z)) (sym a ∙ e ∙ idata_same)
    ];
    slot_apart = pages_apart;
  }

  pub Taken-Placed : Placed v file idx r v'
  Taken-Placed =
      let (fits, out) = Stored-within v.bytes file f.idata_own idx p o in_file s in
      record {
        file_kept = file_IsFile;
        here = slot_here;
        nonzero = t.nonzero;
        others = slot_same;
        kept = λ nz. elim old_or_new [ inl (a, b) ↦ a | inr (a, b, c, d, e) ↦ absurd (nz a) ];
        new = λ z. elim old_or_new [
          | inl (a, b) ↦ absurd (t.nonzero (a ∙ z))
          | inr (a, b, c, d, e) ↦ b
        ];
        more = more;
        few = omega (arith, few);
        idata_kept = inl idata_same;
        fields = λ x h. t.bytes file x f.page.plain (omega arith) (omega (arith, out));
        bytes = λ q x plain h given off_file off_idata. t.bytes q x plain h (
            inl (elim s [
              | direct _ _ a b c ↦ (λ e. off_file (e ∙ b))
              | indirect _ _ a b some c ↦ (λ e. off_idata (e ∙ b))
            ]));
      }
