-- ===== src/Volume/Take.antt =====
-- What `alloc_page` and `page_at` leave.
use fusee_os.Base.{
  ℕ, ◌+◌, ◌*◌, ◌/◌, ◌%◌, ◌^◌, ◌≤◌, ◌<◌, ◌≡◌, ◌≢◌, refl, ◌∙◌, ◌⊎◌, inl, inr, arith, ◌==◌, Bool-cases,
  ==→eq, ==→ne,
}
use fusee_os.Volume.{Volume, inode_page, alloc_page, page_at, following, store_le}
use fusee_os.Volume.Words.{at, word, following_bounds, store_le_outside, load_le-store_le}

-- `alloc_page` changes bitmaps alone.
pub alloc_page_bytes :
    (v : Volume) (p o : ℕ)
    → p % 32768 ≢ 0
    → o < 4096
    → at (alloc_page v).1.bytes p o ≡ at v.bytes p o
unfolding alloc_page
alloc_page_bytes v p o plain h =
    let bitmap = following v.next_inode / 32768 * 32768 in
    let apart : inode_page p + o ≢ inode_page bitmap + following v.next_inode % 32768 / 8 =
      λ e. plain (omega (arith, e)) in
    ground (arith, apart)

-- A page for the word at an offset of a page: the one that was there, or a new one.
pub record Taken (v : Volume) (p o r : ℕ) (v' : Volume) : Type 0 where
  pub stored : word v'.bytes p o ≡ r
  pub nonzero : r ≢ 0
  pub kept : word v.bytes p o ≢ 0 → (r ≡ word v.bytes p o) × (v' ≡ v)
  pub fresh :
      word v.bytes p o ≡ 0
      → (v.next_inode < r) × (r % 32768 ≢ 0) × (v'.next_inode ≡ r) × (r ≤ v.next_inode + 2)
  pub bytes :
      (q x : ℕ)
      → q % 32768 ≢ 0
      → x < 4096
      → (q ≢ p) ⊎ ((x < o) ⊎ (o + 8 ≤ x))
      → at v'.bytes q x ≡ at v.bytes q x

pub page_at-Taken :
    (v : Volume) (p o : ℕ)
    → v.next_inode + 2 < 2 ^ 64
    → o + 8 ≤ 4096
    → let (r, v') = page_at v (inode_page p + o) in Taken v p o r v'
unfolding page_at
page_at-Taken v p o room fits = elim (Bool-cases (word v.bytes p o == 0)) [
  | inl e ↦
      (let zero_there : word v.bytes p o ≡ 0 = ==→eq _ _ e in
        let (more, few, plain) = following_bounds v.next_inode room in
        let v1 = (alloc_page v).1 in
        let r = following v.next_inode in
        let m = store_le 8 v1.bytes (inode_page p + o) r in
        rw e (
          unfold alloc_page in
          record {
            stored = load_le-store_le 8 v1.bytes (inode_page p + o) r (omega arith);
            nonzero = λ z. omega (arith, z);
            kept = λ there. absurd (there zero_there);
            fresh = λ z. (more, plain, refl, few);
            bytes = λ q x plain_q h apart.
                store_le_outside 8 v1.bytes (inode_page p + o) r (inode_page q + x) (omega arith)
                ∙ alloc_page_bytes v q x plain_q h;
          }))
  | inr e ↦ rw e (record {
    stored = refl;
    nonzero = ==→ne _ _ e;
    kept = λ there. (refl, refl);
    fresh = λ z. absurd (==→ne _ _ e z);
    bytes = λ q x plain h apart. refl;
  })
]
