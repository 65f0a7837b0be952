-- ===== src/Phys/Alloc.antt =====
-- `alloc_phys_pages` and `free_phys_pages` on valid blocks.
use fusee_os.Base.{
  ℕ, ◌+◌, ◌*◌, ◌≤◌, ◌<◌, ◌≡◌, ◌≢◌, arith, false, Option, none, some, List, ◌∷◌, u64, dec_lt, ne→==,
}
use fusee_os.Phys.{
  Block, page_size, bad_page, in_block, bitmap_words, Search, found, exhausted, find_page,
}
use fusee_os.Phys.Marks.{page_index, page_state}
use fusee_os.Phys.Scan.{bitmap_bit, Finds, hit, miss, Finds-words_all}
use fusee_os.Phys.Valid.{
  IsLive, IsApart, IsValid, end, live, page_index-lt, in_block_page, in_block_empty,
}

-- What the loop over the blocks finds. A page that is found lies in no block that is apart.
pub data FindsPage (bs : List Block) : Search → Type 0 where
  free :
      {p : ℕ}
      → page_state bs p ≡ some 0
      → p < bad_page
      → ((b : Block) → IsApart b bs → in_block b p ≡ false)
      → FindsPage bs (found p)
  full : ((q : ℕ) → page_state bs q ≢ some 0) → FindsPage bs exhausted

abbrev search_in : Block → Option ℕ → Search → Search
search_in b o next = elim o [ some k ↦ found (u64 (b.base + k * page_size)) | none ↦ next ]

words_cover : (b : Block) → IsLive b → b.npages ≤ bitmap_words b.npages * 64
unfolding bitmap_words
words_cover b v = omega (arith, v.fits)

module _ {b : Block} {bs : List Block} (v : IsLive b) where
  here_page :
      (k : ℕ)
      → k < b.npages
      → bitmap_bit (b.bitmap 0) k ≡ 0
      → FindsPage (b ∷ bs) (found (u64 (b.base + k * page_size)))
  here_page k h z =
      let e : u64 (b.base + k * page_size) ≡ b.base + k * page_size = omega (arith, v.fits) in
      let i : page_index b (b.base + k * page_size) ≡ k = omega arith in
      rw e (free (state i) (omega (arith, v.fits)) (λ c apart. apart.0 k h))
    where
      state :
          page_index b (b.base + k * page_size) ≡ k
          → page_state (b ∷ bs) (b.base + k * page_size) ≡ some 0
      state i = unfold page_state in rw (in_block_page b k v.fits h, i, z)

  find_step :
      {next : Search} {o : Option ℕ}
      → IsApart b bs
      → Finds (bitmap_bit (b.bitmap 0)) 0 (bitmap_words b.npages * 64) o
      → FindsPage bs next
      → FindsPage (b ∷ bs) (search_in b o next)
  find_step apart (hit {p} first lt) later =
      here_page p
        (elim (dec_lt p b.npages) [
          | yes h ↦ h
          | no h ↦ absurd (omega (arith, v.padding p (omega arith) lt, first.zero_bit))
        ])
        first.zero_bit
  find_step apart (miss all) (free {p} e lt outside) =
      free {p = p} (unfold page_state in rw (outside b apart) e) lt (λ c far. outside c far.1)
  find_step apart (miss all) (full none_left) = full used
    where
      used : (q : ℕ) → page_state (b ∷ bs) q ≢ some 0
      used q =
          unfold page_state in
          ground (
            arith,
            page_index-lt b q v.fits,
            all (page_index b q) (omega arith),
            words_cover b v,
            none_left q,
          )

pub find_page-FindsPage : {bs : List Block} → IsValid bs → FindsPage bs (find_page bs)
unfolding find_page page_state
find_page-FindsPage (end {b} e h rest) =
    rw e (full (λ q. ground (arith, in_block_empty b q e h, rest q)))
find_page-FindsPage (live {b} {bs} v apart rest) = rw (ne→== _ _ v.pages) (
    find_step v apart (Finds-words_all (b.bitmap 0) v.is_bytes (bitmap_words b.npages))
      (find_page-FindsPage rest))
