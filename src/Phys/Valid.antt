-- ===== src/Phys/Valid.antt =====
-- The well-formedness of the blocks, and that marking pages keeps it.
use fusee_os.Base.{
  ℕ, zero, suc, ◌+◌, ◌*◌, ◌/◌, ◌^◌, ◌≤◌, ◌<◌, ◌≡◌, ◌≢◌, refl, ◌∙◌, arith, true, false, none, List,
  [], ◌∷◌, Bool-cases, inl, inr, if◌then◌else◌, Memory,
}
use fusee_os.Phys.{
  Block, page_size, pmb_max_order, in_block, set_bit, clear_bit, set_orders, clear_orders,
  mark_page_used, mark_page_free, free_pages_from, bitmap_words,
}
use fusee_os.Phys.Bitmap.{page_bit, set_orders_first, clear_orders_first}
use fusee_os.Phys.Marks.{page_index, page_state}
use fusee_os.Phys.Scan.{IsBytes}

-- A block with pages: its addresses do not wrap, its bitmap holds bytes, and the bits behind the
-- last page, up to the end of the word, are set.
pub record IsLive (b : Block) : Type 0 where
  pub pages : b.npages ≢ 0
  pub fits : b.base + b.npages * page_size < 2 ^ 64
  pub is_bytes : IsBytes (b.bitmap 0)
  pub padding : (k : ℕ) → b.npages ≤ k → k < bitmap_words b.npages * 64 → page_bit b.bitmap 0 k ≡ 1

-- No page of the later blocks lies in `b`.
abbrev pub IsApart : Block → List Block → Type 0
IsApart b [] = Unit
IsApart b (c ∷ cs) =
    ((k : ℕ) → k < c.npages → in_block b (c.base + k * page_size) ≡ false) × IsApart b cs

-- Live blocks that do not meet, then an entry without pages, then entries that hold no page.
pub data IsValid : List Block → Type 0 where
  end :
      {b : Block} {bs : List Block}
      → b.npages ≡ 0
      → b.base < 2 ^ 64
      → ((q : ℕ) → page_state bs q ≡ none)
      → IsValid (b ∷ bs)
  live : {b : Block} {bs : List Block} → IsLive b → IsApart b bs → IsValid bs → IsValid (b ∷ bs)

pub page_index-lt :
    (b : Block) (p : ℕ)
    → b.base + b.npages * page_size < 2 ^ 64
    → in_block b p ≡ true
    → page_index b p < b.npages
unfolding in_block
page_index-lt b p fits h = ground arith

pub in_block_page :
    (b : Block) (k : ℕ)
    → b.base + b.npages * page_size < 2 ^ 64
    → k < b.npages
    → in_block b (b.base + k * page_size) ≡ true
unfolding in_block
in_block_page b k fits h = ground arith

pub in_block_empty : (b : Block) (p : ℕ) → b.npages ≡ 0 → b.base < 2 ^ 64 → in_block b p ≡ false
unfolding in_block
in_block_empty b p e h = ground arith

-- What both ways of marking do: the bitmaps of the first block that holds the page are changed.
mark_with : (ℕ → (ℕ → Memory) → ℕ → Memory) → ℕ → List Block → List Block
mark_with f p [] = []
mark_with f p (b ∷ bs) =
    if in_block b p
    then record b { bitmap = f (page_index b p) b.bitmap } ∷ bs
    else b ∷ mark_with f p bs

mark_page_used-eq-mark_with :
    (p : ℕ) (bs : List Block) → mark_page_used p bs ≡ mark_with (set_orders pmb_max_order 0) p bs
unfolding mark_page_used mark_with
mark_page_used-eq-mark_with p [] = refl
mark_page_used-eq-mark_with p (b ∷ bs) = rw (mark_page_used-eq-mark_with p bs)

mark_page_free-eq-mark_with :
    (shl3 : ℕ → ℕ) (p : ℕ) (bs : List Block)
    → mark_page_free shl3 p bs ≡ mark_with (clear_orders shl3 pmb_max_order 0) p bs
unfolding mark_page_free mark_with
mark_page_free-eq-mark_with shl3 p [] = refl
mark_page_free-eq-mark_with shl3 p (b ∷ bs) = rw (mark_page_free-eq-mark_with shl3 p bs)

set_bit-IsBytes : (bm : ℕ → Memory) (j off i : ℕ) → IsBytes (bm i) → IsBytes (set_bit bm j off i)
unfolding set_bit
set_bit-IsBytes bm j off i h a = ground (arith, h a)

clear_bit-IsBytes :
    (bm : ℕ → Memory) (j off i : ℕ) → IsBytes (bm i) → IsBytes (clear_bit bm j off i)
unfolding clear_bit
clear_bit-IsBytes bm j off i h a = ground (arith, h a)

set_orders-IsBytes :
    (n j off : ℕ) (bm : ℕ → Memory) (i : ℕ) → IsBytes (bm i) → IsBytes (set_orders n j off bm i)
unfolding set_orders
set_orders-IsBytes zero j off bm i h a = h a
set_orders-IsBytes (suc n) j off bm i h a = ground (
  arith,
  h a,
  set_orders-IsBytes n (j + 1) (off / 2) (set_bit bm j off) i (set_bit-IsBytes bm j off i h) a,
)

clear_orders-IsBytes :
    (shl3 : ℕ → ℕ) (n j off : ℕ) (bm : ℕ → Memory) (i : ℕ)
    → IsBytes (bm i)
    → IsBytes (clear_orders shl3 n j off bm i)
unfolding clear_orders
clear_orders-IsBytes shl3 zero j off bm i h a = h a
clear_orders-IsBytes shl3 (suc n) j off bm i h a = ground (
  arith,
  clear_bit-IsBytes bm j off i h a,
  clear_orders-IsBytes shl3 n (j + 1) (off / 2) (clear_bit bm j off) i
      (clear_bit-IsBytes bm j off i h) a,
)

IsApart-bitmap :
    (b : Block) (bm : ℕ → Memory) (bs : List Block)
    → IsApart b bs
    → IsApart (record b { bitmap = bm }) bs
unfolding in_block
IsApart-bitmap b bm [] h = tt
IsApart-bitmap b bm (c ∷ cs) h = (h.0, IsApart-bitmap b bm cs h.1)

module _ (f : ℕ → (ℕ → Memory) → ℕ → Memory)
    (bytes : (off : ℕ) (bm : ℕ → Memory) → IsBytes (bm 0) → IsBytes (f off bm 0))
    (others : (off : ℕ) (bm : ℕ → Memory) (k : ℕ)
      → off ≢ k
      → page_bit (f off bm) 0 k ≡ page_bit bm 0 k) where
  mark_with_nowhere : (p : ℕ) (bs : List Block) → page_state bs p ≡ none → mark_with f p bs ≡ bs
  unfolding mark_with page_state
  mark_with_nowhere p [] h = refl
  mark_with_nowhere p (b ∷ bs) h = ground (arith, mark_with_nowhere p bs)

  mark_with-IsApart :
      (p : ℕ) (b : Block) (bs : List Block) → IsApart b bs → IsApart b (mark_with f p bs)
  unfolding mark_with
  mark_with-IsApart p b [] h = tt
  mark_with-IsApart p b (c ∷ cs) h = elim (Bool-cases (in_block c p)) [
    | inl here ↦ rw here h
    | inr later ↦ rw later (h.0, mark_with-IsApart p b cs h.1)
  ]

  changed-IsLive :
      (p : ℕ) (b : Block)
      → in_block b p ≡ true
      → IsLive b
      → IsLive (record b { bitmap = f (page_index b p) b.bitmap })
  changed-IsLive p b here v = record {
    pages = v.pages;
    fits = v.fits;
    is_bytes = bytes (page_index b p) b.bitmap v.is_bytes;
    padding = λ k lo hi.
        others (page_index b p) b.bitmap k (omega (arith, page_index-lt b p v.fits here))
        ∙ v.padding k lo hi;
  }

  mark_with-IsValid : {bs : List Block} (p : ℕ) → IsValid bs → IsValid (mark_with f p bs)
  unfolding mark_with
  mark_with-IsValid p (end {b} {bs} e h rest) =
      rw (in_block_empty b p e h) (rw (mark_with_nowhere p bs (rest p)) (end e h rest))
  mark_with-IsValid p (live {b} {bs} v apart rest) = elim (Bool-cases (in_block b p)) [
    | inl here ↦ rw here (live (changed-IsLive p b here v) (IsApart-bitmap b _ bs apart) rest)
    | inr later ↦ rw later (live v (mark_with-IsApart p b bs apart) (mark_with-IsValid p rest))
  ]

-- Marking a page used keeps the blocks valid.
pub mark_page_used-IsValid : {bs : List Block} (p : ℕ) → IsValid bs → IsValid (mark_page_used p bs)
mark_page_used-IsValid {bs} p v = rw (mark_page_used-eq-mark_with p bs) (
    mark_with-IsValid (set_orders pmb_max_order 0) (λ off bm. set_orders-IsBytes 8 0 off bm 0)
      (λ off bm k ne. ground (arith, set_orders_first 7 0 off bm k)) p v)

-- Marking a page free keeps the blocks valid.
pub mark_page_free-IsValid :
    (shl3 : ℕ → ℕ) {bs : List Block} (p : ℕ) → IsValid bs → IsValid (mark_page_free shl3 p bs)
mark_page_free-IsValid shl3 {bs} p v = rw (mark_page_free-eq-mark_with shl3 p bs) (
    mark_with-IsValid (clear_orders shl3 pmb_max_order 0)
      (λ off bm. clear_orders-IsBytes shl3 8 0 off bm 0)
      (λ off bm k ne. ground (arith, clear_orders_first shl3 7 0 off bm k)) p v)

pub free_pages_from-IsValid :
    (shl3 : ℕ → ℕ) (n i page : ℕ) {bs : List Block}
    → IsValid bs
    → IsValid (free_pages_from shl3 n i page bs)
unfolding free_pages_from
free_pages_from-IsValid shl3 zero i page v = v
free_pages_from-IsValid shl3 (suc n) i page v =
    free_pages_from-IsValid shl3 n (i + 1) page (mark_page_free-IsValid shl3 _ v)
