-- ===== src/Phys/Marks.antt =====
-- `mark_page_used` and `mark_page_free` against the view in which each page is used or free.
use fusee_os.Base.{
  ℕ, ◌-◌, ◌/◌, ◌≡◌, refl, arith, Bool, false, ◌&&◌, Option, none, some, List, [], ◌∷◌, ◌==◌,
  if◌then◌else◌,
}
use fusee_os.Phys.{Block, page_size, in_block, mark_page_used, mark_page_free}
use fusee_os.Phys.Bitmap.{page_bit, set_orders_first, clear_orders_first}

-- The number of a page in a block.
abbrev pub page_index : Block → ℕ → ℕ
page_index b page = (page - b.base) / page_size

-- The page's bit of order 0 in the first block that holds the page, `none` if none does.
unfoldable pub page_state : List Block → ℕ → Option ℕ
unfolding in_block
page_state [] page = none
page_state (b ∷ bs) page =
    if in_block b page then some (page_bit b.bitmap 0 (page_index b page)) else page_state bs page

-- Two addresses lie in the same page of the same block.
unfoldable pub same_page : List Block → ℕ → ℕ → Bool
unfolding in_block
same_page [] p q = false
same_page (b ∷ bs) p q =
    let later = same_page bs p q in
    if in_block b p
    then in_block b q && (page_index b p == page_index b q)
    else (if in_block b q then false else later)

-- Marking page `p` used makes the state of that page 1 and leaves that of every other page.
pub mark_page_used-page_state :
    (bs : List Block) (p q : ℕ)
    → page_state (mark_page_used p bs) q ≡ (if same_page bs p q then some 1 else page_state bs q)
unfolding page_state same_page mark_page_used
mark_page_used-page_state [] p q = refl
mark_page_used-page_state (b ∷ bs) p q = ground (
  arith,
  set_orders_first 7 0 (page_index b p) b.bitmap (page_index b q),
  mark_page_used-page_state bs p q,
)

-- Marking page `p` free makes the state of that page 0 and leaves that of every other page,
-- whatever the shift `3 << s` gives where C leaves it undefined.
pub mark_page_free-page_state :
    (shl3 : ℕ → ℕ) (bs : List Block) (p q : ℕ)
    → page_state (mark_page_free shl3 p bs) q
      ≡ (if same_page bs p q then some 0 else page_state bs q)
unfolding page_state same_page mark_page_free
mark_page_free-page_state shl3 [] p q = refl
mark_page_free-page_state shl3 (b ∷ bs) p q = ground (
  arith,
  clear_orders_first shl3 7 0 (page_index b p) b.bitmap (page_index b q),
  mark_page_free-page_state shl3 bs p q,
)
