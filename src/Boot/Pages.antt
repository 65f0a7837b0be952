-- ===== src/Boot/Pages.antt =====
-- The pages that `alloc_page_hi` hands out, and the indices of an address in the page tables.
use fusee_os.Base.{
  ℕ, zero, suc, ◌+◌, ◌-◌, ◌*◌, ◌/◌, ◌^◌, ◌%◌, ◌≤◌, ◌<◌, ◌≡◌, ◌≢◌, arith, List, [], ◌∷◌, ◌==◌,
  Bool-cases, inl, inr, ==→eq, ==→ne, u64, sub64, take,
}
use fusee_os.Base.Bits.{bit_and_mask}
use fusee_os.Phys.{Region}
use fusee_os.Boot.{take_page, alloc_page_hi, decompose_addr}
use fusee_os.Boot.Detect.{covers, times}

-- Regions of whole pages.
abbrev pub ArePages : List Region → Type 0
ArePages [] = Unit
ArePages (r ∷ rs) = (r.size % 4096 ≡ 0) × (r.base + r.size < 2 ^ 64) × ArePages rs

-- The regions hold no memory.
abbrev pub AreEmpty : List Region → Type 0
AreEmpty [] = Unit
AreEmpty (r ∷ rs) = (r.size ≡ 0) × AreEmpty rs

-- A page and the regions that are left: each address of the page has lost one of the regions that
-- it lay in, and no other address has; or there was no page in the first `n` regions.
pub data Takes (n : ℕ) (rs : List Region) : ℕ × List Region → Type 0 where
  taken :
      {page : ℕ} {rs' : List Region}
      → ArePages rs'
      → ((x : ℕ) → times rs' x + covers page 4096 x ≡ times rs x)
      → Takes n rs (page, rs')
  exhausted : AreEmpty (take n rs) → Takes n rs (0, rs)

-- A page from the regions behind an empty one.
skip :
    (n : ℕ) (r : Region) (rs : List Region)
    → r.size % 4096 ≡ 0
    → r.base + r.size < 2 ^ 64
    → r.size ≡ 0
    → {out : ℕ × List Region} → Takes n rs out
    → Takes (suc n) (r ∷ rs) (out.0, r ∷ out.1)
skip n r rs m b e (taken pages count) = taken (m, b, pages) (λ x. omega (arith, count x))
skip n r rs m b e (exhausted none_left) = exhausted (e, none_left)

-- The first page of a region, for each address.
covers_split :
    (base size x : ℕ)
    → 4096 ≤ size
    → covers (base + 4096) (size - 4096) x + covers base 4096 x ≡ covers base size x
covers_split base size x h = ground arith

cut :
    (n : ℕ) (r : Region) (rs : List Region)
    → ArePages (r ∷ rs)
    → r.size ≢ 0
    → Takes
        (suc n)
        (r ∷ rs)
        (r.base, record { base = u64 (r.base + 4096); size = sub64 r.size 4096 } ∷ rs)
cut n r rs p some_page =
    let page : 4096 ≤ r.size = omega (arith, p.0) in
    let next : (r.base + 4096) % 2 ^ 64 ≡ r.base + 4096 = omega (arith, p.1) in
    let left : (r.size + 2 ^ 64 - 4096) % 2 ^ 64 ≡ r.size - 4096 = omega (arith, p.1) in
    rw (next, left)
      (taken (omega (arith, p.0), omega (arith, p.1), p.2)
        (λ x. omega (arith, covers_split r.base r.size x page)))

take_page-Takes : (n : ℕ) (rs : List Region) → ArePages rs → Takes n rs (take_page n rs)
unfolding take_page
take_page-Takes zero rs p = exhausted tt
take_page-Takes (suc n) [] p = exhausted tt
take_page-Takes (suc n) (r ∷ rs) p = elim (Bool-cases (r.size == 0)) [
  | inl e ↦ rw e (skip n r rs p.0 p.1 (==→eq r.size 0 e) (take_page-Takes n rs p.2))
  | inr e ↦ let some_page : r.size ≢ 0 = ==→ne r.size 0 e in rw e (cut n r rs p some_page)
]

-- In regions of whole pages, `alloc_page_hi` takes a page out of the first of 32 regions that has
-- memory: every address of the page lay in a region and lies in one region fewer afterwards, so
-- that no page of a memory map without overlaps is handed out twice; no other address changes, and
-- the regions stay whole pages. It returns 0, and changes nothing, only if the first 32 regions are
-- empty.
pub alloc_page_hi-Takes : (rs : List Region) → ArePages rs → Takes 32 rs (alloc_page_hi rs)
unfolding alloc_page_hi
alloc_page_hi-Takes rs p = take_page-Takes 32 rs p

-- The four indices are below 512, and with the offset in the page they give the 48 low bits of the
-- address back.
pub decompose_addr_round_trip :
    (virtual : ℕ)
    → let (a, b, c, d) = decompose_addr virtual in
      (a < 512)
      × (b < 512)
      × (c < 512)
      × (d < 512)
      × ((((a * 512 + b) * 512 + c) * 512 + d) * 4096 + virtual % 4096 ≡ virtual % 2 ^ 48)
unfolding decompose_addr
decompose_addr_round_trip virtual = omega (
  arith,
  bit_and_mask 9 (virtual / 2 ^ 39),
  bit_and_mask 9 (virtual / 2 ^ 30),
  bit_and_mask 9 (virtual / 2 ^ 21),
  bit_and_mask 9 (virtual / 2 ^ 12),
)
