-- ===== src/Phys/Init/Blocks.antt =====
-- The loop of `init_physical_memory` over the memory zones.
use fusee_os.Base.{
  true, ℕ, ◌+◌, ◌*◌, ◌/◌, ◌^◌, ◌≤◌, ◌<◌, ◌≡◌, refl, ap, ◌∙◌, arith, Bool, false, ◌&&◌, ◌||◌, ◌⊎◌,
  none, some, List, [], ◌∷◌, ltb, leb, ◌==◌, if◌then◌else◌, u64, Memory, ne→==,
}
use fusee_os.Phys.{Block, Region, page_size, in_block}
use fusee_os.Phys.Marks.{page_index, page_state}
use fusee_os.Phys.Scan.{IsBytes}
use fusee_os.Phys.Valid.{IsApart, IsValid, end, live, page_index-lt, in_block_empty}
use fusee_os.Phys.Init.{init_block, Zones, bitmap_pages, bitmaps_served, cons_block, init_blocks}
use fusee_os.Phys.Init.Fresh.{IsFresh, IsZone, init_block-IsFresh}

-- No region of the list meets `r`.
abbrev pub IsClear : Region → List Region → Type 0
IsClear r [] = Unit
IsClear r (s ∷ ss) = (s.base + s.size ≤ r.base ⊎ r.base + r.size ≤ s.base) × IsClear r ss

-- Entries of `alloc->blocks` that are not in use.
abbrev pub IsUnused : List Block → Type 0
IsUnused [] = Unit
IsUnused (b ∷ bs) = (b.npages ≡ 0) × (b.base < 2 ^ 64) × IsUnused bs

-- A memory map: zones that do not meet, then an entry of size 0, with an unused block for each of
-- them, and memory for all bitmaps in the free regions that the bitmaps before leave.
pub data IsMap (ram : Memory) : List Region → List Block → List Region → Type 0 where
  stop :
      {r : Region} {rs : List Region} {b : Block} {bs : List Block} {mem_free : List Region}
      → r.size ≡ 0
      → IsUnused (b ∷ bs)
      → IsMap ram (r ∷ rs) (b ∷ bs) mem_free
  zone :
      {r : Region} {rs : List Region} {b : Block} {bs : List Block} {mem_free : List Region}
      → IsZone r
      → IsClear r rs
      → bitmaps_served 8 (bitmap_pages (r.size / page_size)) mem_free ≡ true
      → IsMap ram rs bs ((init_block ram r b mem_free).1)
      → IsMap ram (r ∷ rs) (b ∷ bs) mem_free

-- `q` lies in a whole page of the region.
abbrev pub in_zone : Region → ℕ → Bool
in_zone r q = leb r.base q && ltb q (r.base + r.size / page_size * page_size)

-- `q` lies in a whole page of a region of the map.
abbrev pub in_zones : List Region → ℕ → Bool
in_zones [] q = false
in_zones (r ∷ rs) q =
    let later = in_zones rs q in if r.size == 0 then false else in_zone r q || later

-- The number of whole pages of the map.
abbrev pub zone_pages : List Region → ℕ
zone_pages [] = 0
zone_pages (r ∷ rs) =
    let later = zone_pages rs in if r.size == 0 then 0 else r.size / page_size + later

-- Valid blocks over the pages of the map, each of them used.
pub record AreUsed (rs : List Region) (before : ℕ) (z : Zones) : Type 0 where
  pub valid : IsValid z.blocks
  pub states : (q : ℕ) → page_state z.blocks q ≡ (if in_zones rs q then some 1 else none)
  pub total : z.total ≡ u64 (before + zone_pages rs)
  pub apart : (r : Region) (b : Block) → IsFresh r b → IsClear r rs → IsApart b z.blocks

IsUnused-state : (bs : List Block) (q : ℕ) → IsUnused bs → page_state bs q ≡ none
unfolding page_state
IsUnused-state [] q h = refl
IsUnused-state (b ∷ bs) q h = rw (in_block_empty b q h.0 h.1) (IsUnused-state bs q h.2)

IsUnused-IsApart : (b : Block) (bs : List Block) → IsUnused bs → IsApart b bs
IsUnused-IsApart b [] h = tt
IsUnused-IsApart b (c ∷ cs) h = (λ k lt. absurd (omega (arith, h.0)), IsUnused-IsApart b cs h.2)

IsFresh-page_state :
    (r : Region) (b : Block) (bs : List Block) (q : ℕ)
    → IsFresh r b
    → page_state (b ∷ bs) q ≡ (if in_zone r q then some 1 else page_state bs q)
unfolding page_state in_block
IsFresh-page_state r b bs q f =
    ground
      (arith, f.base, f.npages, f.live.fits, f.used (page_index b q), page_index-lt b q f.live.fits)

IsFresh-apart :
    (r s : Region) (b c : Block)
    → IsFresh r b
    → IsFresh s c
    → (s.base + s.size ≤ r.base ⊎ r.base + r.size ≤ s.base)
    → (k : ℕ) → k < c.npages
    → in_block b (c.base + k * page_size) ≡ false
unfolding in_block
IsFresh-apart r s b c f g clear k lt =
    ground (arith, f.base, f.npages, f.live.fits, g.base, g.npages)

pub init_blocks-step :
    (ram : Memory) (r : Region) (rs : List Region) (b : Block) (bs : List Block) (total : ℕ)
    (mem_free : List Region)
    → (r.size == 0) ≡ false
    → init_blocks ram (r ∷ rs) (b ∷ bs) total mem_free
      ≡ cons_block
          (bitmaps_served 8 (bitmap_pages ((init_block ram r b mem_free).0).npages) mem_free)
          ((init_block ram r b mem_free).0)
          (init_blocks ram rs bs
            (u64 (total + ((init_block ram r b mem_free).0).npages))
            ((init_block ram r b mem_free).1))
unfolding init_blocks
init_blocks-step ram r rs b bs total mem_free e = rw (e, init_blocks) refl

module _ (ram : Memory) (ram_bytes : IsBytes ram) where
  -- On a memory map the loop over the zones keeps within both arrays and ends, with valid blocks
  -- in which exactly the whole pages of the map are, each used.
  pub init_blocks-AreUsed :
      {rs : List Region} {bs : List Block} (total : ℕ) (mem_free : List Region)
      → IsMap ram rs bs mem_free
      → total < 2 ^ 64
      → (z : Zones) × (init_blocks ram rs bs total mem_free ≡ some z) × AreUsed rs total z
  unfolding init_blocks
  init_blocks-AreUsed total mem_free (stop {r} {rs} {b} {bs} e u) h = (
    record { blocks = b ∷ bs; total = total; mem_free = mem_free },
    rw e refl,
    record {
      valid = end u.0 u.1 (λ q. IsUnused-state bs q u.2);
      states = λ q. rw e (IsUnused-state (b ∷ bs) q u);
      total = rw e (omega arith);
      apart = λ s c f clear. IsUnused-IsApart c (b ∷ bs) u;
    },
  )
  init_blocks-AreUsed total mem_free (zone {r} {rs} {b} {bs} z clear served m) h =
      let ne : (r.size == 0) ≡ false = ne→== r.size 0 (omega (arith, z.a_page)) in
      let f : IsFresh r ((init_block ram r b mem_free).0) =
        init_block-IsFresh ram ram_bytes r b mem_free z in
      let (y, e, used) =
        init_blocks-AreUsed (u64 (total + ((init_block ram r b mem_free).0).npages))
          ((init_block ram r b mem_free).1) m (omega arith) in
      (
        record y { blocks = (init_block ram r b mem_free).0 ∷ y.blocks },
        init_blocks-step ram r rs b bs total mem_free ne
            ∙ ap (cons_block _ _) e
            ∙ ap (λ t. cons_block t ((init_block ram r b mem_free).0) (some y))
                (ap (λ n. bitmaps_served 8 (bitmap_pages n) mem_free) f.npages ∙ served),
        record {
          valid = live f.live (used.apart r _ f clear) used.valid;
          states = λ q. rw ne (IsFresh-page_state r _ y.blocks q f ∙ ground (arith, used.states q));
          total = rw ne (omega (arith, used.total, f.npages));
          apart = λ s c g far. (IsFresh-apart s r c _ g f far.0, used.apart s c g far.1);
        },
      )
