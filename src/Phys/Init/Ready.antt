-- ===== src/Phys/Init/Ready.antt =====
-- The allocator that `init_physical_memory` leaves.
use fusee_os.Base.{
  ℕ, zero, suc, ◌+◌, ◌/◌, ◌^◌, ◌≤◌, ◌≡◌, Bool, false, ◌||◌, Option, none, some, List, [], ◌∷◌,
  if◌then◌else◌, u64, false,
}
use fusee_os.Phys.{Block, Allocator, Region, page_size}
use fusee_os.Phys.Marks.{page_state}
use fusee_os.Phys.Valid.{IsValid}
use fusee_os.Phys.Contract.{in_run}
use fusee_os.Phys.Init.{Zones}
use fusee_os.Phys.Init.Blocks.{in_zones, zone_pages}

-- No region is larger than 4 GiB.
abbrev pub AreSmall : List Region → Type 0
AreSmall [] = Unit
AreSmall (r ∷ rs) = (r.size ≤ 2 ^ 32) × AreSmall rs

abbrev SmallZones : Option Zones → Type 0
SmallZones none = Unit
SmallZones (some z) = AreSmall z.mem_free

-- `q` lies in the page of a whole page of one of the first `n` regions.
abbrev pub in_free : List Block → ℕ → List Region → ℕ → Bool
in_free bs zero rs q = false
in_free bs (suc n) [] q = false
in_free bs (suc n) (r ∷ rs) q = in_free bs n rs q || in_run bs r.base (r.size / page_size) 0 q

-- The number of whole pages of the first `n` regions.
abbrev pub free_pages : ℕ → List Region → ℕ
free_pages zero rs = 0
free_pages (suc n) [] = 0
free_pages (suc n) (r ∷ rs) = r.size / page_size + free_pages n rs

-- The pages of the regions are free in `a'`, and nothing else has changed.
record AreFreed (n : ℕ) (rs : List Region) (a a' : Allocator) : Type 0 where
  valid : IsValid a'.blocks
  states :
      (q : ℕ)
      → page_state a'.blocks q
        ≡ (if in_free a'.blocks n rs q then some 0 else page_state a.blocks q)
  count : a'.pages_free ≡ u64 (a.pages_free + free_pages n rs)
  total : a'.pages_total ≡ a.pages_total
  shape : (page m i q : ℕ) → in_run a'.blocks page m i q ≡ in_run a.blocks page m i q

-- The pages of `mem_free` are free and those of the rest of the map are used.
pub record IsReady (mem_map : List Region) (a a' : Allocator) (mem_free : List Region)
    : Type 0 where
  pub valid : IsValid a'.blocks
  pub states :
      (q : ℕ)
      → page_state a'.blocks q ≡ (
          if in_free a'.blocks 32 mem_free q
          then some 0
          else (if in_zones mem_map q then some 1 else none))
  pub pages_total : a'.pages_total ≡ u64 (a.pages_total + zone_pages mem_map)
  pub pages_free : a'.pages_free ≡ u64 (a.pages_free + free_pages 32 mem_free)
