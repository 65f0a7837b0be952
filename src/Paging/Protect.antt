-- ===== src/Paging/Protect.antt =====
-- `kmprotect` and `kunmapanon` on the entries that the walk reaches.
use mathlib.Core.Path.{subst, subst₂}
use fusee_os.Base.{
  ℕ, ◌-◌, ◌/◌, ◌%◌, min, ◌+◌, ◌*◌, ◌≤◌, ◌<◌, ◌≡◌, refl, ap, ◌∙◌, arith, some, List, [], ◌∷◌,
  bit_and,
}
use fusee_os.Phys.{Allocator, free_phys_pages}
use fusee_os.Paging.{Kernel, Tables, protected, protect_entry, protect_chunk, kmprotect, mmask_phys}
use fusee_os.Paging.Maps.{free_entry, free_chunk, kunmapanon}
use fusee_os.Paging.Walk.{level_index, pages, in_table}
use fusee_os.Paging.Lowest.{lowest, end_index, each_chunk-lowest}
use fusee_os.Paging.Changes.{Changes, entries, for_entries, each_entry-Changes}

for_entries_idle : (es : List ℕ) (a : Allocator) → for_entries (λ e p. p) es a ≡ a
for_entries_idle [] a = refl
for_entries_idle (e ∷ es) a = for_entries_idle es a

-- The pages that the bytes of a range lie in, and the index behind the entries of those that the
-- lowest table has.
abbrev pub touched : ℕ → ℕ → ℕ
touched addr size = (addr + size - 1) / 4096 + 1 - addr / 4096

abbrev pub range_end : ℕ → ℕ → ℕ
range_end addr size = min 512 (level_index 0 addr + touched addr size)

-- The code counts the pages from the size alone, which is right where the range begins at a page.
end_index-touched :
    (addr size : ℕ) → addr % 4096 ≡ 0 → 0 < size → end_index addr size ≡ range_end addr size
end_index-touched addr size aligned some_bytes =
    let e : pages size ≡ touched addr size = omega arith in
    let lt : level_index 0 addr < 512 = omega arith in omega (arith, e)

-- On at least five rounds `kmprotect` returns for a range of one byte to 512 pages that begins at a
-- page. It changes the entries of the lowest table for the pages that the bytes of the range lie
-- in, up to the end of that table, to what `protected` gives for them, and nothing else.
pub kmprotect-Changes :
    (f addr size prot : ℕ) (k : Kernel)
    → addr % 4096 ≡ 0
    → 0 < size
    → size ≤ 512 * 4096
    → (dirs' : Tables) × (kmprotect (5 + f) addr size prot k ≡ some (record k { dirs = dirs' }))
      × Changes
          (protected k.nx_mask prot)
          (lowest k.dirs k.cr3 addr)
          (level_index 0 addr)
          (range_end addr size)
          k.dirs
          dirs'
unfolding kmprotect protect_chunk protect_entry
kmprotect-Changes f addr size prot k aligned some_bytes few =
    let o = level_index 0 addr in
    let table = lowest k.dirs k.cr3 addr in
    let n = in_table (pages size) o in
    let same = end_index-touched addr size aligned some_bytes in
    let (dirs', result, p) =
      each_entry-Changes (protect_entry prot) (λ nx. protected nx prot) (λ e p. p) (λ t i k. refl)
        table n o k in
    (
      dirs',
      each_chunk-lowest (λ s. s.dirs) (protect_chunk prot) f k.cr3 addr size k _ some_bytes few
            (λ c h. ground arith) result
          ∙ ap (λ pmem. some (record k { pmem = pmem; dirs = dirs' }))
              (for_entries_idle (entries k.dirs table o n) k.pmem),
      subst
          (λ last.
            Changes (protected k.nx_mask prot) (lowest k.dirs k.cr3 addr) (level_index 0 addr) last
              k.dirs dirs')
          same p,
    )

-- What `kunmapanon` leaves when `n` entries up to the index `last` are freed.
abbrev Unmaps : (ℕ → ℕ) → ℕ → ℕ → ℕ → Kernel → ℕ → ℕ → Type 0
Unmaps shl3 fuel addr size k n last =
    let table = lowest k.dirs k.cr3 addr in
    (dirs' : Tables) × (kunmapanon shl3 fuel addr size k
      ≡ some (record k {
        pmem =
            for_entries (λ e p. free_phys_pages shl3 (bit_and e mmask_phys) 1 p)
              (entries k.dirs table (level_index 0 addr) n) k.pmem;
        dirs = dirs';
      }))
    × Changes (λ e. 0) table (level_index 0 addr) last k.dirs dirs'

kunmapanon-Unmaps :
    (shl3 : ℕ → ℕ) (f addr size : ℕ) (k : Kernel)
    → 0 < size
    → size ≤ 512 * 4096
    → Unmaps shl3
        (5 + f)
        addr
        size
        k
        (in_table (pages size) (level_index 0 addr))
        (end_index addr size)
unfolding kunmapanon free_chunk free_entry
kunmapanon-Unmaps shl3 f addr size k some_bytes few =
    let o = level_index 0 addr in
    let table = lowest k.dirs k.cr3 addr in
    let (dirs', result, p) =
      each_entry-Changes (free_entry shl3) (λ nx e. 0)
        (λ e p. free_phys_pages shl3 (bit_and e mmask_phys) 1 p) (λ t i k. refl) table
        (in_table (pages size) o) o k in
    (
      dirs',
      each_chunk-lowest (λ s. s.dirs) (free_chunk shl3) f k.cr3 addr size k _ some_bytes few
          (λ c h. ground arith) result,
      p,
    )

-- On at least five rounds `kunmapanon` returns for a range of one byte to 512 pages that begins at
-- a page. It clears the entries of the lowest table for the pages that the bytes of the range lie
-- in, up to the end of that table, frees the pages that they named, in order, and changes nothing
-- else.
pub kunmapanon-Changes :
    (shl3 : ℕ → ℕ)
    → (f addr size : ℕ) (k : Kernel) → addr % 4096 ≡ 0
    → 0 < size
    → size ≤ 512 * 4096
    → let o = level_index 0 addr in
      let table = lowest k.dirs k.cr3 addr in
      let freed = entries k.dirs table o (range_end addr size - o) in
      (dirs' : Tables) × (kunmapanon shl3 (5 + f) addr size k
        ≡ some (record k {
          pmem = for_entries (λ e p. free_phys_pages shl3 (bit_and e mmask_phys) 1 p) freed k.pmem;
          dirs = dirs';
        }))
      × Changes (λ e. 0) table o (range_end addr size) k.dirs dirs'
kunmapanon-Changes shl3 f addr size k aligned some_bytes few =
    let same = end_index-touched addr size aligned some_bytes in
    let count : in_table (pages size) (level_index 0 addr)
        ≡ range_end addr size - level_index 0 addr =
      omega (arith, same) in
    subst₂ (λ n last. Unmaps shl3 (5 + f) addr size k n last) count same
      (kunmapanon-Unmaps shl3 f addr size k some_bytes few)
