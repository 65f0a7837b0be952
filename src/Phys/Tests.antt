-- ===== src/Phys/Tests.antt =====
-- The page allocator on a block whose first page alone is free.
use fusee_os.Base.{ℕ, ◌≡◌, refl, arith, if◌then◌else◌, some}
use fusee_os.Phys.{
  Allocator, alloc_phys_pages, free_phys_pages, mark_page_used, find_page, find_in_words,
  find_in_word, find_zero_bit, load_le, bitmap_words,
}
use fusee_os.Phys.Marks.{page_state}
use fusee_os.Phys.Valid.{IsValid}
use fusee_os.Phys.Contract.{
  Serves, in_run, alloc_phys_pages-Serves, free_phys_pages-page_state, alloc-free_round_trip,
}
use fusee_os.Phys.Samples.{allocator, machine_shl3, allocator-IsValid}

alloc_phys_pages-Serves_example : Serves allocator (alloc_phys_pages 1 allocator)
alloc_phys_pages-Serves_example = alloc_phys_pages-Serves allocator allocator-IsValid

free_phys_pages-page_state_example :
    ((q : ℕ)
      → page_state (free_phys_pages machine_shl3 0x1001000 2 allocator).blocks q ≡ (
          if in_run allocator.blocks 0x1001000 2 0 q
          then some 0
          else page_state allocator.blocks q))
    × IsValid (free_phys_pages machine_shl3 0x1001000 2 allocator).blocks
free_phys_pages-page_state_example =
    free_phys_pages-page_state machine_shl3 0x1001000 2 allocator allocator-IsValid

abbrev taken : Allocator
taken = record {
  blocks = mark_page_used 0x1000000 allocator.blocks;
  pages_total = 64;
  pages_free = 0;
}

alloc_takes_first : alloc_phys_pages 1 allocator ≡ some (0x1000000, taken)
unfolding alloc_phys_pages find_page find_in_words find_in_word find_zero_bit load_le bitmap_words
alloc_takes_first = refl

alloc-free_round_trip_example :
    ((q : ℕ)
      → page_state (free_phys_pages machine_shl3 0x1000000 1 taken).blocks q
        ≡ page_state allocator.blocks q)
    × ((free_phys_pages machine_shl3 0x1000000 1 taken).pages_free ≡ 1)
alloc-free_round_trip_example =
    alloc-free_round_trip machine_shl3 allocator allocator-IsValid (omega arith) (omega arith)
      (omega arith) alloc_takes_first
