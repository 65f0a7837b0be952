-- ===== src/Heap/Tests.antt =====
-- A heap of a used block and a free block of one page each.
use fusee_os.Base.{
  ℕ, ◌+◌, ◌≡◌, refl, inl, inr, arith, Option, true, false, none, some, [], ◌∷◌, ◌==◌, if◌then◌else◌,
}
use fusee_os.Heap.{Cell, Heap, map_anon, kmalloc, kfree, best_from, used_end, shrink, header_size}
use fusee_os.Heap.Chain.{done, link}
use fusee_os.Heap.Malloc.{IsHeap, Mallocs, kmalloc-Mallocs}
use fusee_os.Heap.Free.{Frees, kfree-Frees}

abbrev first : Cell
first = record { used = true; size = 4064 }

abbrev second : Cell
second = record { used = false; size = 4064 }

abbrev heap : Heap
heap = record {
  header = λ a. if a == 0 then first else second;
  heap_size = 8192;
  calls = map_anon 4096 4096 ∷ map_anon 0 4096 ∷ [];
}

heap-IsHeap : IsHeap heap (first ∷ second ∷ [])
heap-IsHeap = record { chain = link refl (link refl done); in_pages = omega arith; mapped = refl }

kmalloc-Mallocs_example : Mallocs heap (first ∷ second ∷ []) 100 (kmalloc 10 100 heap)
kmalloc-Mallocs_example =
    kmalloc-Mallocs 100 heap (first ∷ second ∷ []) heap-IsHeap (omega arith) (omega arith) 10
      (omega arith)

kfree-Frees_example :
    Frees heap (first ∷ second ∷ []) 4096 (kfree 10 (some (4096 + header_size)) heap)
kfree-Frees_example =
    kfree-Frees heap (first ∷ second ∷ []) 4096 heap-IsHeap 10 (inr (inl refl)) (omega arith)
      (omega arith)

-- The free block is taken again, and freeing it cuts it off.
malloc_at : Option (ℕ × Heap) → ℕ
malloc_at none = 0
malloc_at (some (addr, p)) = addr

size_after : Option Heap → ℕ
size_after none = 0
size_after (some p) = p.heap_size

kmalloc_runs : malloc_at (kmalloc 10 100 heap) ≡ 4128
unfolding malloc_at kmalloc best_from
kmalloc_runs = refl

kfree_runs : size_after (kfree 10 (some 4128) heap) ≡ 4096
unfolding size_after kfree shrink used_end
kfree_runs = refl
