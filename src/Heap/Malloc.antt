-- ===== src/Heap/Malloc.antt =====
-- `kmalloc` on a well-formed heap.
use fusee_os.Base.{
  ℕ, ◌+◌, ◌%◌, ◌^◌, ◌≤◌, ◌<◌, ◌≡◌, ◌≢◌, refl, ◌⊎◌, inl, inr, arith, Bool, true, Option, none, some,
  List, [], ◌∷◌, ◌++◌, length, ◌==◌, if◌then◌else◌, u64, sub64,
}
use fusee_os.Phys.{page_round}
use fusee_os.Heap.{
  Cell, Heap, MapCall, map_anon, unmap_anon, header_size, next_block, make_new_block, kmalloc,
}
use fusee_os.Heap.Chain.{
  Chain, In, In-bounds, In-apart, mark, set_used, Chain-set_used, Chain-store_end,
}
use fusee_os.Heap.Best.{Suits, BestOf, nothing, smallest, best_from-BestOf}

-- Every block takes up whole pages, its header included.
abbrev pub InPages : List Cell → Type 0
InPages [] = Unit
InPages (c ∷ cs) = ((header_size + c.size) % 4096 ≡ 0) × InPages cs

-- What the calls of the heap have left mapped, from the heap's base up; `none` if a call did not
-- begin or end at the end of what was mapped.
abbrev pub mapped_end : List MapCall → Option ℕ
mapped_end [] = some 0
mapped_end (map_anon off size ∷ cs) = elim (mapped_end cs) [
  | none ↦ none
  | some e ↦ if off == e then some (off + size) else none
]
mapped_end (unmap_anon off size ∷ cs) = elim (mapped_end cs) [
  | none ↦ none
  | some e ↦ if off + size == e then some off else none
]

-- The heap's blocks are `cells`, and what is mapped is what they take up.
pub record IsHeap (p : Heap) (cells : List Cell) : Type 0 where
  pub chain : Chain p.header p.heap_size 0 cells
  pub in_pages : InPages cells
  pub mapped : mapped_end p.calls ≡ some p.heap_size

-- `addr` is the payload of a block that is in use in `p'`, has room and lies in the heap. No
-- block that was used meets it, no free block with room was smaller, the heap has grown only if
-- none had room, and no other header has changed.
pub record IsFresh (p : Heap) (cells : List Cell) (size addr : ℕ) (p' : Heap) : Type 0 where
  pub at : ℕ
  pub payload : addr ≡ at + header_size
  pub in_use : (p'.header at).used ≡ true
  pub room : size ≤ (p'.header at).size
  pub inside : next_block p'.header at ≤ p'.heap_size
  pub apart :
      (x : ℕ)
      → In 0 cells x
      → (p.header x).used ≡ true
      → (next_block p.header x ≤ at) ⊎ (next_block p'.header at ≤ x)
  pub best :
      (x : ℕ) → In 0 cells x → Suits p.header size x → (p'.header at).size ≤ (p.header x).size
  pub grows : (p'.heap_size ≡ p.heap_size) ⊎ ((x : ℕ) → In 0 cells x → Suits p.header size x → ⊥)
  pub others : (x : ℕ) → x ≢ at → p'.header x ≡ p.header x

-- `kmalloc` returned the payload of a fresh block and left a well-formed heap.
pub data Mallocs (p : Heap) (cells : List Cell) (size : ℕ) : Option (ℕ × Heap) → Type 0 where
  mallocs :
      {addr : ℕ} {p' : Heap} (cells' : List Cell)
      → IsHeap p' cells'
      → IsFresh p cells size addr p'
      → Mallocs p cells size (some (addr, p'))

pub page_round-bounds :
    (n : ℕ)
    → n < 2 ^ 63
    → (n ≤ page_round n) × (page_round n < n + 4096) × (page_round n % 4096 ≡ 0)
unfolding page_round
page_round-bounds n h = omega arith

InPages-append : (cs ds : List Cell) → InPages cs → InPages ds → InPages (cs ++ ds)
InPages-append [] ds h k = k
InPages-append (c ∷ cs) ds h k = (h.0, InPages-append cs ds h.1 k)

pub mark-InPages : (u : Bool) (x a : ℕ) (cs : List Cell) → InPages cs → InPages (mark u x a cs)
mark-InPages u x a [] h = tt
mark-InPages u x a (c ∷ cs) h =
    (ground (arith, h.0), mark-InPages u x (a + header_size + c.size) cs h.1)

module _ (size : ℕ) (p : Heap) (cells : List Cell) (v : IsHeap p cells) where
  -- A free block that suits is put to use.
  reused : ℕ → Heap
  reused b = record p { header = set_used p.header b true }

  reused-IsHeap : (b : ℕ) → IsHeap (reused b) (mark true b 0 cells)
  unfolding reused
  reused-IsHeap b = record {
    chain = Chain-set_used b true v.chain;
    in_pages = mark-InPages true b 0 cells v.in_pages;
    mapped = v.mapped;
  }

  reused-IsFresh :
      (b : ℕ)
      → In 0 cells b
      → Suits p.header size b
      → ((x : ℕ) → In 0 cells x → Suits p.header size x → (p.header b).size ≤ (p.header x).size)
      → IsFresh p cells size (b + header_size) (reused b)
  unfolding reused
  reused-IsFresh b i fits least = record {
    at = b;
    payload = refl;
    in_use = ground arith;
    room = ground arith;
    inside = ground (arith, (In-bounds b v.chain i).1);
    apart = λ x j used. ground (arith, In-apart x b v.chain j i (different x used));
    best = λ x j s. ground (arith, least x j s);
    grows = inl refl;
    others = λ x ne. ground arith;
  }
    where
      different : (x : ℕ) → (p.header x).used ≡ true → x ≢ b
      different x used e = ground (arith, fits.0)

  -- Nothing suits: a block is made behind the last.
  abbrev extra : ℕ
  extra = page_round (u64 (size + header_size))

  abbrev new_cell : Cell
  new_cell = record { used = true; size = sub64 extra header_size % 2 ^ 63 }

  module _ (small : size < 2 ^ 62) (room : p.heap_size < 2 ^ 62) where
    new_cell_size :
        (header_size + new_cell.size ≡ extra)
        × (size ≤ new_cell.size)
        × (extra % 4096 ≡ 0)
        × (u64 (p.heap_size + extra) ≡ p.heap_size + header_size + new_cell.size)
    new_cell_size = omega (arith, page_round-bounds (u64 (size + header_size)) (omega arith))

    new_block-IsHeap : IsHeap (make_new_block size p).1 (cells ++ new_cell ∷ [])
    unfolding make_new_block
    new_block-IsHeap = record {
      chain = rw new_cell_size.3 (Chain-store_end new_cell v.chain);
      in_pages = InPages-append cells (new_cell ∷ []) v.in_pages (omega (arith, new_cell_size), tt);
      mapped = rw v.mapped (ground (arith, new_cell_size));
    }

    new_block-IsFresh :
        ((x : ℕ) → In 0 cells x → Suits p.header size x → ⊥)
        → IsFresh p cells size (make_new_block size p).0 (make_new_block size p).1
    unfolding make_new_block
    new_block-IsFresh none_suits = record {
      at = p.heap_size;
      payload = refl;
      in_use = ground arith;
      room = ground (arith, new_cell_size);
      inside = ground (arith, new_cell_size);
      apart = λ x j used. inl ((In-bounds x v.chain j).1);
      best = λ x j s. absurd (none_suits x j s);
      grows = inr none_suits;
      others = λ x ne. ground arith;
    }

    serve :
        {o : Option ℕ}
        → BestOf p.header size 0 cells none o
        → Mallocs p cells size (elim o [
          | some b ↦ some (b + header_size, reused b)
          | none ↦ some (make_new_block size p)
        ])
    serve (nothing e none_suits) =
        mallocs (cells ++ new_cell ∷ []) new_block-IsHeap (new_block-IsFresh none_suits)
    serve (smallest {b} fits (inl i) least before) =
        mallocs (mark true b 0 cells) (reused-IsHeap b) (reused-IsFresh b i fits least)
    serve (smallest fits (inr e) least before) = absurd (cc e)

    -- With more rounds than the heap has blocks, `kmalloc` returns the payload of a block that
    -- is in use, has the size asked for and meets no block that was used. It is the smallest free
    -- block with room, or a new one if none has room, and the heap stays well-formed.
    pub kmalloc-Mallocs :
        (fuel : ℕ) → length cells < fuel → Mallocs p cells size (kmalloc fuel size p)
    unfolding kmalloc reused
    kmalloc-Mallocs fuel enough =
        let (o, run, found) = best_from-BestOf p.header size fuel none v.chain enough tt in
        rw (run, kmalloc) (serve found)
