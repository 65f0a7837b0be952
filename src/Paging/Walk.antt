-- ===== src/Paging/Walk.antt =====
-- The chunks that the iterator hands out, for a range within 512 pages.
use native.Mathlib.Nat.{add-zero}
use fusee_os.Base.{
  ℕ, ◌+◌, ◌-◌, ◌*◌, ◌/◌, ◌^◌, ◌%◌, ◌≤◌, ◌<◌, ◌≡◌, refl, ◌∙◌, arith, min, none, some, bit_and, u64,
}
use fusee_os.Paging.{
  PageIterator, Tables, page_iter_create, page_iter_next, iter_compute_dir, iter_compute_len, enter,
  leave, loop1, loop2, loop3, mmask_phys,
}

-- The index of an address in a table of level `k`, and the number of pages of a size.
abbrev pub level_index : ℕ → ℕ → ℕ
level_index k vaddr = vaddr / 2 ^ 12 / 2 ^ (9 * k) % 512

abbrev pub pages : ℕ → ℕ
pages size = (size + 2 ^ 12 - 1) / 2 ^ 12

pages_of : (size : ℕ) → size < 2 ^ 63 → u64 (size + 2 ^ 12 - 1) / 2 ^ 12 ≡ pages size
pages_of size h = omega arith

-- The table that an entry names.
abbrev pub named : Tables → ℕ → ℕ → ℕ
named dirs table i = bit_and (dirs table i) mmask_phys

-- How many of `n` entries from index `start` on a table has.
abbrev pub in_table : ℕ → ℕ → ℕ
in_table n start = min n (512 - start)

-- The lengths and offsets of an iterator over `n` pages with one entry at each level above, at the
-- indices `o`.
pub record Counts (o : ℕ → ℕ) (n : ℕ) (len offset : ℕ → ℕ) : Type 0 where
  pub pages : len 0 ≡ n
  pub one1 : len 1 ≡ 1
  pub one2 : len 2 ≡ 1
  pub one3 : len 3 ≡ 1
  pub start0 : offset 0 ≡ o 0
  pub start1 : offset 1 ≡ o 1
  pub start2 : offset 2 ≡ o 2
  pub start3 : offset 3 ≡ o 3
  pub small1 : o 1 < 512
  pub small2 : o 2 < 512
  pub small0 : o 0 < 512

abbrev pub Ready : (ℕ → ℕ) → ℕ → PageIterator → Type 0
Ready o n it = Counts o n it.len it.offset

iter_compute_len-in_table :
    (n start : ℕ) → start < 512 → iter_compute_len n start ≡ in_table n start
unfolding iter_compute_len
iter_compute_len-in_table n start h = ground arith

iter_compute_len-one : (start : ℕ) → start < 512 → iter_compute_len 1 start ≡ 1
iter_compute_len-one start h = iter_compute_len-in_table 1 start h ∙ omega arith

iter_compute_dir-first :
    (d : Tables) (dir offset : ℕ) → iter_compute_dir d dir 0 offset ≡ named d dir offset
unfolding iter_compute_dir
iter_compute_dir-first d dir offset = rw (add-zero offset) refl

module _ (d : Tables) (o : ℕ → ℕ) (n : ℕ) (it : PageIterator) (r : Ready o n it) where
  pub next1 :
      it.state ≡ 1
      → let (c, it') = page_iter_next d it in
        (c ≡ some (record { depth = 2; table = named d (it.dir 3) (o 3); start = o 2; count = 1 }))
        × Ready o n it'
        × (it'.state ≡ 2)
        × (it'.dir 2 ≡ named d (it.dir 3) (o 3))
        × (it'.index 3 ≡ 0)
        × (it'.len_current 2 ≡ 1)
  unfolding page_iter_next loop3 enter
  next1 s =
      let count = iter_compute_len-one (o 2) r.small2 in
      let table = iter_compute_dir-first d (it.dir 3) (o 3) in
      rw (s, r.one3, r.one2, r.start3, r.start2, table, count) (refl, r, refl, refl, refl, refl)

  pub next2 :
      it.state ≡ 2
      → it.index 3 ≡ 0
      → it.len_current 2 ≡ 1
      → let (c, it') = page_iter_next d it in
        (c ≡ some (record { depth = 1; table = named d (it.dir 2) (o 2); start = o 1; count = 1 }))
        × Ready o n it'
        × (it'.state ≡ 3)
        × (it'.dir 1 ≡ named d (it.dir 2) (o 2))
        × (it'.index 3 ≡ 0)
        × (it'.len_current 2 ≡ 1)
        × (it'.index 2 ≡ 0)
        × (it'.len_current 1 ≡ 1)
  unfolding page_iter_next loop2 enter
  next2 s i3 c2 =
      let count = iter_compute_len-one (o 1) r.small1 in
      let table = iter_compute_dir-first d (it.dir 2) (o 2) in
      rw (s, r.one2, r.one1, r.start2, r.start1, table, count)
        (refl, r, refl, refl, i3, c2, refl, refl)

  pub next3 :
      it.state ≡ 3
      → let (c, it') = page_iter_next d it in
        (c
          ≡ some (record {
            depth = 0;
            table = named d (it.dir 1) (o 1);
            start = o 0;
            count = in_table n (o 0);
          }))
        × (it'.state ≡ 4)
        × (it'.index 1 ≡ 0)
        × (it'.index 2 ≡ it.index 2)
        × (it'.index 3 ≡ it.index 3)
        × (it'.len 1 ≡ 1)
        × (it'.len 2 ≡ 1)
        × (it'.len 3 ≡ 1)
  unfolding page_iter_next loop1 enter
  next3 s =
      let count = iter_compute_len-in_table n (o 0) r.small0 in
      let table = iter_compute_dir-first d (it.dir 1) (o 1) in
      rw (s, r.one1, r.pages, r.start1, r.start0, table, count)
        (refl, refl, refl, refl, refl, r.one1, r.one2, r.one3)

-- Once the lowest table is done every loop ends.
pub next4 :
    (d : Tables) (it : PageIterator)
    → it.state ≡ 4
    → it.index 1 ≡ 0
    → it.index 2 ≡ 0
    → it.index 3 ≡ 0
    → it.len 1 ≡ 1
    → it.len 2 ≡ 1
    → it.len 3 ≡ 1
    → (page_iter_next d it).0 ≡ none
unfolding page_iter_next loop1 loop2 loop3 leave
next4 d it s i1 i2 i3 l1 l2 l3 = rw (s, i1, i2, i3, l1, l2, l3) refl

-- The iterator of a range of at most 512 pages.
page_iter_create-Ready :
    (cr3 vaddr size : ℕ)
    → 0 < size
    → size ≤ 512 * 4096
    → Ready (λ k. level_index k vaddr) (pages size) (page_iter_create cr3 vaddr size)
unfolding page_iter_create
page_iter_create-Ready cr3 vaddr size some_bytes few = record {
  pages = omega arith;
  one1 = omega arith;
  one2 = omega arith;
  one3 = omega arith;
  start0 = refl;
  start1 = refl;
  start2 = refl;
  start3 = refl;
  small0 = omega arith;
  small1 = omega arith;
  small2 = omega arith;
}

-- The first chunk is the entry of the top table.
pub next0 :
    (d : Tables) (cr3 vaddr size : ℕ)
    → 0 < size
    → size ≤ 512 * 4096
    → let (c, it') = page_iter_next d (page_iter_create cr3 vaddr size) in
      (c ≡ some (record { depth = 3; table = cr3; start = level_index 3 vaddr; count = 1 }))
      × Ready (λ k. level_index k vaddr) (pages size) it'
      × (it'.state ≡ 1)
      × (it'.dir 3 ≡ cr3)
unfolding page_iter_next page_iter_create
next0 d cr3 vaddr size some_bytes few =
    let r = page_iter_create-Ready cr3 vaddr size some_bytes few in
    rw (r.one3) (refl, r, refl, refl)
