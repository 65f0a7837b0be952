-- ===== src/Phys/Contract.antt =====
-- What the allocator promises its callers: one page at a time, each page to one caller.
use mathlib.Core.Path.{subst}
use fusee_os.Base.{
  ℕ, zero, suc, ◌+◌, ◌*◌, ◌^◌, ◌<◌, ◌≤◌, ◌/◌, ◌%◌, ◌-◌, ◌≡◌, ◌≢◌, refl, arith, Bool, true, false,
  ◌||◌, Option, none, some, List, [], ◌∷◌, if◌then◌else◌, u64, sub64, ne→==,
}
use fusee_os.Phys.{
  Block, Allocator, page_size, bad_page, mark_page_used, mark_page_free, free_pages_from,
  free_phys_pages, found, exhausted, past_end, alloc_phys_pages, alloc_phys, Search,
}
use fusee_os.Phys.Marks.{
  page_state, same_page, mark_page_used-page_state, mark_page_free-page_state,
}
use fusee_os.Phys.Valid.{IsValid, mark_page_used-IsValid, free_pages_from-IsValid}
use fusee_os.Phys.Alloc.{FindsPage, free, full, find_page-FindsPage}

same_page-mark_page_used :
    (bs : List Block) (r p q : ℕ) → same_page (mark_page_used r bs) p q ≡ same_page bs p q
unfolding same_page mark_page_used
same_page-mark_page_used [] r p q = refl
same_page-mark_page_used (b ∷ bs) r p q = ground (arith, same_page-mark_page_used bs r p q)

-- The page `p` was free and is used in `a'`, and nothing else has changed.
pub record IsTaken (a : Allocator) (p : ℕ) (a' : Allocator) : Type 0 where
  pub was_free : page_state a.blocks p ≡ some 0
  pub is_page : p < bad_page
  pub states :
      (q : ℕ)
      → page_state a'.blocks q ≡ (if same_page a.blocks p q then some 1 else page_state a.blocks q)
  pub count : a'.pages_free ≡ sub64 a.pages_free 1
  pub total : a'.pages_total ≡ a.pages_total
  pub shape : (q : ℕ) → same_page a'.blocks p q ≡ same_page a.blocks p q
  pub valid : IsValid a'.blocks

-- A request is served, or no page is free and nothing changes.
pub data Serves (a : Allocator) : Option (ℕ × Allocator) → Type 0 where
  served : {p : ℕ} {a' : Allocator} → IsTaken a p a' → Serves a (some (p, a'))
  refused : ((q : ℕ) → page_state a.blocks q ≢ some 0) → Serves a (some (bad_page, a))

serve :
    (a : Allocator)
    → IsValid a.blocks
    → {s : Search} → FindsPage a.blocks s
    → Serves a (elim s [
      | found page ↦ some (
        page,
        record a { blocks = mark_page_used page a.blocks; pages_free = sub64 a.pages_free 1 },
      )
      | exhausted ↦ some (bad_page, a)
      | past_end ↦ none
    ])
serve a v (free {p} e lt outside) = served (record {
  was_free = e;
  is_page = lt;
  states = mark_page_used-page_state a.blocks p;
  count = refl;
  total = refl;
  shape = same_page-mark_page_used a.blocks p p;
  valid = mark_page_used-IsValid p v;
})
serve a v (full none_left) = refused none_left

-- On valid blocks a request for one page never reads behind the blocks. It takes a page that was
-- free and changes no other page's state, or it returns BADPAGE, and then no page is free. The
-- blocks stay valid.
pub alloc_phys_pages-Serves : (a : Allocator) → IsValid a.blocks → Serves a (alloc_phys_pages 1 a)
unfolding alloc_phys_pages
alloc_phys_pages-Serves a v = serve a v (find_page-FindsPage v)

-- `alloc_phys` of at most a page.
pub alloc_phys-Serves :
    (size : ℕ) (a : Allocator)
    → 0 < size
    → size ≤ page_size
    → IsValid a.blocks
    → Serves a (alloc_phys size a)
unfolding alloc_phys
alloc_phys-Serves size a some_bytes one_page v =
    let one : (size + 4096 - 1) % 2 ^ 64 / 4096 % 2 ^ 32 ≡ 1 = omega arith in
    rw one (alloc_phys_pages-Serves a v)

-- With a free page in the blocks a request is not refused.
pub Serves-served :
    {a : Allocator} (q : ℕ) {r : Option (ℕ × Allocator)}
    → page_state a.blocks q ≡ some 0
    → Serves a r
    → (p : ℕ) × (a' : Allocator) × (r ≡ some (p, a')) × IsTaken a p a'
Serves-served q e (served {p} {a'} t) = (p, a', refl, t)
Serves-served q e (refused none_free) = absurd (none_free q e)

-- A request for any other number of pages returns BADPAGE and changes nothing.
pub alloc_phys_pages-refuses :
    (n : ℕ) (a : Allocator) → n ≢ 1 → alloc_phys_pages n a ≡ some (bad_page, a)
unfolding alloc_phys_pages
alloc_phys_pages-refuses n a h = rw (ne→== n 1 h)

-- One of the `n` pages from number `i` of the run at `page` is that of `q`.
abbrev pub in_run : List Block → ℕ → ℕ → ℕ → ℕ → Bool
in_run bs page zero i q = false
in_run bs page (suc n) i q =
    in_run bs page n (i + 1) q || same_page bs (u64 (page + i * page_size)) q

module _ (shl3 : ℕ → ℕ) where
  same_page-mark_page_free :
      (bs : List Block) (r p q : ℕ) → same_page (mark_page_free shl3 r bs) p q ≡ same_page bs p q
  unfolding same_page mark_page_free
  same_page-mark_page_free [] r p q = refl
  same_page-mark_page_free (b ∷ bs) r p q = ground (arith, same_page-mark_page_free bs r p q)

  pub in_run-mark_page_free :
      (bs : List Block) (r page n i q : ℕ)
      → in_run (mark_page_free shl3 r bs) page n i q ≡ in_run bs page n i q
  in_run-mark_page_free bs r page zero i q = refl
  in_run-mark_page_free bs r page (suc n) i q =
      rw (in_run-mark_page_free bs r page n (i + 1) q, same_page-mark_page_free bs r)

  pub free_pages_from-page_state :
      (n i page : ℕ) (bs : List Block) (q : ℕ)
      → page_state (free_pages_from shl3 n i page bs) q
        ≡ (if in_run bs page n i q then some 0 else page_state bs q)
  unfolding free_pages_from
  free_pages_from-page_state zero i page bs q = refl
  free_pages_from-page_state (suc n) i page bs q = ground (
    arith,
    free_pages_from-page_state n (i + 1) page (mark_page_free shl3 (u64 (page + i * page_size)) bs)
        q,
    in_run-mark_page_free bs (u64 (page + i * page_size)) page n (i + 1) q,
    mark_page_free-page_state shl3 bs (u64 (page + i * page_size)) q,
  )

  -- Freeing a run makes exactly its pages free, leaves every other page's state, and keeps the
  -- blocks valid.
  pub free_phys_pages-page_state :
      (page n : ℕ) (a : Allocator)
      → IsValid a.blocks
      → ((q : ℕ)
          → page_state (free_phys_pages shl3 page n a).blocks q
            ≡ (if in_run a.blocks page n 0 q then some 0 else page_state a.blocks q))
        × IsValid (free_phys_pages shl3 page n a).blocks
  unfolding free_phys_pages
  free_phys_pages-page_state page n a v =
      (free_pages_from-page_state n 0 page a.blocks, free_pages_from-IsValid shl3 n 0 page v)

page_state-same_page :
    (bs : List Block) (p q : ℕ) → same_page bs p q ≡ true → page_state bs q ≡ page_state bs p
unfolding same_page page_state
page_state-same_page [] p q h = refl
page_state-same_page (b ∷ bs) p q h = ground (arith, page_state-same_page bs p q)

abbrev Takes : Allocator → Option (ℕ × Allocator) → Type 0
Takes a none = Unit
Takes a (some (p, a')) = p ≢ bad_page → IsTaken a p a'

Serves-Takes : {a : Allocator} {o : Option (ℕ × Allocator)} → Serves a o → Takes a o
Serves-Takes (served t) = λ ok. t
Serves-Takes (refused none_left) = λ ok. absurd (ok refl)

give_back :
    (shl3 : ℕ → ℕ) (a : Allocator) (p : ℕ) (a' : Allocator)
    → IsTaken a p a'
    → (q : ℕ) → page_state (mark_page_free shl3 p a'.blocks) q ≡ page_state a.blocks q
give_back shl3 a p a' t q = ground (
  arith,
  mark_page_free-page_state shl3 a'.blocks p q,
  t.states q,
  t.was_free,
  t.shape q,
  page_state-same_page a.blocks p q,
)

-- Giving back the page that a request took brings every page's state back, and the count.
pub alloc-free_round_trip :
    (shl3 : ℕ → ℕ) (a : Allocator) {p : ℕ} {a' : Allocator}
    → IsValid a.blocks
    → 0 < a.pages_free
    → a.pages_free < 2 ^ 64
    → p ≢ bad_page
    → alloc_phys_pages 1 a ≡ some (p, a')
    → ((q : ℕ) → page_state (free_phys_pages shl3 p 1 a').blocks q ≡ page_state a.blocks q)
      × ((free_phys_pages shl3 p 1 a').pages_free ≡ a.pages_free)
unfolding free_phys_pages free_pages_from
alloc-free_round_trip shl3 a {p} {a'} v pos fits ok e =
    let t : IsTaken a p a' = subst (Takes a) e (Serves-Takes (alloc_phys_pages-Serves a v)) ok in
    let u : u64 (p + 0 * page_size) ≡ p = omega (arith, t.is_page) in
    (λ q. rw u (give_back shl3 a p a' t q), omega (arith, t.count))
