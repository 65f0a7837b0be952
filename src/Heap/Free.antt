-- ===== src/Heap/Free.antt =====
-- `kfree` and `shrink` on a well-formed heap.
use mathlib.Core.Path.{subst}
use fusee_os.Base.{
  ℕ, zero, suc, ◌+◌, ◌-◌, ◌%◌, ◌^◌, ◌≤◌, ◌<◌, ◌≡◌, ◌≢◌, refl, sym, ap, ◌∙◌, inl, inr, arith, Bool,
  true, false, Option, some, List, [], ◌∷◌, length, ◌==◌, ltb, if◌then◌else◌, Bool-cases, lt→ltb,
  le→ltb, ==_refl,
}
use fusee_os.Base.{sub64}
use fusee_os.Heap.{
  MapCall, unmap_anon, Cell, Heap, header_size, next_block, used_end, shrink, kfree,
}
use fusee_os.Heap.Chain.{Chain, done, link, In, mark, set_used, Chain-set_used, start-le-stop}
use fusee_os.Heap.Malloc.{mapped_end, InPages, IsHeap, mark-InPages}

abbrev keep : Cell → List Cell → List Cell
keep c [] = if c.used then c ∷ [] else []
keep c (d ∷ ds) = c ∷ d ∷ ds

mapped_end_unmap :
    (calls : List MapCall) (e r : ℕ)
    → mapped_end calls ≡ some e
    → r ≤ e
    → e < 2 ^ 64
    → mapped_end (unmap_anon r (sub64 e r) ∷ calls) ≡ some r
mapped_end_unmap calls e r h le small = ground arith

-- The list without the free blocks at its end.
abbrev pub trim : List Cell → List Cell
trim [] = []
trim (c ∷ cs) = keep c (trim cs)

keep-InPages :
    (c : Cell) (ds : List Cell)
    → (header_size + c.size) % 4096 ≡ 0
    → InPages ds
    → InPages (keep c ds)
keep-InPages c [] h k = elim (Bool-cases c.used) [ inl u ↦ rw u (h, tt) | inr f ↦ rw f tt ]
keep-InPages c (d ∷ ds) h k = (h, k)

trim-InPages : (cs : List Cell) → InPages cs → InPages (trim cs)
trim-InPages [] h = tt
trim-InPages (c ∷ cs) h = keep-InPages c (trim cs) h.0 (trim-InPages cs h.1)

module _ (h : ℕ → Cell) where
  -- `r` is where the blocks of `ds` from `a` on end, or `acc` if there are none.
  abbrev Ends : ℕ → ℕ → List Cell → ℕ → Type 0
  Ends acc a [] r = r ≡ acc
  Ends acc a (d ∷ ds) r = Chain h r a (d ∷ ds)

  Ends-one :
      (u : Bool) (acc a r : ℕ) (c : Cell)
      → h a ≡ c
      → r ≡ (if u then next_block h a else acc)
      → Ends acc a (if u then c ∷ [] else []) r
  Ends-one true acc a r c e t =
      link e (subst (λ t. Chain h r t []) (t ∙ ap (λ d. a + header_size + d.size) e) done)
  Ends-one false acc a r c e t = t

  Ends-keep :
      (acc a r : ℕ) (c : Cell) (ds : List Cell)
      → h a ≡ c
      → Ends (if (h a).used then next_block h a else acc) (next_block h a) ds r
      → Ends acc a (keep c ds) r
  Ends-keep acc a r c [] e t = Ends-one c.used acc a r c e (ground arith)
  Ends-keep acc a r c (d ∷ ds) e t = link e (rw e at t)

  Ends-Chain : (r : ℕ) (ds : List Cell) → Ends 0 0 ds r → Chain h r 0 ds
  Ends-Chain r [] e = rw e done
  Ends-Chain r (d ∷ ds) ch = ch

  used_end-Ends :
      (f : ℕ) {stop a : ℕ} {cs : List Cell} (acc : ℕ)
      → Chain h stop a cs
      → length cs < f
      → acc ≤ stop
      → (r : ℕ) × (used_end f h stop a acc ≡ some r) × Ends acc a (trim cs) r × (r ≤ stop)
  unfolding used_end
  used_end-Ends zero acc ch lt le = absurd (omega arith)
  used_end-Ends (suc f) {stop} acc done lt le = (acc, rw (le→ltb stop stop (omega arith)), refl, le)
  used_end-Ends (suc f) {stop} {a} acc (link {c} {cs} e rest) lt le =
      let in_range : ltb a stop ≡ true = lt→ltb a stop (omega (arith, start-le-stop rest)) in
      let tail : Chain h stop (next_block h a) cs = rw e rest in
      let (r, run, ends, le') =
        used_end-Ends f (if (h a).used then next_block h a else acc) tail (omega arith)
          (ground (arith, start-le-stop tail)) in
      (r, rw in_range run, Ends-keep acc a r c (trim cs) e ends, le')

In-keep_head : (x a : ℕ) (c : Cell) (ds : List Cell) → c.used ≡ true → x ≡ a → In a (keep c ds) x
In-keep_head x a c [] u e = go c.used u
  where
    go : (b : Bool) → b ≡ true → In a (if b then c ∷ [] else []) x
    go true t = inl e
    go false t = absurd (cc t)
In-keep_head x a c (d ∷ ds) u e = inl e

In-keep_tail :
    (x a : ℕ) (c : Cell) (ds : List Cell) → In (a + header_size + c.size) ds x → In a (keep c ds) x
In-keep_tail x a c [] i = absurd i
In-keep_tail x a c (d ∷ ds) i = inr i

-- A used block is not cut off.
In-trim :
    {h : ℕ → Cell} {stop a : ℕ} {cs : List Cell} (x : ℕ)
    → Chain h stop a cs
    → In a cs x
    → (h x).used ≡ true
    → In a (trim cs) x
In-trim x done i used = absurd i
In-trim {h} {stop} {a} x (link {c} {cs} e rest) (inl same) used =
    In-keep_head x a c (trim cs) (ground arith) same
In-trim {a} x (link {c} {cs} e rest) (inr i) used =
    In-keep_tail x a c (trim cs) (In-trim x rest i used)

In-mark : (u : Bool) (b a x : ℕ) (cs : List Cell) → In a cs x → In a (mark u b a cs) x
In-mark u b a x [] i = absurd i
In-mark u b a x (c ∷ cs) (inl e) = inl e
In-mark u b a x (c ∷ cs) (inr i) =
    let e : a + header_size + (if a == b then record c { used = u } else c).size
        ≡ a + header_size + c.size =
      ground arith in
    inr (
      subst (λ t. In t (mark u b (a + header_size + c.size) cs) x) (sym e)
        (In-mark u b (a + header_size + c.size) x cs i))

length-mark : (u : Bool) (b a : ℕ) (cs : List Cell) → length (mark u b a cs) ≡ length cs
length-mark u b a [] = refl
length-mark u b a (c ∷ cs) = ap suc (length-mark u b (a + header_size + c.size) cs)

-- The blocks after the one at `b` is freed: where it was the last, the free blocks at the end go.
abbrev pub freed_cells : Heap → List Cell → ℕ → List Cell
freed_cells p cells b =
    if next_block p.header b == p.heap_size
    then trim (mark false b 0 cells)
    else mark false b 0 cells

-- The block at `b` is free, the heap is well-formed and no longer than it was, and every other
-- used block is in it, with its header as it was.
pub data Frees (p : Heap) (cells : List Cell) (b : ℕ) : Option Heap → Type 0 where
  frees :
      {p' : Heap}
      → IsHeap p' (freed_cells p cells b)
      → (p'.header b).used ≡ false
      → p'.heap_size ≤ p.heap_size
      → ((x : ℕ)
          → In 0 cells x
          → x ≢ b
          → (p.header x).used ≡ true
          → In 0 (freed_cells p cells b) x × (p'.header x ≡ p.header x))
      → Frees p cells b (some p')

module _ (p : Heap) (cells : List Cell) (b : ℕ) (v : IsHeap p cells) where
  freed : Heap
  freed = record p { header = set_used p.header b false }

  freed-Chain : Chain (set_used p.header b false) p.heap_size 0 (mark false b 0 cells)
  freed-Chain = Chain-set_used b false v.chain

  kept : (x : ℕ) → x ≢ b → set_used p.header b false x ≡ p.header x
  kept x ne = ground arith

  free_here : (set_used p.header b false b).used ≡ false
  free_here = ground arith

  freed-Frees : (next_block p.header b == p.heap_size) ≡ false → Frees p cells b (some freed)
  unfolding freed
  freed-Frees more =
      frees
        (rw more (record {
          chain = freed-Chain;
          in_pages = mark-InPages false b 0 cells v.in_pages;
          mapped = v.mapped;
        }))
        free_here (omega arith) (λ x i ne used. rw more (In-mark false b 0 x cells i, kept x ne))

  shrink-Frees :
      (fuel : ℕ)
      → length cells < fuel
      → p.heap_size < 2 ^ 64
      → (next_block p.header b == p.heap_size) ≡ true
      → Frees p cells b (shrink fuel freed)
  unfolding freed shrink
  shrink-Frees fuel enough small last =
      let (r, run, ends, le) =
        used_end-Ends (set_used p.header b false) fuel 0 freed-Chain (rw length-mark enough)
          (omega arith) in
      rw (run, shrink)
        (frees
          (rw last (record {
            chain = Ends-Chain (set_used p.header b false) r (trim (mark false b 0 cells)) ends;
            in_pages =
                trim-InPages (mark false b 0 cells) (mark-InPages false b 0 cells v.in_pages);
            mapped = mapped_end_unmap p.calls p.heap_size r v.mapped le small;
          }))
          free_here le
          (λ x i ne used. (
            rw last (In-trim x freed-Chain (In-mark false b 0 x cells i) (ground arith)),
            kept x ne,
          )))

  -- `kfree` of the payload of one of the heap's blocks, with more rounds than the heap has blocks,
  -- makes that block free and changes no other header. Where the block was the last, the free
  -- blocks at the end of the heap are unmapped and cut off. The heap stays well-formed and no used
  -- block is lost.
  pub kfree-Frees :
      (fuel : ℕ)
      → In 0 cells b
      → length cells < fuel
      → p.heap_size < 2 ^ 64
      → Frees p cells b (kfree fuel (some (b + header_size)) p)
  unfolding kfree freed
  kfree-Frees fuel at enough small =
      let here : b + header_size - header_size ≡ b = omega arith in
      rw (here, ==_refl b)
        (elim (Bool-cases (next_block p.header b == p.heap_size)) [
          | inl last ↦ rw last (shrink-Frees fuel enough small last)
          | inr more ↦ rw more (freed-Frees more)
        ])
