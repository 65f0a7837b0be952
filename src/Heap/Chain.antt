-- ===== src/Heap/Chain.antt =====
-- The blocks of the heap as a list: each begins where the one before it ends.
use mathlib.Core.Path.{subst}
use fusee_os.Base.{
  ℕ, ◌+◌, ◌≤◌, ◌<◌, ◌≡◌, ◌≢◌, ◌⊎◌, inl, inr, arith, ◌∙◌, Bool, List, [], ◌∷◌, ◌++◌, ◌==◌,
  if◌then◌else◌, store,
}
use fusee_os.Heap.{Cell, header_size, next_block}

-- From offset `a` the headers lead through `cells` to `stop`.
pub data Chain (h : ℕ → Cell) (stop : ℕ) : ℕ → List Cell → Type 0 where
  done : Chain h stop stop []
  link :
      {a : ℕ} {c : Cell} {cs : List Cell}
      → h a ≡ c
      → Chain h stop (a + header_size + c.size) cs
      → Chain h stop a (c ∷ cs)

-- A block of the list stands at `x`.
abbrev pub In : ℕ → List Cell → ℕ → Type 0
In a [] x = ⊥
In a (c ∷ cs) x = (x ≡ a) ⊎ In (a + header_size + c.size) cs x

module _ {h : ℕ → Cell} {stop : ℕ} where
  pub start-le-stop : {a : ℕ} {cs : List Cell} → Chain h stop a cs → a ≤ stop
  start-le-stop done = omega arith
  start-le-stop (link e₀ rest) = omega (arith, start-le-stop rest)

  pub In-bounds :
      {a : ℕ} {cs : List Cell} (x : ℕ)
      → Chain h stop a cs
      → In a cs x
      → (a ≤ x) × (next_block h x ≤ stop)
  In-bounds x done i = absurd i
  In-bounds x (link e₀ rest) (inl e) = rw (e, e₀) (omega arith, start-le-stop rest)
  In-bounds x (link e₀ rest) (inr i) = omega (arith, In-bounds x rest i)

  -- Different blocks do not overlap, headers included.
  pub In-apart :
      {a : ℕ} {cs : List Cell} (x y : ℕ)
      → Chain h stop a cs
      → In a cs x
      → In a cs y
      → x ≢ y
      → (next_block h x ≤ y) ⊎ (next_block h y ≤ x)
  In-apart x y done i j ne = absurd i
  In-apart x y (link e₀ rest) (inl e) (inl e') ne = absurd (omega arith)
  In-apart x y (link e₀ rest) (inl e) (inr j) ne = inl (rw (e, e₀) ((In-bounds y rest j).0))
  In-apart x y (link e₀ rest) (inr i) (inl e) ne = inr (rw (e, e₀) ((In-bounds x rest i).0))
  In-apart x y (link e₀ rest) (inr i) (inr j) ne = In-apart x y rest i j ne

-- The list with the mark of the block at `x` set to `u`.
abbrev pub mark : Bool → ℕ → ℕ → List Cell → List Cell
mark u x a [] = []
mark u x a (c ∷ cs) =
    (if a == x then record c { used = u } else c) ∷ mark u x (a + header_size + c.size) cs

abbrev pub set_used : (ℕ → Cell) → ℕ → Bool → ℕ → Cell
set_used h x u = store h x (record (h x) { used = u })

size-set_used : (h : ℕ → Cell) (x : ℕ) (u : Bool) (a : ℕ) → (set_used h x u a).size ≡ (h a).size
size-set_used h x u a = ground arith

-- Changing the mark of one block changes the list there alone.
pub Chain-set_used :
    {h : ℕ → Cell} {stop a : ℕ} {cs : List Cell} (x : ℕ) (u : Bool)
    → Chain h stop a cs
    → Chain (set_used h x u) stop a (mark u x a cs)
Chain-set_used x u done = done
Chain-set_used {h} {stop} x u (link {a} {c} {cs} e rest) = link (ground arith) (
    subst (λ t. Chain (set_used h x u) stop t (mark u x (a + header_size + c.size) cs))
      (ground arith) (Chain-set_used x u rest))

Chain-frame :
    {h g : ℕ → Cell} {stop a : ℕ} {cs : List Cell}
    → ((b : ℕ) → b < stop → g b ≡ h b)
    → Chain h stop a cs
    → Chain g stop a cs
Chain-frame same done = done
Chain-frame same (link e rest) =
    link (same _ (omega (arith, start-le-stop rest)) ∙ e) (Chain-frame same rest)

Chain-append :
    {h : ℕ → Cell} {mid stop a : ℕ} {cs ds : List Cell}
    → Chain h mid a cs
    → Chain h stop mid ds
    → Chain h stop a (cs ++ ds)
Chain-append done t = t
Chain-append (link e rest) t = link e (Chain-append rest t)

-- A block behind the end makes the list longer by one.
pub Chain-store_end :
    {h : ℕ → Cell} {stop a : ℕ} {cs : List Cell} (c : Cell)
    → Chain h stop a cs
    → Chain (store h stop c) (stop + header_size + c.size) a (cs ++ c ∷ [])
Chain-store_end {h} {stop} c ch =
    Chain-append (Chain-frame (λ b lt. ground arith) ch) (link (ground arith) done)
