-- ===== src/Heap/Best.antt =====
-- The search of `kmalloc` through the blocks finds the best fit.
use fusee_os.Base.{
  ℕ, zero, suc, ◌≤◌, ◌<◌, ◌≡◌, refl, ◌⊎◌, inl, inr, arith, true, false, Option, none, some, List,
  ◌∷◌, ltb, if◌then◌else◌, Bool-cases, length, lt→ltb, le→ltb,
}
use mathlib.Core.Path.{subst}
use native.Mathlib.Nat.{le_refl, le_trans}
use fusee_os.Heap.{Cell, next_block, better, suits, best_from}
use fusee_os.Heap.Chain.{Chain, done, link, In, start-le-stop}

-- A free block at `x` with room for `size`.
abbrev pub Suits : (ℕ → Cell) → ℕ → ℕ → Type 0
Suits h size x = ((h x).used ≡ false) × (size ≤ (h x).size)

-- The outcome of a search that begins with `best`: nothing suits, or `b` suits and is no larger
-- than any block that does.
pub data BestOf (h : ℕ → Cell) (size a : ℕ) (cs : List Cell) (best : Option ℕ)
    : Option ℕ → Type 0 where
  nothing : best ≡ none → ((x : ℕ) → In a cs x → Suits h size x → ⊥) → BestOf h size a cs best none
  smallest :
      {b : ℕ}
      → Suits h size b
      → (In a cs b) ⊎ (best ≡ some b)
      → ((x : ℕ) → In a cs x → Suits h size x → (h b).size ≤ (h x).size)
      → ((x : ℕ) → best ≡ some x → (h b).size ≤ (h x).size)
      → BestOf h size a cs best (some b)

module _ (h : ℕ → Cell) (size : ℕ) where
  abbrev advance : ℕ → Option ℕ → Option ℕ
  advance a best = if suits h size a then better h a best else best

  -- What the search has found so far suits.
  abbrev Sound : Option ℕ → Type 0
  Sound none = Unit
  Sound (some b) = Suits h size b

  Sound-advance : (a : ℕ) (best : Option ℕ) → Sound best → Sound (advance a best)
  Sound-advance a none s = elim (Bool-cases (suits h size a)) [
    | inl fit ↦ rw fit (ground arith)
    | inr unfit ↦ rw unfit s
  ]
  Sound-advance a (some b) s = elim (Bool-cases (suits h size a)) [
    | inl fit ↦ rw fit (elim (Bool-cases (ltb (h a).size (h b).size)) [
      | inl less ↦ rw less (ground arith)
      | inr more ↦ rw more s
    ])
    | inr unfit ↦ rw unfit s
  ]

  suits-true : (a : ℕ) → Suits h size a → suits h size a ≡ true
  suits-true a s = ground arith

  advance_covers :
      (a : ℕ) (best : Option ℕ)
      → Suits h size a
      → (y : ℕ) × (advance a best ≡ some y) × ((h y).size ≤ (h a).size)
  advance_covers a none s = (a, rw (suits-true a s), omega arith)
  advance_covers a (some b) s = elim (Bool-cases (ltb (h a).size (h b).size)) [
    | inl less ↦ (a, rw (suits-true a s, less), omega arith)
    | inr more ↦ (b, rw (suits-true a s, more), ground arith)
  ]

  advance_improves : (a b : ℕ) → (y : ℕ) × (advance a (some b) ≡ some y) × ((h y).size ≤ (h b).size)
  advance_improves a b = elim (Bool-cases (suits h size a)) [
    | inr unfit ↦ (b, rw unfit, omega arith)
    | inl fit ↦ elim (Bool-cases (ltb (h a).size (h b).size)) [
      | inl less ↦ (a, rw (fit, less), ground arith)
      | inr more ↦ (b, rw (fit, more), omega arith)
    ]
  ]

  advance_from :
      (a : ℕ) (best : Option ℕ) (b : ℕ) → advance a best ≡ some b → (b ≡ a) ⊎ (best ≡ some b)
  advance_from a none b e = ground arith
  advance_from a (some b0) b e = ground arith

  -- One round: a search of the rest from the new best is a search of all from the old.
  advance-BestOf :
      (a : ℕ) {cs : List Cell} (best o : Option ℕ)
      → BestOf h size (next_block h a) cs (advance a best) o
      → BestOf h size a (h a ∷ cs) best o
  advance-BestOf a {cs} none none (nothing n all) = nothing refl none_suits
    where
      none_suits : (x : ℕ) → In a (h a ∷ cs) x → Suits h size x → ⊥
      none_suits x (inl e) fits =
          let (y, ad, le) = advance_covers a none (rw (← e) fits) in cc (n, ad)
      none_suits x (inr i) fits = all x i fits
  advance-BestOf a (some b0) none (nothing n all) =
      let (y, ad, le) = advance_improves a b0 in absurd (cc (n, ad))
  advance-BestOf a {cs} best (some b) (smallest fit at least before) =
      smallest fit (came at) least_all (before_all best before)
    where
      came :
          (In (next_block h a) cs b) ⊎ (advance a best ≡ some b)
          → (In a (h a ∷ cs) b) ⊎ (best ≡ some b)
      came (inl i) = inl (inr i)
      came (inr ad) = elim (advance_from a best b ad) [ inl e ↦ inl (inl e) | inr old ↦ inr old ]

      least_all : (x : ℕ) → In a (h a ∷ cs) x → Suits h size x → (h b).size ≤ (h x).size
      least_all x (inl e) fits =
          let (y, ad, le) = advance_covers a best (rw (← e) fits) in
          rw e (le_trans (before y ad) le)
      least_all x (inr i) fits = least x i fits

      before_all :
          (o : Option ℕ)
          → ((x : ℕ) → advance a o ≡ some x → (h b).size ≤ (h x).size)
          → (x : ℕ) → o ≡ some x
          → (h b).size ≤ (h x).size
      before_all none bound x e = absurd (cc e)
      before_all (some b0) bound x e =
          let (y, ad, le) = advance_improves a b0 in
          let same : b0 ≡ x = cc e in rw (← same) (le_trans (bound y ad) le)

  -- With more rounds than there are blocks the search returns the best fit.
  pub best_from-BestOf :
      (f : ℕ) {stop a : ℕ} {cs : List Cell} (best : Option ℕ)
      → Chain h stop a cs
      → length cs < f
      → Sound best
      → (o : Option ℕ) × (best_from f h size stop a best ≡ some o) × BestOf h size a cs best o
  unfolding best_from
  best_from-BestOf zero best ch lt s = absurd (omega arith)
  best_from-BestOf (suc f) {stop} none done lt s =
      (none, rw (le→ltb stop stop (omega arith)), nothing refl (λ x i fits. i))
  best_from-BestOf (suc f) {stop} (some b) done lt s = (
    some b,
    rw (le→ltb stop stop (omega arith)),
    smallest s (inr refl) (λ x i fits. absurd i)
        (λ x e. let same : b ≡ x = cc e in rw same (le_refl _)),
  )
  best_from-BestOf (suc f) {stop} {a} best (link {c} {cs} e rest) lt s =
      let in_range : ltb a stop ≡ true = lt→ltb a stop (omega (arith, start-le-stop rest)) in
      let tail : Chain h stop (next_block h a) cs = rw e rest in
      let (o, run, found) =
        best_from-BestOf f (advance a best) tail (omega arith) (Sound-advance a best s) in
      let all = advance-BestOf a best o found in
      (o, rw in_range run, subst (λ d. BestOf h size a (d ∷ cs) best o) e all)
