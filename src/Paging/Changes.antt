-- ===== src/Paging/Changes.antt =====
-- A loop over the entries of a table that changes each of them by itself.
use fusee_os.Base.{
  ℕ, zero, suc, ◌+◌, ◌≤◌, ◌<◌, ◌≡◌, ◌≢◌, refl, sym, ◌∙◌, ap, ap₂, arith, Option, some, List, [],
  ◌∷◌, ℕ_discrete,
}
use fusee_os.Phys.{Allocator}
use fusee_os.Paging.{Kernel, Tables, each_entry, set_entry}

-- What `set_entry` leaves.
module _ (table i entry : ℕ) (dirs : Tables) where
  pub set_entry_there : set_entry table i entry dirs table i ≡ entry
  unfolding set_entry
  set_entry_there = ground arith

  pub set_entry_beside : (j : ℕ) → j ≢ i → set_entry table i entry dirs table j ≡ dirs table j
  unfolding set_entry
  set_entry_beside j h = ground arith

  pub set_entry_elsewhere : (t j : ℕ) → t ≢ table → set_entry table i entry dirs t j ≡ dirs t j
  unfolding set_entry
  set_entry_elsewhere t j h = ground arith

-- The entries of a table from `start` up to `end` are changed by `f`, and no other entry is.
pub record Changes (f : ℕ → ℕ) (table start end : ℕ) (before after : Tables) : Type 0 where
  pub inside : (i : ℕ) → start ≤ i → i < end → after table i ≡ f (before table i)
  pub below : (i : ℕ) → i < start → after table i ≡ before table i
  pub above : (i : ℕ) → end ≤ i → after table i ≡ before table i
  pub elsewhere : (t i : ℕ) → t ≢ table → after t i ≡ before t i

-- The `n` entries of a table from `start` on.
abbrev pub entries : Tables → ℕ → ℕ → ℕ → List ℕ
entries dirs table start zero = []
entries dirs table start (suc n) = dirs table start ∷ entries dirs table (start + 1) n

entries-agree :
    (d d' : Tables) (table start n : ℕ)
    → ((i : ℕ) → start ≤ i → d table i ≡ d' table i)
    → entries d table start n ≡ entries d' table start n
entries-agree d d' table start zero h = refl
entries-agree d d' table start (suc n) h =
    ap₂ (λ x xs. x ∷ xs) (h start (omega arith))
      (entries-agree d d' table (start + 1) n (λ i le. h i (omega arith)))

-- The allocator after `g` has been applied for one entry after another.
abbrev pub for_entries : (ℕ → Allocator → Allocator) → List ℕ → Allocator → Allocator
for_entries g [] a = a
for_entries g (e ∷ es) a = for_entries g es (g e a)

-- The loop, where each round puts `f` of an entry in its place and applies `g` to the allocator.
module _ (change : ℕ → ℕ → Kernel → Option Kernel) (f : ℕ → ℕ → ℕ) (g : ℕ → Allocator → Allocator)
    (round : (table i : ℕ) (k : Kernel)
      → change table i k
        ≡ some (record k {
          pmem = g (k.dirs table i) k.pmem;
          dirs = set_entry table i (f k.nx_mask (k.dirs table i)) k.dirs;
        })) where
  pub each_entry-Changes :
      (table n start : ℕ) (k : Kernel)
      → (dirs' : Tables) × (each_entry change n table start k
          ≡ some (record k {
            pmem = for_entries g (entries k.dirs table start n) k.pmem;
            dirs = dirs';
          }))
        × Changes (f k.nx_mask) table start (start + n) k.dirs dirs'
  unfolding each_entry
  each_entry-Changes table zero start k = (
    k.dirs,
    refl,
    record {
      inside = λ i h h'. absurd (omega arith);
      below = λ i h. refl;
      above = λ i h. refl;
      elsewhere = λ t i h. refl;
    },
  )
  each_entry-Changes table (suc n) start k =
      let e = k.dirs table start in
      let dirs1 = set_entry table start (f k.nx_mask e) k.dirs in
      let k' : Kernel = record k { pmem = g e k.pmem; dirs = dirs1 } in
      let (dirs', result, ih) = each_entry-Changes table n (start + 1) k' in
      let beside = set_entry_beside table start (f k.nx_mask e) k.dirs in
      let same : entries dirs1 table (start + 1) n ≡ entries k.dirs table (start + 1) n =
        entries-agree dirs1 k.dirs table (start + 1) n (λ i le. beside i (omega arith)) in
      (
        dirs',
        rw (round table start k, each_entry) (rw (sym same) result),
        record {
          inside = λ i h h'. elim (ℕ_discrete i start) [
            | yes at ↦
                rw at (
                  ih.below start (omega arith) ∙ set_entry_there table start (f k.nx_mask e) k.dirs)
            | no apart ↦
                ih.inside i (omega (arith, apart)) (omega arith) ∙ ap (f k.nx_mask) (beside i apart)
          ];
          below = λ i h. ih.below i (omega arith) ∙ beside i (omega arith);
          above = λ i h. ih.above i (omega arith) ∙ beside i (omega arith);
          elsewhere = λ t i h.
              ih.elsewhere t i h ∙ set_entry_elsewhere table start (f k.nx_mask e) k.dirs t i h;
        },
      )
