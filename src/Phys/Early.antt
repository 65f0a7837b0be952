-- ===== src/Phys/Early.antt =====
-- `alloc_phys_early` on a first region that is large enough.
use fusee_os.Base.{
  suc, ℕ, ◌+◌, ◌-◌, ◌*◌, ◌≤◌, ◌<◌, ◌^◌, ◌≡◌, refl, ap, ◌∙◌, arith, true, List, ◌∷◌, leb, u64,
}
use fusee_os.Phys.{Region, page_size, take_early, alloc_phys_early}

fits-leb : (a b : ℕ) → a ≤ b → leb a b ≡ true
fits-leb a b h = ground arith

take_early_first :
    (k size : ℕ) (r : Region) (rs : List Region)
    → leb size r.size ≡ true
    → take_early (suc k) size (r ∷ rs)
      ≡ (r.base, record { base = u64 (r.base + size); size = r.size - size } ∷ rs)
unfolding take_early
take_early_first k size r rs e = rw (e, take_early) refl

no_wrap :
    (r : Region) (size : ℕ) (rs : List Region)
    → size ≤ r.size
    → r.base + r.size < 2 ^ 64
    → Path
        (ℕ × List Region)
        (r.base, record { base = u64 (r.base + size); size = r.size - size } ∷ rs)
        (r.base, record { base = r.base + size; size = r.size - size } ∷ rs)
no_wrap r size rs h fits =
    ap (λ b. (r.base, record { base = b; size = r.size - size } ∷ rs)) (omega arith)

pub alloc_phys_early_first :
    (n : ℕ) (r : Region) (rs : List Region)
    → n * page_size ≤ r.size
    → r.base + r.size < 2 ^ 64
    → alloc_phys_early n (r ∷ rs)
      ≡ (r.base, record { base = r.base + n * page_size; size = r.size - n * page_size } ∷ rs)
unfolding alloc_phys_early
alloc_phys_early_first n r rs h fits =
    take_early_first 31 (n * page_size) r rs (fits-leb (n * page_size) r.size h)
    ∙ no_wrap r (n * page_size) rs h fits
