-- ===== src/Paging/Physical/Filled.antt =====
-- The tables that the loops of `arch_init_physical_mapping` fill.
use fusee_os.Base.{
  ℕ, zero, suc, ◌+◌, ◌-◌, ◌*◌, ◌≤◌, ◌<◌, ◌^◌, ◌≡◌, ◌≢◌, refl, sym, inl, ap, ◌∙◌, arith, ◌&&◌, ◌⊎◌,
  List, ◌∷◌, leb, ltb, ◌==◌, if◌then◌else◌, u64,
}
use fusee_os.Phys.{Region, alloc_phys_early}
use fusee_os.Phys.Early.{alloc_phys_early_first}
use fusee_os.Paging.{Tables, set_entry}
use fusee_os.Paging.Physical.{large_entry, pointing_entry, fill_1gb, fill_2mb, fill_pds}

-- A loop that writes `entry k` at each index `k` from `i` on, `n` times.
unfoldable pub fill : (ℕ → ℕ) → ℕ → ℕ → ℕ → Tables → Tables
fill entry zero i table dirs = dirs
fill entry (suc n) i table dirs = fill entry n (i + 1) table (set_entry table i (entry i) dirs)

pub fill_at :
    (entry : ℕ → ℕ) (n i table : ℕ) (dirs : Tables) (t k : ℕ)
    → fill entry n i table dirs t k
      ≡ (if (table == t) && leb i k && ltb k (i + n) then entry k else dirs t k)
unfolding fill set_entry
fill_at entry zero i table dirs t k = ground arith
fill_at entry (suc n) i table dirs t k = ground (
  arith,
  fill_at entry n (i + 1) table (set_entry table i (entry i) dirs) t k,
  (λ (e : i ≡ k). ap entry e),
)

fill_1gb-eq-fill :
    (n i pdp : ℕ) (dirs : Tables)
    → fill_1gb n i pdp dirs ≡ fill (λ k. large_entry (u64 (k * 0x40000000))) n i pdp dirs
unfolding fill_1gb fill
fill_1gb-eq-fill zero i pdp dirs = refl
fill_1gb-eq-fill (suc n) i pdp dirs = fill_1gb-eq-fill n (i + 1) pdp _

fill_2mb-eq-fill :
    (n j i pd : ℕ) (dirs : Tables)
    → fill_2mb n j i pd dirs ≡ fill (λ k. large_entry (u64 ((i * 512 + k) * 0x200000))) n j pd dirs
unfolding fill_2mb fill
fill_2mb-eq-fill zero j i pd dirs = refl
fill_2mb-eq-fill (suc n) j i pd dirs = fill_2mb-eq-fill n (j + 1) i pd _

pub fill_1gb_entry :
    (pdp : ℕ) (dirs : Tables) (k : ℕ)
    → k < 512
    → fill_1gb 512 0 pdp dirs pdp k ≡ large_entry (u64 (k * 0x40000000))
fill_1gb_entry pdp dirs k h =
    ap (λ f. f pdp k) (fill_1gb-eq-fill 512 0 pdp dirs)
    ∙ ground (arith, fill_at (λ m. large_entry (u64 (m * 0x40000000))) 512 0 pdp dirs pdp k)

pub fill_1gb_other :
    (pdp : ℕ) (dirs : Tables) (t k : ℕ) → t ≢ pdp → fill_1gb 512 0 pdp dirs t k ≡ dirs t k
fill_1gb_other pdp dirs t k h =
    ap (λ f. f t k) (fill_1gb-eq-fill 512 0 pdp dirs)
    ∙ ground (arith, fill_at (λ m. large_entry (u64 (m * 0x40000000))) 512 0 pdp dirs t k)

fill_2mb_entry :
    (i pd : ℕ) (dirs : Tables) (k : ℕ)
    → k < 512
    → fill_2mb 512 0 i pd dirs pd k ≡ large_entry (u64 ((i * 512 + k) * 0x200000))
fill_2mb_entry i pd dirs k h =
    ap (λ f. f pd k) (fill_2mb-eq-fill 512 0 i pd dirs)
    ∙ ground (arith, fill_at (λ m. large_entry (u64 ((i * 512 + m) * 0x200000))) 512 0 pd dirs pd k)

fill_2mb_other :
    (i pd : ℕ) (dirs : Tables) (t k : ℕ) → t ≢ pd → fill_2mb 512 0 i pd dirs t k ≡ dirs t k
fill_2mb_other i pd dirs t k h =
    ap (λ f. f t k) (fill_2mb-eq-fill 512 0 i pd dirs)
    ∙ ground (arith, fill_at (λ m. large_entry (u64 ((i * 512 + m) * 0x200000))) 512 0 pd dirs t k)

-- `n` page directories in the pages from `base` on, named by the entries of `pdp` from `i` on.
pub record AreFilled (n i pdp base : ℕ) (dirs dirs' : Tables) : Type 0 where
  pub below : (k : ℕ) → k < i → dirs' pdp k ≡ dirs pdp k
  pub tables : (m : ℕ) → m < n → dirs' pdp (i + m) ≡ pointing_entry (base + m * 4096)
  pub pages :
      (m x : ℕ)
      → m < n
      → x < 512
      → dirs' (base + m * 4096) x ≡ large_entry (u64 (((i + m) * 512 + x) * 0x200000))
  pub others : (t x : ℕ) → t ≢ pdp → (t < base ⊎ base + n * 4096 ≤ t) → dirs' t x ≡ dirs t x

module _ (i pdp pd : ℕ) (apart : pdp ≢ pd) (dirs : Tables) where
  one_more : Tables
  one_more = set_entry pdp i (pointing_entry pd) (fill_2mb 512 0 i pd dirs)

  one_more-pdp : (k : ℕ) → one_more pdp k ≡ (if i == k then pointing_entry pd else dirs pdp k)
  unfolding one_more set_entry
  one_more-pdp k = ground (arith, fill_2mb_other i pd dirs pdp k apart)

  one_more-pd : (x : ℕ) → x < 512 → one_more pd x ≡ large_entry (u64 ((i * 512 + x) * 0x200000))
  unfolding one_more set_entry
  one_more-pd x h = ground (arith, fill_2mb_entry i pd dirs x h)

  one_more-other : (t x : ℕ) → t ≢ pdp → t ≢ pd → one_more t x ≡ dirs t x
  unfolding one_more set_entry
  one_more-other t x h k = ground (arith, fill_2mb_other i pd dirs t x k)

  AreFilled-suc :
      {n : ℕ} {dirs' : Tables}
      → AreFilled n (i + 1) pdp (pd + 4096) one_more dirs'
      → AreFilled (suc n) i pdp pd dirs dirs'
  AreFilled-suc {n} {dirs'} t = record {
    below = λ k h. t.below k (omega arith) ∙ one_more-pdp k ∙ ground arith;
    tables = table;
    pages = page;
    others = λ u x ne far. t.others u x ne (ground arith) ∙ one_more-other u x ne (ground arith);
  }
    where
      table : (m : ℕ) → m < suc n → dirs' pdp (i + m) ≡ pointing_entry (pd + m * 4096)
      table zero h =
          let e : i + 0 ≡ i = omega arith in
          let here : one_more pdp i ≡ pointing_entry pd = one_more-pdp i ∙ ground arith in
          let f : pd ≡ pd + 0 * 4096 = omega arith in
          ap (dirs' pdp) e ∙ t.below i (omega arith) ∙ here ∙ ap pointing_entry f
      table (suc m) h =
          let e : i + suc m ≡ i + 1 + m = omega arith in
          let f : pd + 4096 + m * 4096 ≡ pd + suc m * 4096 = omega arith in
          ap (dirs' pdp) e ∙ t.tables m (omega arith) ∙ ap pointing_entry f

      page :
          (m x : ℕ)
          → m < suc n
          → x < 512
          → dirs' (pd + m * 4096) x ≡ large_entry (u64 (((i + m) * 512 + x) * 0x200000))
      page zero x h lt =
          let e : pd + 0 * 4096 ≡ pd = omega arith in
          let f : i ≡ i + 0 = omega arith in
          ap (λ b. dirs' b x) e
          ∙ t.others pd x (λ same. apart (sym same)) (inl (omega arith))
          ∙ one_more-pd x lt
          ∙ ap (λ k. large_entry (u64 ((k * 512 + x) * 0x200000))) f
      page (suc m) x h lt =
          let e : pd + suc m * 4096 ≡ pd + 4096 + m * 4096 = omega arith in
          let f : i + 1 + m ≡ i + suc m = omega arith in
          ap (λ b. dirs' b x) e
          ∙ t.pages m x (omega arith) lt
          ∙ ap (λ k. large_entry (u64 ((k * 512 + x) * 0x200000))) f

fill_pds-suc :
    (n i pdp : ℕ) (dirs : Tables) (rs rs' : List Region) (pd : ℕ) (apart : pdp ≢ pd)
    → alloc_phys_early 1 rs ≡ (pd, rs')
    → fill_pds (suc n) i pdp (dirs, rs) ≡ fill_pds n (i + 1) pdp (one_more i pdp pd apart dirs, rs')
unfolding fill_pds one_more
fill_pds-suc n i pdp dirs rs rs' pd apart e =
    ap
      (λ x.
        fill_pds n (i + 1) pdp
          (set_entry pdp i (pointing_entry x.0) (fill_2mb 512 0 i x.0 dirs), x.1))
      e

-- With `n` pages in the first region, behind the table `pdp`, the loop fills `n` page directories.
pub fill_pds-AreFilled :
    (n i pdp : ℕ) (dirs : Tables) (r : Region) (rs : List Region)
    → n * 4096 ≤ r.size
    → r.base + r.size < 2 ^ 64
    → pdp < r.base
    → AreFilled n i pdp r.base dirs ((fill_pds n i pdp (dirs, r ∷ rs)).0)
fill_pds-AreFilled zero i pdp dirs r rs h fits lt =
    unfold fill_pds in
    record {
      below = λ k less. refl;
      tables = λ m less. absurd (omega arith);
      pages = λ m x less hx. absurd (omega arith);
      others = λ t x ne far. refl;
    }
fill_pds-AreFilled (suc n) i pdp dirs r rs h fits lt =
    let apart : pdp ≢ r.base = omega arith in
    let e =
      fill_pds-suc n i pdp dirs (r ∷ rs) _ r.base apart
        (alloc_phys_early_first 1 r rs (omega arith) fits) in
    rw e (
      AreFilled-suc i pdp r.base apart dirs (
        fill_pds-AreFilled n (i + 1) pdp _ (record { base = r.base + 4096; size = r.size - 4096 })
          rs (omega arith) (omega arith) (omega arith)))
