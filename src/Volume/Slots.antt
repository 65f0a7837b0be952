-- ===== src/Volume/Slots.antt =====
-- The pages of a file on a volume: which inodes the file's page and its indirect page store.
use fusee_os.Base.{
  ℕ, ◌+◌, ◌-◌, ◌*◌, ◌/◌, ◌%◌, ◌≤◌, ◌<◌, ◌≡◌, ◌≢◌, refl, sym, ◌∙◌, ◌⊎◌, inl, inr, arith, Memory, ltb,
  ◌==◌, if◌then◌else◌, dec_lt, ℕ_discrete,
}
use mathlib.Core.Path.{subst}
use fusee_os.Volume.Words.{at, word}

abbrev pub idata : Memory → ℕ → ℕ
idata m file = word m file 184

-- The inode of the page with the data of index `j`, 0 for none.
pub slot : Memory → ℕ → ℕ → ℕ
slot m file j =
    if ltb j 16
    then word m file (56 + 8 * j)
    else (if idata m file == 0 then 0 else word m (idata m file) (8 * (j - 16)))

-- Byte `k` of a file.
abbrev pub byte : Memory → ℕ → ℕ → ℕ
byte m file k = at m (slot m file (k / 4096)) (k % 4096)

-- The page and the offset where the slot of index `j` is stored.
pub data Stored (m : Memory) (file j : ℕ) : ℕ → ℕ → Type 0 where
  direct : (p o : ℕ) → j < 16 → p ≡ file → o ≡ 56 + 8 * j → Stored m file j p o
  indirect :
      (p o : ℕ)
      → 16 ≤ j
      → p ≡ idata m file
      → idata m file ≢ 0
      → o ≡ 8 * (j - 16)
      → Stored m file j p o

pub slot-Stored : (m : Memory) (file j p o : ℕ) → Stored m file j p o → slot m file j ≡ word m p o
unfolding slot
slot-Stored m file j p o (direct _ _ few at_file at_data) =
    rw (at_file, at_data) (ground (arith, few))
slot-Stored m file j p o (indirect _ _ many at_idata some at_index) =
    rw (at_idata, at_index) (ground (arith, many, some))

pub slot-direct : (m : Memory) (file j : ℕ) → j < 16 → slot m file j ≡ word m file (56 + 8 * j)
slot-direct m file j h =
    slot-Stored m file j file (56 + 8 * j) (direct file (56 + 8 * j) h refl refl)

pub slot-none : (m : Memory) (file j : ℕ) → 16 ≤ j → idata m file ≡ 0 → slot m file j ≡ 0
unfolding slot
slot-none m file j h none = ground (arith, h, none)

-- A page that may hold what a file stores: an inode that was given out and is no bitmap.
pub record IsPage (next p : ℕ) : Type 0 where
  pub given : p ≤ next
  pub plain : p % 32768 ≢ 0

-- The pages of a volume that were not given out are zero.
abbrev pub Fresh : Memory → ℕ → Type 0
Fresh m next = (p o : ℕ) → next < p → p % 32768 ≢ 0 → o < 4096 → at m p o ≡ 0

-- The file has its own pages, each in one place, and one for all of its bytes.
pub record IsFile (m : Memory) (next file : ℕ) : Type 0 where
  pub fresh : Fresh m next
  pub page : IsPage next file
  pub idata_page : idata m file ≢ 0 → IsPage next (idata m file)
  pub idata_own : idata m file ≢ file
  pub slot_page : (j : ℕ) → j < 528 → slot m file j ≢ 0 → IsPage next (slot m file j)
  pub slot_own : (j : ℕ) → j < 528 → slot m file j ≢ file
  pub slot_data : (j : ℕ) → j < 528 → slot m file j ≢ 0 → slot m file j ≢ idata m file
  pub slot_apart :
      (i j : ℕ) → i < 528 → j < 528 → i ≢ j → slot m file i ≢ 0 → slot m file i ≢ slot m file j

-- Either no page stores the slot yet, or it is stored.
pub locate :
    (m : Memory) (file j : ℕ)
    → ((16 ≤ j) × (idata m file ≡ 0)) ⊎ ((p : ℕ) × (o : ℕ) × Stored m file j p o)
locate m file j = elim (dec_lt j 16) [
  | yes few ↦ inr (file, 56 + 8 * j, direct file (56 + 8 * j) few refl refl)
  | no many ↦ (elim (ℕ_discrete (idata m file) 0) [
    | yes none ↦ inl (omega (arith, many), none)
    | no some ↦ inr (
      idata m file,
      8 * (j - 16),
      indirect (idata m file) (8 * (j - 16)) (omega (arith, many)) refl some refl,
    )
  ])
]

module _ (m : Memory) (file : ℕ) (own : idata m file ≢ file) where
  -- Two slots are stored in different words.
  pub Stored-apart :
      (i j p o q y : ℕ)
      → Stored m file i p o
      → Stored m file j q y
      → i ≢ j
      → (q ≢ p) ⊎ ((y + 8 ≤ o) ⊎ (o + 8 ≤ y))
  Stored-apart i j p o q y (direct _ _ a b c) (direct _ _ a' b' c') ne = inr (omega arith)
  Stored-apart i j p o q y (direct _ _ a b c) (indirect _ _ a' b' s' c') ne =
      inl (λ e. own (sym b' ∙ e ∙ b))
  Stored-apart i j p o q y (indirect _ _ a b s c) (direct _ _ a' b' c') ne =
      inl (λ e. own (sym b ∙ sym e ∙ b'))
  Stored-apart i j p o q y (indirect _ _ a b s c) (indirect _ _ a' b' s' c') ne = inr (omega arith)

  -- They lie in a page, and apart from the fields of the file.
  pub Stored-within :
      (j p o : ℕ)
      → j < 528
      → Stored m file j p o
      → (o + 8 ≤ 4096) × ((p ≢ file) ⊎ ((56 ≤ o) × (o + 8 ≤ 184)))
  Stored-within j p o h (direct _ _ a b c) = (omega arith, inr (omega arith))
  Stored-within j p o h (indirect _ _ a b s c) = (omega arith, inl (λ e. own (sym b ∙ e)))

pub Stored-same :
    (m m' : Memory) (file j p o : ℕ)
    → idata m' file ≡ idata m file
    → Stored m file j p o
    → Stored m' file j p o
Stored-same m m' file j p o e (direct _ _ a b c) = direct p o a b c
Stored-same m m' file j p o e (indirect _ _ a b s c) =
    indirect p o a (b ∙ sym e) (λ z. s (sym e ∙ z)) c

pub Stored-IsPage :
    (m : Memory) (next file j p o : ℕ) → IsFile m next file → Stored m file j p o → IsPage next p
Stored-IsPage m next file j p o f (direct _ _ a b c) = subst (λ x. IsPage next x) (sym b) f.page
Stored-IsPage m next file j p o f (indirect _ _ a b s c) =
    subst (λ x. IsPage next x) (sym b) (f.idata_page s)
