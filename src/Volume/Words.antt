-- ===== src/Volume/Words.antt =====
-- Numbers stored in a memory, and read back.
use fusee_os.Base.{
  ℕ, zero, suc, ◌+◌, ◌-◌, ◌*◌, ◌/◌, ◌%◌, ◌^◌, ◌≤◌, ◌<◌, ◌≡◌, ◌≢◌, refl, sym, ◌∙◌, ap, ap₂, ◌⊎◌,
  arith, Memory, store, u64, ℕ_discrete,
}
use native.Mathlib.Nat.{pow-suc}
use fusee_os.Phys.{load_le}
use fusee_os.Volume.{store_le, inode_page, following}

-- Memories that agree on the bytes hold the same number.
pub load_le-agree :
    (n : ℕ) (m m' : Memory) (a : ℕ)
    → ((k : ℕ) → a ≤ k → k < a + n → m k ≡ m' k)
    → load_le n m a ≡ load_le n m' a
unfolding load_le
load_le-agree zero m m' a h = refl
load_le-agree (suc n) m m' a h =
    ap₂ (λ x y. x + 256 * y) (h a (omega arith) (omega arith))
      (load_le-agree n m m' (a + 1) (λ k le lt. h k (omega arith) (omega arith)))

pub store_le_outside :
    (n : ℕ) (m : Memory) (a v k : ℕ) → (k < a) ⊎ (a + n ≤ k) → store_le n m a v k ≡ m k
unfolding store_le
store_le_outside zero m a v k h = refl
store_le_outside (suc n) m a v k h =
    store_le_outside n (store m a (v % 256)) (a + 1) (v / 256) k (omega arith) ∙ ground arith

pub load_le-store_le :
    (n : ℕ) (m : Memory) (a v : ℕ) → v < 256 ^ n → load_le n (store_le n m a v) a ≡ v
unfolding store_le load_le
load_le-store_le zero m a v h = omega arith
load_le-store_le (suc n) m a v h =
    let m' = store m a (v % 256) in
    let small : v / 256 < 256 ^ n = omega (arith, pow-suc 256 n) in
    let first : store_le n m' (a + 1) (v / 256) a ≡ v % 256 =
      store_le_outside n m' (a + 1) (v / 256) a (omega arith) ∙ ground arith in
    omega (arith, first, load_le-store_le n m' (a + 1) (v / 256) small)

pub load_le-store_le_apart :
    (n k : ℕ) (m : Memory) (a b v : ℕ)
    → (a + n ≤ b) ⊎ (b + k ≤ a)
    → load_le n (store_le k m b v) a ≡ load_le n m a
load_le-store_le_apart n k m a b v h =
    load_le-agree n (store_le k m b v) m a
      (λ i lo hi. store_le_outside k m b v i (omega (arith, h)))

-- The word at offset `o` of the page of an inode, and the byte there.
abbrev pub at : Memory → ℕ → ℕ → ℕ
at m p o = m (inode_page p + o)

abbrev pub word : Memory → ℕ → ℕ → ℕ
word m p o = load_le 8 m (inode_page p + o)

pub word-agree :
    (m m' : Memory) (p o : ℕ)
    → ((x : ℕ) → o ≤ x → x < o + 8 → at m p x ≡ at m' p x)
    → word m p o ≡ word m' p o
word-agree m m' p o h = load_le-agree 8 m m' (inode_page p + o) (λ k lo hi.
    let e : k ≡ inode_page p + (k - inode_page p) = omega arith in
    ap m e ∙ h (k - inode_page p) (omega arith) (omega arith) ∙ ap m' (sym e))

load_le-zeros :
    (n : ℕ) (m : Memory) (a : ℕ) → ((k : ℕ) → a ≤ k → k < a + n → m k ≡ 0) → load_le n m a ≡ 0
unfolding load_le
load_le-zeros zero m a h = refl
load_le-zeros (suc n) m a h = omega (
  arith,
  h a (omega arith) (omega arith),
  load_le-zeros n m (a + 1) (λ k lo hi. h k (omega arith) (omega arith)),
)

pub word-zeros :
    (m : Memory) (p o : ℕ) → ((x : ℕ) → o ≤ x → x < o + 8 → at m p x ≡ 0) → word m p o ≡ 0
word-zeros m p o h = load_le-zeros 8 m (inode_page p + o) (λ k lo hi.
    let e : k ≡ inode_page p + (k - inode_page p) = omega arith in
    ap m e ∙ h (k - inode_page p) (omega arith) (omega arith))

-- The next inode is a larger one, and no bitmap.
pub following_bounds :
    (inode : ℕ)
    → inode + 2 < 2 ^ 64
    → (inode < following inode) × (following inode ≤ inode + 2) × (following inode % 32768 ≢ 0)
following_bounds inode h =
    let same : u64 (inode + 1) ≡ inode + 1 = omega arith in
    rw same (elim (ℕ_discrete ((inode + 1) % 32768) 0) [
      | yes e ↦ rw e (omega (arith, e))
      | no ne ↦ ground (arith, ne)
    ])
