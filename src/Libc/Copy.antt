-- ===== src/Libc/Copy.antt =====
-- What `memcpy`, `memmove` and `memset` leave in the memory.
use fusee_os.Base.{
  ℕ, zero, suc, ◌+◌, ◌-◌, ◌≤◌, ◌<◌, ◌≡◌, refl, ◌⊎◌, inl, inr, arith, Bool-cases, ltb, leb, ◌||◌, u8,
  Memory, store, ◌∙◌, dec_lt,
}
use fusee_os.Libc.{copy_up, copy_down, memcpy, memmove, fill, memset}

-- `out` has at `dst ..< dst + size` what `m` has at `src`, and is `m` elsewhere.
pub record IsCopied (m : Memory) (dst src size : ℕ) (out : Memory) : Type 0 where
  pub inside : (k : ℕ) → k < size → out (dst + k) ≡ m (src + k)
  pub outside : (a : ℕ) → (a < dst) ⊎ (dst + size ≤ a) → out a ≡ m a

pub record IsFilled (m : Memory) (dst c size : ℕ) (out : Memory) : Type 0 where
  pub inside : (k : ℕ) → k < size → out (dst + k) ≡ u8 c
  pub outside : (a : ℕ) → (a < dst) ⊎ (dst + size ≤ a) → out a ≡ m a

module _ (dst src : ℕ) where
  copy_up_outside :
      (n i : ℕ) (m : Memory) (a : ℕ)
      → (a < dst + i) ⊎ (dst + i + n ≤ a)
      → copy_up n i m dst src a ≡ m a
  unfolding copy_up
  copy_up_outside zero i m a h = refl
  copy_up_outside (suc n) i m a h =
      copy_up_outside n (i + 1) (store m (dst + i) (m (src + i))) a (omega arith) ∙ ground arith

  copy_up_inside :
      (n i : ℕ) (m : Memory) (k : ℕ)
      → (dst ≤ src) ⊎ (src + (i + n) ≤ dst)
      → i ≤ k
      → k < i + n
      → copy_up n i m dst src (dst + k) ≡ m (src + k)
  unfolding copy_up
  copy_up_inside zero i m k c lo hi = absurd (omega arith)
  copy_up_inside (suc n) i m k c lo hi = elim (dec_lt i k) [
    | yes p ↦
        copy_up_inside n (i + 1) (store m (dst + i) (m (src + i))) k (omega arith) (omega arith)
          (omega arith)
        ∙ ground arith
    | no p ↦
        let e : i ≡ k = omega arith in
        copy_up_outside n (i + 1) (store m (dst + i) (m (src + i))) (dst + k) (omega arith)
        ∙ ground arith
  ]

  -- The bytes that are left are those of index `j < size - i`.
  copy_down_outside :
      (n i size : ℕ) (m : Memory) (a : ℕ)
      → i + n ≡ size
      → (a < dst) ⊎ (dst + n ≤ a)
      → copy_down n i size m dst src a ≡ m a
  unfolding copy_down
  copy_down_outside zero i size m a e h = refl
  copy_down_outside (suc n) i size m a e h =
      copy_down_outside n (i + 1) size (store m (dst + (size - i - 1)) (m (src + (size - i - 1)))) a
        (omega arith) (omega arith)
      ∙ ground arith

  copy_down_inside :
      (n i size : ℕ) (m : Memory) (k : ℕ)
      → src ≤ dst
      → i + n ≡ size
      → k < n
      → copy_down n i size m dst src (dst + k) ≡ m (src + k)
  unfolding copy_down
  copy_down_inside zero i size m k c e hi = absurd (omega arith)
  copy_down_inside (suc n) i size m k c e hi = elim (dec_lt k n) [
    | yes p ↦
        copy_down_inside n (i + 1) size (store m (dst + (size - i - 1)) (m (src + (size - i - 1))))
          k c (omega arith) p
        ∙ ground arith
    | no p ↦
        let e' : size - i - 1 ≡ k = omega arith in
        copy_down_outside n (i + 1) size (store m (dst + (size - i - 1)) (m (src + (size - i - 1))))
          (dst + k) (omega arith) (omega arith)
        ∙ ground arith
  ]

module _ (m : Memory) (dst src size : ℕ) where
  copy_up-IsCopied :
      (dst ≤ src) ⊎ (src + size ≤ dst) → IsCopied m dst src size (copy_up size 0 m dst src)
  copy_up-IsCopied c = record {
    inside = λ k h. copy_up_inside dst src size 0 m k (omega arith) (omega arith) (omega arith);
    outside = λ a h. copy_up_outside dst src size 0 m a (omega arith);
  }

  copy_down-IsCopied : src ≤ dst → IsCopied m dst src size (copy_down size 0 size m dst src)
  copy_down-IsCopied c = record {
    inside = λ k h. copy_down_inside dst src size 0 size m k c (omega arith) h;
    outside = λ a h. copy_down_outside dst src size 0 size m a (omega arith) h;
  }

  -- Where the destination does not begin inside the source, `memcpy` copies `size` bytes,
  -- changes no other byte and returns the end of the destination.
  pub memcpy-IsCopied :
      (dst ≤ src) ⊎ (src + size ≤ dst)
      → IsCopied m dst src size (memcpy m dst src size).0 × ((memcpy m dst src size).1 ≡ dst + size)
  unfolding memcpy
  memcpy-IsCopied c = (copy_up-IsCopied c, refl)

  -- `memmove` copies `size` bytes however the two ranges overlap, changes no byte outside the
  -- destination and returns the end of the destination.
  pub memmove-IsCopied :
      IsCopied m dst src size (memmove m dst src size).0 × ((memmove m dst src size).1 ≡ dst + size)
  unfolding memmove
  memmove-IsCopied = elim (Bool-cases (ltb dst src || leb (src + size) dst)) [
    | inl up ↦ rw up (copy_up-IsCopied (ground arith), refl)
    | inr down ↦ rw down (copy_down-IsCopied (ground arith), refl)
  ]

module _ (dst c : ℕ) where
  fill_outside :
      (n i : ℕ) (m : Memory) (a : ℕ) → (a < dst + i) ⊎ (dst + i + n ≤ a) → fill n i m dst c a ≡ m a
  unfolding fill
  fill_outside zero i m a h = refl
  fill_outside (suc n) i m a h =
      fill_outside n (i + 1) (store m (dst + i) (u8 c)) a (omega arith) ∙ ground arith

  fill_inside :
      (n i : ℕ) (m : Memory) (k : ℕ) → i ≤ k → k < i + n → fill n i m dst c (dst + k) ≡ u8 c
  unfolding fill
  fill_inside zero i m k lo hi = absurd (omega arith)
  fill_inside (suc n) i m k lo hi = elim (dec_lt i k) [
    | yes p ↦ fill_inside n (i + 1) (store m (dst + i) (u8 c)) k (omega arith) (omega arith)
    | no p ↦
        fill_outside n (i + 1) (store m (dst + i) (u8 c)) (dst + k) (omega arith) ∙ ground arith
  ]

-- `memset` fills `size` bytes with the low byte of `c` and changes no other byte.
pub memset-IsFilled :
    (m : Memory) (dst c size : ℕ)
    → IsFilled m dst c size (memset m dst c size).0 × ((memset m dst c size).1 ≡ dst + size)
unfolding memset
memset-IsFilled m dst c size = (
  record {
    inside = λ k h. fill_inside dst c size 0 m k (omega arith) (omega arith);
    outside = λ a h. fill_outside dst c size 0 m a (omega arith);
  },
  refl,
)
