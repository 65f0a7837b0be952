-- ===== src/Phys/Scan.antt =====
-- The search of `alloc_phys_pages` through a block's bitmap, word by word and bit by bit.
use mathlib.Core.Path.{subst}
use fusee_os.Base.{
  ℕ, zero, suc, ◌+◌, ◌-◌, ◌*◌, ◌/◌, ◌%◌, ◌^◌, ◌≤◌, ◌<◌, ◌≡◌, sym, ap, ◌∙◌, arith, Option, none,
  some, ◌==◌, Bool-cases, inl, inr, Memory, bit_and, dec_lt, ==→eq, ◌↔◌,
}
use fusee_os.Base.Bits.{bit, bit-lt-two, bit-ones, bit_and_pow-zero_iff}
use native.Mathlib.Nat.{one-mul}
use fusee_os.Phys.{load_le, find_zero_bit, find_in_word, find_in_words}

-- Bit `k` of a bitmap.
abbrev pub bitmap_bit : Memory → ℕ → ℕ
bitmap_bit m k = bit (m (k / 8)) (k % 8)

abbrev pub IsBytes : Memory → Type 0
IsBytes m = (a : ℕ) → m a < 256

bit-low_byte : (b r k : ℕ) → b < 256 → k < 8 → bit (b + 256 * r) k ≡ bit b k
unfolding bit
bit-low_byte b r zero hb hk = omega arith
bit-low_byte b r (suc zero) hb hk = omega arith
bit-low_byte b r (suc (suc zero)) hb hk = omega arith
bit-low_byte b r (suc (suc (suc zero))) hb hk = omega arith
bit-low_byte b r (suc (suc (suc (suc zero)))) hb hk = omega arith
bit-low_byte b r (suc (suc (suc (suc (suc zero))))) hb hk = omega arith
bit-low_byte b r (suc (suc (suc (suc (suc (suc zero)))))) hb hk = omega arith
bit-low_byte b r (suc (suc (suc (suc (suc (suc (suc zero))))))) hb hk = omega arith
bit-low_byte b r (suc (suc (suc (suc (suc (suc (suc (suc k)))))))) hb hk = absurd (omega arith)

bit-high_bytes : (b r k : ℕ) → b < 256 → bit (b + 256 * r) (8 + k) ≡ bit r k
bit-high_bytes b r k hb = rw eight (go k)
  where
    eight : 8 + k ≡ suc (suc (suc (suc (suc (suc (suc (suc k)))))))
    eight = omega arith

    go : (i : ℕ) → bit (b + 256 * r) (suc (suc (suc (suc (suc (suc (suc (suc i)))))))) ≡ bit r i
    go i = unfold bit in ap (λ t. bit t i) (omega arith)

-- A little-endian number has the bits of its bytes.
bit-load_le :
    (n : ℕ) (m : Memory) (a k : ℕ)
    → IsBytes m
    → k < 8 * n
    → bit (load_le n m a) k ≡ bit (m (a + k / 8)) (k % 8)
unfolding load_le
bit-load_le zero m a k hm hk = absurd (omega arith)
bit-load_le (suc n) m a k hm hk = elim (dec_lt k 8) [
  | yes p ↦ bit-low_byte (m a) (load_le n m (a + 1)) k (hm a) p ∙ ground arith
  | no p ↦
      let e : k ≡ 8 + (k - 8) = omega arith in
      ap (λ t. bit (m a + 256 * load_le n m (a + 1)) t) e
      ∙ bit-high_bytes (m a) (load_le n m (a + 1)) (k - 8) (hm a)
      ∙ bit-load_le n m (a + 1) (k - 8) hm (omega arith)
      ∙ ground arith
]

bit-word :
    (m : Memory) (j k : ℕ)
    → IsBytes m
    → k < 64
    → bit (load_le 8 m (8 * j)) k ≡ bitmap_bit m (j * 64 + k)
bit-word m j k hm hk = bit-load_le 8 m (8 * j) k hm (omega arith) ∙ ground arith

-- `p` is the first number from `lo` on whose bit is 0.
pub record IsFirstZero (f : ℕ → ℕ) (lo p : ℕ) : Type 0 where
  pub from : lo ≤ p
  pub zero_bit : f p ≡ 0
  pub ones : (q : ℕ) → lo ≤ q → q < p → f q ≡ 1

-- What a search from `lo` up to `hi` finds.
pub data Finds (f : ℕ → ℕ) (lo hi : ℕ) : Option ℕ → Type 0 where
  hit : {p : ℕ} → IsFirstZero f lo p → p < hi → Finds f lo hi (some p)
  miss : ((q : ℕ) → lo ≤ q → q < hi → f q ≡ 1) → Finds f lo hi none

Finds-step :
    {f : ℕ → ℕ} {lo mid hi : ℕ} {o : Option ℕ}
    → lo ≤ mid
    → mid ≤ hi
    → ((q : ℕ) → lo ≤ q → q < mid → f q ≡ 1)
    → Finds f mid hi o
    → Finds f lo hi o
Finds-step {mid} l h ones (hit {p} first lt) =
    hit
      (record {
        from = omega (arith, first.from);
        zero_bit = first.zero_bit;
        ones = λ q a b. elim (dec_lt q mid) [
          | yes r ↦ ones q a r
          | no r ↦ first.ones q (omega arith) b
        ];
      })
      lt
Finds-step {mid} l h ones (miss all) =
    miss (λ q a b. elim (dec_lt q mid) [ yes r ↦ ones q a r | no r ↦ all q (omega arith) b ])

masked : (tmp k : ℕ) → (bit_and tmp (1 * 2 ^ k) ≡ 0) ↔ (bit tmp k ≡ 0)
masked tmp k = rw (one-mul (2 ^ k)) (bit_and_pow-zero_iff tmp k)

Finds-zero_bit : (n k tmp : ℕ) → Finds (bit tmp) k (k + n) (find_zero_bit n k tmp)
unfolding find_zero_bit
Finds-zero_bit zero k tmp = miss (λ q a b. absurd (omega arith))
Finds-zero_bit (suc n) k tmp = elim (Bool-cases (bit_and tmp (1 * 2 ^ k) == 0)) [
  | inl z ↦ rw z (
      hit
        (record {
          from = omega arith;
          zero_bit = (masked tmp k).0 (==→eq _ 0 z);
          ones = λ q a b. absurd (omega arith);
        })
        (omega arith))
  | inr o ↦
      let set : bit tmp k ≡ 1 = ground (arith, masked tmp k, bit-lt-two tmp k) in
      let e : k + 1 + n ≡ k + suc n = omega arith in
      rw (o, ← e)
        (Finds-step {mid = k + 1} (omega arith) (omega arith)
          (λ q a b. let same : q ≡ k = omega arith in rw same set) (Finds-zero_bit n (k + 1) tmp))
]

Finds-word : (m : Memory) (j : ℕ) → Finds (bit (load_le 8 m (8 * j))) 0 64 (find_in_word m j)
unfolding find_in_word
Finds-word m j = elim (Bool-cases (load_le 8 m (8 * j) == 0xffff_ffff_ffff_ffff)) [
  | inl full ↦ rw full (miss (λ q a b. rw (==→eq _ _ full) (bit-ones 64 q b)))
  | inr free ↦ rw free (Finds-zero_bit 64 0 (load_le 8 m (8 * j)))
]

module _ (m : Memory) (bytes : IsBytes m) where
  word_step :
      {hi : ℕ} {rest : Option ℕ} (j : ℕ) (o : Option ℕ)
      → (j + 1) * 64 ≤ hi
      → Finds (bit (load_le 8 m (8 * j))) 0 64 o
      → Finds (bitmap_bit m) ((j + 1) * 64) hi rest
      → Finds (bitmap_bit m) (j * 64) hi (elim o [ some k ↦ some (j * 64 + k) | none ↦ rest ])
  word_step j o fits (hit {p} first lt) later =
      hit
        (record {
          from = omega arith;
          zero_bit = sym (bit-word m j p bytes lt) ∙ first.zero_bit;
          ones = λ q a b.
              let e : q ≡ j * 64 + (q - j * 64) = omega arith in
              ap (bitmap_bit m) e
              ∙ sym (bit-word m j (q - j * 64) bytes (omega arith))
              ∙ first.ones (q - j * 64) (omega arith) (omega arith);
        })
        (omega arith)
  word_step j o fits (miss all) later =
      Finds-step {mid = (j + 1) * 64} (omega arith) fits
        (λ q a b.
          let e : q ≡ j * 64 + (q - j * 64) = omega arith in
          ap (bitmap_bit m) e
          ∙ sym (bit-word m j (q - j * 64) bytes (omega arith))
          ∙ all (q - j * 64) (omega arith) (omega arith))
        later

  -- The search returns the lowest free page of the words, or shows that they are all used.
  pub Finds-words : (n j : ℕ) → Finds (bitmap_bit m) (j * 64) ((j + n) * 64) (find_in_words n j m)
  unfolding find_in_words
  Finds-words zero j = miss (λ q a b. absurd (omega arith))
  Finds-words (suc n) j =
      let e : (j + 1 + n) * 64 ≡ (j + suc n) * 64 = omega arith in
      rw (← e)
        (word_step j (find_in_word m j) (omega arith) (Finds-word m j) (Finds-words n (j + 1)))

  pub Finds-words_all : (n : ℕ) → Finds (bitmap_bit m) 0 (n * 64) (find_in_words n 0 m)
  Finds-words_all n =
      let e : (0 + n) * 64 ≡ n * 64 = omega arith in
      subst (λ t. Finds (bitmap_bit m) 0 t (find_in_words n 0 m)) e (Finds-words n 0)
