-- ===== src/Libc/Compare.antt =====
-- What `memcmp`, `strlen` and `strcmp` return.
use fusee_os.Base.{
  ℕ, zero, suc, ◌+◌, ◌≤◌, ◌<◌, ◌≡◌, ◌≢◌, refl, inl, inr, arith, none, some, ◌==◌, Memory, pos,
  sub_ℕ, dec_lt, ◌↔◌, ne→==, ==_refl, Bool-cases, if◌then◌else◌,
}
use native.Mathlib.Nat.{add-zero}
use fusee_os.Libc.{compare_from, memcmp, strlen_from, strlen, strcmp_from, strcmp}

module _ (m : Memory) (s1 s2 : ℕ) where
  compare_from_equal :
      (n i : ℕ)
      → ((k : ℕ) → i ≤ k → k < i + n → m (s1 + k) ≡ m (s2 + k))
      → compare_from n i m s1 s2 ≡ pos 0
  unfolding compare_from
  compare_from_equal zero i h = refl
  compare_from_equal (suc n) i h = ground (
    arith,
    h i (omega arith) (omega arith),
    compare_from_equal n (i + 1) (λ k p q. h k (omega arith) (omega arith)),
  )

  compare_from_differs :
      (n i d : ℕ)
      → i ≤ d
      → d < i + n
      → ((k : ℕ) → i ≤ k → k < d → m (s1 + k) ≡ m (s2 + k))
      → m (s1 + d) ≢ m (s2 + d)
      → compare_from n i m s1 s2 ≡ sub_ℕ (m (s2 + d)) (m (s1 + d))
  unfolding compare_from
  compare_from_differs zero i d lo hi same ne = absurd (omega arith)
  compare_from_differs (suc n) i d lo hi same ne = elim (dec_lt i d) [
    | yes p ↦
        rw (same i (omega arith) p, ==_refl (m (s2 + i)))
          (compare_from_differs n (i + 1) d (omega arith) (omega arith)
            (λ k q r. same k (omega arith) r) ne)
    | no p ↦ let e : i ≡ d = omega arith in rw (e, ne→== _ _ ne)
  ]

  compare_from-zero :
      (n i : ℕ)
      → compare_from n i m s1 s2 ≡ pos 0
      → (k : ℕ) → i ≤ k
      → k < i + n
      → m (s1 + k) ≡ m (s2 + k)
  unfolding compare_from
  compare_from-zero zero i h k lo hi = absurd (omega arith)
  compare_from-zero (suc n) i h k lo hi = elim (dec_lt i k) [
    | yes p ↦ compare_from-zero n (i + 1) (ground arith) k (omega arith) (omega arith)
    | no p ↦ let e : i ≡ k = omega arith in rw (← e) (ground arith)
  ]

  -- `memcmp` returns 0 exactly when the two ranges hold the same bytes.
  pub memcmp-zero_iff :
      (n : ℕ) → (memcmp m s1 s2 n ≡ pos 0) ↔ ((k : ℕ) → k < n → m (s1 + k) ≡ m (s2 + k))
  unfolding memcmp
  memcmp-zero_iff n = (
    λ h k p. compare_from-zero n 0 h k (omega arith) (omega arith),
    λ h. compare_from_equal n 0 (λ k lo hi. h k (omega arith)),
  )

  -- Where the ranges first differ at `d`, `memcmp` returns the second range's byte there less
  -- the first range's.
  pub memcmp_first_difference :
      (n d : ℕ)
      → d < n
      → ((k : ℕ) → k < d → m (s1 + k) ≡ m (s2 + k))
      → m (s1 + d) ≢ m (s2 + d)
      → memcmp m s1 s2 n ≡ sub_ℕ (m (s2 + d)) (m (s1 + d))
  unfolding memcmp
  memcmp_first_difference n d h same ne =
      compare_from_differs n 0 d (omega arith) (omega arith) (λ k lo hi. same k hi) ne

-- `n` is the number of bytes before the first zero byte at `str`.
pub record IsLength (m : Memory) (str n : ℕ) : Type 0 where
  pub ends : m (str + n) ≡ 0
  pub before : (k : ℕ) → k < n → m (str + k) ≢ 0

module _ (m : Memory) (str : ℕ) where
  strlen_from_finds :
      (f i n : ℕ) → IsLength m str n → i ≤ n → n < i + f → strlen_from f m str i ≡ some n
  unfolding strlen_from
  strlen_from_finds zero i n v lo hi = absurd (omega arith)
  strlen_from_finds (suc f) i n v lo hi = elim (dec_lt i n) [
    | yes p ↦
        rw (ne→== _ _ (v.before i p)) (strlen_from_finds f (i + 1) n v (omega arith) (omega arith))
    | no p ↦ let e : i ≡ n = omega arith in rw (e, v.ends)
  ]

  -- With more rounds than the string is long, `strlen` returns its length.
  pub strlen-IsLength : (fuel n : ℕ) → IsLength m str n → n < fuel → strlen fuel m str ≡ some n
  unfolding strlen
  strlen-IsLength fuel n v h = strlen_from_finds fuel 0 n v (omega arith) (omega arith)

module _ (m : Memory) (s1 s2 : ℕ) where
  strcmp_from_stuck :
      (f i : ℕ) → m (s1 + i) ≡ m (s2 + i) → m (s1 + i) ≢ 0 → strcmp_from f m s1 s2 i ≡ none
  unfolding strcmp_from
  strcmp_from_stuck zero i e ne = refl
  strcmp_from_stuck (suc f) i e ne =
      rw (ne→== _ _ ne, e, ==_refl (m (s2 + i))) (strcmp_from_stuck f i e ne)

  -- However many rounds `strcmp` is given, it decides by the first bytes alone: it returns their
  -- difference if they differ and 0 if both are zero, and otherwise it never returns.
  pub strcmp_first_bytes :
      (fuel : ℕ)
      → strcmp (suc fuel) m s1 s2 ≡ (
          if m s1 == m s2
          then (if m s1 == 0 then some (pos 0) else none)
          else some (sub_ℕ (m s2) (m s1)))
  unfolding strcmp strcmp_from
  strcmp_first_bytes fuel =
      rw (add-zero s1, add-zero s2)
        (elim (Bool-cases (m s1 == m s2)) [
          | inr differ ↦ rw differ
          | inl same ↦ elim (Bool-cases (m s1 == 0)) [
            | inl ended ↦ rw (same, ended)
            | inr more ↦ rw (same, more) (strcmp_from_stuck fuel 0 (ground arith) (ground arith))
          ]
        ])
