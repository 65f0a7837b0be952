-- ===== src/Proc/Arrays.antt =====
-- What an append to a growing array does.
use fusee_os.Base.{
  ℕ, zero, suc, ◌+◌, ◌*◌, ◌/◌, ◌^◌, ◌≤◌, ◌<◌, ◌≡◌, refl, ◌∙◌, ap, ap₂, arith, List, [], ◌∷◌, ◌++◌,
  Bool-cases, ltb, ltb→lt, ltb→le, inl, inr, u64,
}
use native.Mathlib.Nat.{mul-le-mul_right}
use fusee_os.Proc.{Array, array_grow, array_emplace, push}

-- At least two elements fit, so that half the capacity is no zero, and the buffer has the bytes of
-- all of them.
pub record IsArray {ℓ} {A : Type ℓ} (a : Array A) : Type 0 where
  pub fits : a.size ≤ a.capacity
  pub room : 2 ≤ a.capacity
  pub short : a.capacity ≤ 3 * 2 ^ 30
  pub element : a.element_size < 2 ^ 31
  pub buffer : a.bytes ≡ a.capacity * a.element_size

-- The `n` elements from index `i` on.
abbrev pub items {ℓ} : {A : Type ℓ} → (ℕ → A) → ℕ → ℕ → List A
items e i zero = []
items e i (suc n) = e i ∷ items e (i + 1) n

module _ {ℓ} {A : Type ℓ} where
  pub items-ext :
      (e e' : ℕ → A) (i n : ℕ) → ((k : ℕ) → k < i + n → e' k ≡ e k) → items e' i n ≡ items e i n
  items-ext e e' i zero same = refl
  items-ext e e' i (suc n) same =
      ap₂ ◌∷◌ (same i (omega arith)) (items-ext e e' (i + 1) n (λ k h. same k (omega arith)))

  pub items-suc : (e : ℕ → A) (i n : ℕ) → items e i (suc n) ≡ items e i n ++ e (i + n) ∷ []
  items-suc e i zero = ap (λ k. e k ∷ []) (omega arith)
  items-suc e i (suc n) =
      ap (◌∷◌ (e i)) (items-suc e (i + 1) n ∙ ap (λ k. items e (i + 1) n ++ e k ∷ []) (omega arith))

  -- What an append of `x` leaves of `a`.
  pub record Pushes (x : A) (a a' : Array A) : Type ℓ where
    pub size : a'.size ≡ a.size + 1
    pub array : IsArray a'
    pub within : a'.size * a'.element_size ≤ a'.bytes
    pub same_element : a'.element_size ≡ a.element_size
    pub last : a'.elements a.size ≡ x
    pub kept : (k : ℕ) → k < a.size → a'.elements k ≡ a.elements k

  grown_bytes :
      (a : Array A)
      → IsArray a
      → a.capacity < 2 ^ 31
      → u64 (u64 (a.capacity + a.capacity / 2) * a.element_size)
        ≡ u64 (a.capacity + a.capacity / 2) * a.element_size
  grown_bytes a v h =
      let c : u64 (a.capacity + a.capacity / 2) ≤ 3 * 2 ^ 30 = omega arith in
      omega (arith, v.element, mul-le-mul_right a.element_size c)

  -- An append to an array of fewer than 2^31 elements of less than 2^31 bytes each, with a capacity
  -- of two or more, writes within the bytes of the buffer, which it grows when it is full, and
  -- keeps every element.
  pub push-Pushes :
      (fresh : ℕ → A) (x : A) (a : Array A)
      → IsArray a
      → a.size < 2 ^ 31
      → Pushes x a (push fresh x a)
  unfolding push array_emplace array_grow
  push-Pushes fresh x a v small = elim (Bool-cases (ltb a.size a.capacity)) [
    | inl e ↦
        let room = ltb→lt a.size a.capacity e in
        rw e (record {
          size = omega arith;
          array = record {
            fits = omega arith;
            room = v.room;
            short = v.short;
            element = v.element;
            buffer = v.buffer;
          };
          within =
              let n : u64 (a.size + 1) ≤ a.capacity = omega arith in
              omega (arith, v.buffer, mul-le-mul_right a.element_size n);
          same_element = refl;
          last = ground arith;
          kept = λ k h. ground arith;
        })
    | inr e ↦
        let full = ltb→le a.size a.capacity e in
        rw e (record {
          size = omega arith;
          array = record {
            fits = omega arith;
            room = omega arith;
            short = omega arith;
            element = v.element;
            buffer = grown_bytes a v (omega arith);
          };
          within =
              let n : u64 (a.size + 1) ≤ u64 (a.capacity + a.capacity / 2) = omega arith in
              omega (arith, grown_bytes a v (omega arith), mul-le-mul_right a.element_size n);
          same_element = refl;
          last = ground arith;
          kept = λ k h. ground arith;
        })
  ]

  -- With room for one element the capacity does not grow: the second append writes past the buffer.
  pub push_past_end :
      (fresh : ℕ → A) (x : A) (a : Array A)
      → a.capacity ≡ 1
      → a.size ≡ 1
      → (push fresh x a).capacity < (push fresh x a).size
  unfolding push array_emplace array_grow
  push_past_end fresh x a c s = ground arith
