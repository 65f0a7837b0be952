-- ===== src/Print/Digits.antt =====
-- `fmt_udec` and `fmt_hex` print the number that they are given, without leading zeros.
use mathlib.Core.Path.{subst}
use fusee_os.Base.{
  ℕ, zero, suc, ◌+◌, ◌-◌, ◌*◌, ◌/◌, ◌%◌, ◌^◌, ◌≤◌, ◌<◌, ◌≡◌, ◌≢◌, refl, sym, ap, ap₂, ◌∙◌, ==→eq,
  ==→ne, arith, true, inl, inr, ◌||◌, ◌&&◌, not, List, [], ◌∷◌, ◌++◌, length, length-append, ltb,
  leb, leb→le, lt→leb, ◌==◌, if◌then◌else◌, Bool-cases, bit_and, ◌>>>◌, some,
}
use fusee_os.Base.Bits.{bit_and_mask}
use fusee_os.Base.Tables.{passes_to, passes_to_lem}
use native.Mathlib.Nat.{div-div-eq-div-mul, pow-suc, div-one, div-eq_of_lt}
use fusee_os.Print.{
  hex_char, push_digit, or_zero, udec_from, fmt_udec, hex_from, fmt_hex, putu_digits, putu,
}

-- The value of a digit, and of the digits of a text behind `acc`.
abbrev pub digit_value : ℕ → ℕ
digit_value c = if ltb c 58 then c - 48 else c - 87

abbrev pub value_from : ℕ → ℕ → List ℕ → ℕ
value_from base acc [] = acc
value_from base acc (c ∷ cs) = value_from base (acc * base + digit_value c) cs

abbrev pub value : ℕ → List ℕ → ℕ
value base cs = value_from base 0 cs

-- Digits that do not begin with '0', unless they are "0".
abbrev pub IsCanonical : List ℕ → Type 0
IsCanonical [] = ⊥
IsCanonical (c ∷ []) = Unit
IsCanonical (c ∷ d ∷ cs) = c ≢ b'0'

-- Empty, or without a leading zero.
abbrev NoZeroFirst : List ℕ → Type 0
NoZeroFirst [] = Unit
NoZeroFirst (c ∷ cs) = c ≢ b'0'

digit_table :
    passes_to (λ v. (digit_value (hex_char v) == v) && ((v == 0) || not (hex_char v == b'0'))) 16
    ≡ true
unfolding passes_to hex_char
digit_table = refl

hex_char_digit : (v : ℕ) → v < 16 → (digit_value (hex_char v) ≡ v) × (v ≢ 0 → hex_char v ≢ b'0')
hex_char_digit v h = ground (arith, passes_to_lem _ 16 v h digit_table)

value_from-append :
    (base acc : ℕ) (cs : List ℕ) (c : ℕ)
    → value_from base acc (cs ++ c ∷ []) ≡ value_from base acc cs * base + digit_value c
value_from-append base acc [] c = refl
value_from-append base acc (d ∷ ds) c = value_from-append base (acc * base + digit_value d) ds c

NoZeroFirst-append :
    (cs : List ℕ) (c : ℕ) → NoZeroFirst cs → (cs ≡ [] → c ≢ b'0') → NoZeroFirst (cs ++ c ∷ [])
NoZeroFirst-append [] c h k = k refl
NoZeroFirst-append (d ∷ ds) c h k = h

-- What a text of digits is to be, for a number `n` in a base.
record Shows (base n : ℕ) (out : List ℕ) : Type 0 where
  worth : value base out ≡ n
  first : NoZeroFirst out

length-zero : (out : List ℕ) → length out ≡ 0 → out ≡ []
length-zero [] h = refl
length-zero (c ∷ cs) h = absurd (omega arith)

push_digit-Shows :
    (base n v : ℕ) (out : List ℕ)
    → v < 16
    → Shows base n out
    → Shows base (n * base + v) (push_digit v out)
unfolding push_digit
push_digit-Shows base n v [] small s = elim (Bool-cases (v == 0)) [
  | inl z ↦
      rw z (record {
        worth = omega (arith, ap (λ (t : ℕ). t * base) s.worth, ==→eq v 0 z);
        first = tt;
      })
  | inr d ↦ rw d (record {
    worth = omega (arith, ap (λ (t : ℕ). t * base) s.worth, (hex_char_digit v small).0);
    first = (hex_char_digit v small).1 (==→ne v 0 d);
  })
]
push_digit-Shows base n v (c ∷ cs) small s =
    let test : (not (v == 0) || not (suc (length cs) == 0)) ≡ true = ground arith in
    rw test (record {
      worth =
          value_from-append base 0 (c ∷ cs) (hex_char v)
          ∙ ap₂ (λ (a b : ℕ). a * base + b) s.worth (hex_char_digit v small).0;
      first = s.first;
    })

length-push_digit : (v : ℕ) (out : List ℕ) → length (push_digit v out) ≤ length out + 1
unfolding push_digit
length-push_digit v out = ground (arith, length-append out (hex_char v ∷ []))

tenth : (n : ℕ) → 10 ^ suc n / 10 ≡ 10 ^ n
tenth n = omega (arith, pow-suc 10 n)

-- Each round divides off one digit less.
udec_from-Shows :
    (n num : ℕ) (out : List ℕ)
    → Shows 10 (num / 10 ^ n) out
    → Shows 10 num (udec_from n num (10 ^ n / 10) out)
unfolding udec_from
udec_from-Shows zero num out s = rw (div-one num) at s
udec_from-Shows (suc n) num out s = rw (tenth n) (
    udec_from-Shows n num (push_digit (num / 10 ^ n % 10) out) (
      subst (λ t. Shows 10 t (push_digit (num / 10 ^ n % 10) out))
        (omega (arith, div-div-eq-div-mul num (10 ^ n) 10, ap (λ t. num / t) (pow-suc 10 n)))
        (push_digit-Shows 10 (num / 10 ^ suc n) (num / 10 ^ n % 10) out (omega arith) s)))

udec_from-length :
    (n num divisor : ℕ) (out : List ℕ) → length (udec_from n num divisor out) ≤ length out + n
unfolding udec_from
udec_from-length zero num divisor out = omega arith
udec_from-length (suc n) num divisor out = omega (
  arith,
  udec_from-length n num (divisor / 10) (push_digit (num / divisor % 10) out),
  length-push_digit (num / divisor % 10) out,
)

sixteenfold : (n : ℕ) → 2 ^ (4 * suc n) ≡ 2 ^ (4 * n) * 16
sixteenfold n = rw e (
    omega (
      arith,
      pow-suc 2 (4 * n),
      pow-suc 2 (suc (4 * n)),
      pow-suc 2 (suc (suc (4 * n))),
      pow-suc 2 (suc (suc (suc (4 * n)))),
    ))
  where
    e : 4 * suc n ≡ suc (suc (suc (suc (4 * n))))
    e = omega arith

hex_digit : (num n : ℕ) → bit_and (num >>> (4 * n)) 0xf ≡ num / 2 ^ (4 * n) % 16
hex_digit num n = bit_and_mask 4 (num >>> (4 * n))

hex_from-Shows :
    (n num : ℕ) (out : List ℕ)
    → Shows 16 (num / 2 ^ (4 * n)) out
    → Shows 16 num (hex_from n num (4 * n - 4) out)
unfolding hex_from
hex_from-Shows zero num out s = rw (div-one num) at s
hex_from-Shows (suc n) num out s =
    let e : 4 * suc n - 4 ≡ 4 * n = omega arith in
    rw (e, hex_digit num n)
      (hex_from-Shows n num (push_digit (num / 2 ^ (4 * n) % 16) out) (
        subst (λ t. Shows 16 t (push_digit (num / 2 ^ (4 * n) % 16) out))
          (omega
            (arith, div-div-eq-div-mul num (2 ^ (4 * n)) 16, ap (λ t. num / t) (sixteenfold n)))
          (push_digit-Shows 16 (num / 2 ^ (4 * suc n)) (num / 2 ^ (4 * n) % 16) out (omega arith)
            s)))

hex_from-length :
    (n num shift : ℕ) (out : List ℕ) → length (hex_from n num shift out) ≤ length out + n
unfolding hex_from
hex_from-length zero num shift out = omega arith
hex_from-length (suc n) num shift out = omega (
  arith,
  hex_from-length n num (shift - 4) (push_digit (bit_and (num >>> shift) 0xf) out),
  length-push_digit (bit_and (num >>> shift) 0xf) out,
)

or_zero-IsCanonical :
    (base num bound : ℕ) (out : List ℕ)
    → Shows base num out
    → length out ≤ bound
    → 0 < bound
    → (value base (or_zero out) ≡ num) × IsCanonical (or_zero out) × (length (or_zero out) ≤ bound)
unfolding or_zero
or_zero-IsCanonical base num bound [] s h pos = (omega (arith, s.worth), tt, pos)
or_zero-IsCanonical base num bound (c ∷ []) s h pos = (s.worth, tt, h)
or_zero-IsCanonical base num bound (c ∷ d ∷ cs) s h pos = (s.worth, s.first, h)

-- Every 64-bit number is printed in decimal: the digits have its value, there is no leading zero
-- but in "0", and they are at most 20, so that they fit the buffer of 21 bytes with their end.
pub fmt_udec-IsCanonical :
    (num : ℕ)
    → num < 2 ^ 64
    → (value 10 (fmt_udec num) ≡ num) × IsCanonical (fmt_udec num) × (length (fmt_udec num) ≤ 20)
unfolding fmt_udec
fmt_udec-IsCanonical num h =
    or_zero-IsCanonical 10 num 20 (udec_from 20 num 10_000_000_000_000_000_000 [])
      (udec_from-Shows 20 num [] (record { worth = sym (div-eq_of_lt (omega arith)); first = tt }))
      (udec_from-length 20 num 10_000_000_000_000_000_000 []) (omega arith)

-- Every 64-bit number is printed in hexadecimal: the digits have its value, there is no leading
-- zero but in "0", and they are at most 16, so that they fit the buffer of 17 bytes with their end.
pub fmt_hex-IsCanonical :
    (num : ℕ)
    → num < 2 ^ 64
    → (value 16 (fmt_hex num) ≡ num) × IsCanonical (fmt_hex num) × (length (fmt_hex num) ≤ 16)
unfolding fmt_hex
fmt_hex-IsCanonical num h =
    or_zero-IsCanonical 16 num 16 (hex_from 16 num 60 [])
      (hex_from-Shows 16 num [] (record { worth = sym (div-eq_of_lt (omega arith)); first = tt }))
      (hex_from-length 16 num 60 []) (omega arith)

one_digit :
    (v : ℕ)
    → v < 10
    → (out : List ℕ) × ((if v == 0 then some [] else some (hex_char (v % 10) ∷ [])) ≡ some out)
      × Shows 10 v out
one_digit v h = elim (Bool-cases (v == 0)) [
  | inl z ↦ ([], rw z, record { worth = sym (==→eq v 0 z); first = tt })
  | inr d ↦
      let small : v % 10 < 16 = omega arith in
      let ne : v % 10 ≢ 0 = omega (arith, ==→ne v 0 d) in
      (
        hex_char (v % 10) ∷ [],
        rw d,
        record {
          worth = omega (arith, (hex_char_digit (v % 10) small).0);
          first = (hex_char_digit (v % 10) small).1 ne;
        },
      )
]

append_digit :
    (v : ℕ) (out : List ℕ)
    → 10 ≤ v
    → Shows 10 (v / 10) out
    → Shows 10 v (out ++ hex_char (v % 10) ∷ [])
append_digit v out h s =
    let small : v % 10 < 16 = omega arith in
    record {
      worth =
          value_from-append 10 0 out (hex_char (v % 10))
          ∙ omega (arith, s.worth, (hex_char_digit (v % 10) small).0);
      first =
          NoZeroFirst-append out (hex_char (v % 10)) s.first
            (λ e. absurd (omega (arith, ap (λ t. value 10 t) e, s.worth)));
    }

putu_digits-Shows :
    (f v : ℕ)
    → v < 10 ^ suc f
    → (out : List ℕ) × (putu_digits (suc f) v ≡ some out) × Shows 10 v out
unfolding putu_digits
putu_digits-Shows zero v h = rw (lt→leb v 10 (omega arith)) (one_digit v (omega arith))
putu_digits-Shows (suc f) v h = elim (Bool-cases (leb 10 v)) [
  | inl more ↦
      let (out, run, s) = putu_digits-Shows f (v / 10) (omega (arith, pow-suc 10 (suc f))) in
      (out ++ hex_char (v % 10) ∷ [], rw (more, run), append_digit v out (leb→le 10 v more) s)
  | inr less ↦ rw less (one_digit v (ground arith))
]

-- `putu` of a number below 10 ^ 20 ends within 20 calls and prints it in decimal, without a
-- leading zero but in "0".
pub putu-IsCanonical :
    (v : ℕ)
    → v < 10 ^ 20
    → (out : List ℕ) × (putu 20 v ≡ some out) × (value 10 out ≡ v) × IsCanonical out
unfolding putu
putu-IsCanonical v h = elim (Bool-cases (v == 0)) [
  | inl z ↦ (b'0' ∷ [], rw z, sym (==→eq v 0 z), tt)
  | inr d ↦
      let (out, run, s) = putu_digits-Shows 19 v h in
      (out, rw d run, s.worth, shows_canonical out s (==→ne v 0 d))
]
  where
    shows_canonical : (out : List ℕ) → Shows 10 v out → v ≢ 0 → IsCanonical out
    shows_canonical [] s ne = absurd (ne (sym s.worth))
    shows_canonical (c ∷ []) s ne = tt
    shows_canonical (c ∷ d ∷ cs) s ne = s.first
