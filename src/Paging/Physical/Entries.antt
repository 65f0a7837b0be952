-- ===== src/Paging/Physical/Entries.antt =====
-- The entries of the mapping of all physical memory, and how the processor reads the tables.
use fusee_os.Base.{
  ℕ, ◌+◌, ◌*◌, ◌/◌, ◌%◌, ◌^◌, ◌<◌, ◌≡◌, ap, ◌∙◌, arith, bit_or, Option, none, some, ◌==◌,
  if◌then◌else◌, u64,
}
use fusee_os.Base.Bits.{bit_or_halves, bit_or_fields}
use fusee_os.Paging.{Tables, physical_to_virtual}
use fusee_os.Paging.Physical.{large_entry, pointing_entry}

-- The page or table that an entry names: the bits 12 to 51.
abbrev pub frame : ℕ → ℕ
frame e = e / 2 ^ 12 % 2 ^ 40 * 2 ^ 12

abbrev pub is_large : ℕ → ℕ
is_large e = e / 2 ^ 7 % 2

-- What the entries of the four levels make of a virtual address: the walk ends early at an entry of
-- a large page; `none` where an entry is not present.
pub resolve : ℕ → ℕ → ℕ → ℕ → ℕ → Option ℕ
resolve e4 e3 e2 e1 v =
    if e4 % 2 == 0
    then none
    else (if e3 % 2 == 0
        then none
        else (if is_large e3 == 1
            then some (frame e3 / 2 ^ 30 * 2 ^ 30 + v % 2 ^ 30)
            else (if e2 % 2 == 0
                then none
                else (if is_large e2 == 1
                    then some (frame e2 / 2 ^ 21 * 2 ^ 21 + v % 2 ^ 21)
                    else (if e1 % 2 == 0 then none else some (frame e1 + v % 2 ^ 12))))))

-- The table that the register names: its low twelve bits are no part of the address.
abbrev pub root_of : ℕ → ℕ
root_of cr3 = cr3 / 2 ^ 12 * 2 ^ 12

-- What the processor makes of a virtual address.
unfoldable pub translate : Tables → ℕ → ℕ → Option ℕ
translate dirs cr3 v =
    let e4 = dirs (root_of cr3) (v / 2 ^ 39 % 512) in
    let e3 = dirs (frame e4) (v / 2 ^ 30 % 512) in
    let e2 = dirs (frame e3) (v / 2 ^ 21 % 512) in
    let e1 = dirs (frame e2) (v / 2 ^ 12 % 512) in resolve e4 e3 e2 e1 v

pub pointing_entry-sum : (q : ℕ) → pointing_entry (q * 4096) ≡ q * 4096 + 3
unfolding pointing_entry
pointing_entry-sum q =
    let a : bit_or (q * 4096) 1 ≡ q * 4096 + 1 = bit_or_fields 12 q 1 (omega arith) in
    let c : (q * 4096 + 1) / 2 ≡ q * 2048 = omega arith in
    let d : bit_or ((q * 4096 + 1) / 2) 1 ≡ q * 2048 + 1 =
      ap (λ t. bit_or t 1) c ∙ bit_or_fields 11 q 1 (omega arith) in
    ap (λ t. bit_or t 2) a ∙ omega (arith, bit_or_halves (q * 4096 + 1) 2, d)

pub large_entry-sum : (q : ℕ) → large_entry (q * 4096) ≡ q * 4096 + 131
unfolding large_entry pointing_entry
large_entry-sum q =
    let a : (q * 4096 + 3) / 2 ≡ q * 2048 + 1 = omega arith in
    let b : (q * 2048 + 1) / 2 ≡ q * 1024 = omega arith in
    let c : bit_or ((q * 2048 + 1) / 2) 32 ≡ q * 1024 + 32 =
      ap (λ t. bit_or t 32) b ∙ bit_or_fields 10 q 32 (omega arith) in
    let d : bit_or ((q * 4096 + 3) / 2) 64 ≡ q * 2048 + 65 =
      ap (λ t. bit_or t 64) a ∙ omega (arith, bit_or_halves (q * 2048 + 1) 64, c) in
    ap (λ t. bit_or t 128) (pointing_entry-sum q)
    ∙ omega (arith, bit_or_halves (q * 4096 + 3) 128, d)

pub physical_to_virtual-sum : (p : ℕ) → p < 2 ^ 39 → physical_to_virtual p ≡ 0xffff800000000000 + p
unfolding physical_to_virtual
physical_to_virtual-sum p h = bit_or_fields 47 0x1ffff p (omega arith)

pub entry_of_table : (b : ℕ) → b % 4096 ≡ 0 → pointing_entry b ≡ b + 3
entry_of_table b h =
    let e : b ≡ b / 4096 * 4096 = omega arith in
    ap pointing_entry e ∙ pointing_entry-sum (b / 4096) ∙ omega arith

pub entry_1gb : (k : ℕ) → k < 512 → large_entry (u64 (k * 0x40000000)) ≡ k * 2 ^ 30 + 131
entry_1gb k h =
    let e : u64 (k * 0x40000000) ≡ k * 2 ^ 18 * 4096 = omega arith in
    ap large_entry e ∙ large_entry-sum (k * 2 ^ 18) ∙ omega arith

pub entry_2mb : (k : ℕ) → k < 2 ^ 18 → large_entry (u64 (k * 0x200000)) ≡ k * 2 ^ 21 + 131
entry_2mb k h =
    let e : u64 (k * 0x200000) ≡ k * 2 ^ 9 * 4096 = omega arith in
    ap large_entry e ∙ large_entry-sum (k * 2 ^ 9) ∙ omega arith

pub resolve_1gb :
    (e4 e3 e2 e1 v p : ℕ)
    → e4 % 2 ≡ 1
    → p < 2 ^ 39
    → e3 ≡ p / 2 ^ 30 * 2 ^ 30 + 131
    → v % 2 ^ 30 ≡ p % 2 ^ 30
    → resolve e4 e3 e2 e1 v ≡ some p
unfolding resolve
resolve_1gb e4 e3 e2 e1 v p a h b c = ground arith

pub resolve_2mb :
    (e4 e3 e2 e1 v p : ℕ)
    → e4 % 2 ≡ 1
    → e3 % 2 ≡ 1
    → is_large e3 ≡ 0
    → p < 2 ^ 39
    → e2 ≡ p / 2 ^ 21 * 2 ^ 21 + 131
    → v % 2 ^ 21 ≡ p % 2 ^ 21
    → resolve e4 e3 e2 e1 v ≡ some p
unfolding resolve
resolve_2mb e4 e3 e2 e1 v p a b l h d c = ground arith
