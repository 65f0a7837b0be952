-- ===== src/Initram/Layout.antt =====
-- Bytes laid out in memory, and numbers read back from them.
use mathlib.Core.Path.{subst}
use native.Mathlib.Nat.{pow-suc}
use fusee_os.Base.{
  ℕ, zero, suc, ◌+◌, ◌*◌, ◌/◌, ◌^◌, ◌<◌, ◌≡◌, refl, ap, arith, List, [], ◌∷◌, ◌++◌, length, Memory,
  length-append,
}
use fusee_os.Phys.{load_le}
use fusee_os.Initram.{
  le_bytes, entry_bytes, header_bytes, Entry, Header, magic, read_u64, entries_bytes, read_entry,
}

-- The bytes `bs` stand in memory from address `a` on.
abbrev pub Holds : Memory → ℕ → List ℕ → Type 0
Holds m a [] = Unit
Holds m a (b ∷ bs) = (m a ≡ b) × Holds m (a + 1) bs

pub Holds-append_left : (m : Memory) (a : ℕ) (xs ys : List ℕ) → Holds m a (xs ++ ys) → Holds m a xs
Holds-append_left m a [] ys h = tt
Holds-append_left m a (x ∷ xs) ys h = (h.0, Holds-append_left m (a + 1) xs ys h.1)

pub Holds-append_right :
    (m : Memory) (a : ℕ) (xs ys : List ℕ) → Holds m a (xs ++ ys) → Holds m (a + length xs) ys
Holds-append_right m a [] ys h = subst (λ k. Holds m k ys) (omega arith) h
Holds-append_right m a (x ∷ xs) ys h =
    subst (λ k. Holds m k ys) (omega arith) (Holds-append_right m (a + 1) xs ys h.1)

pub length-le_bytes : (n v : ℕ) → length (le_bytes n v) ≡ n
unfolding le_bytes
length-le_bytes zero v = refl
length-le_bytes (suc n) v = ap suc (length-le_bytes n (v / 256))

pub load_le-le_bytes :
    (n v : ℕ) (m : Memory) (a : ℕ) → v < 256 ^ n → Holds m a (le_bytes n v) → load_le n m a ≡ v
unfolding le_bytes load_le
load_le-le_bytes zero v m a lt h = omega arith
load_le-le_bytes (suc n) v m a lt h =
    let rest = load_le-le_bytes n (v / 256) m (a + 1) (omega (arith, pow-suc 256 n)) h.1 in
    omega (arith, h.0, rest)

-- A 64-bit number at the head of a row of them.
read_word :
    (v : ℕ) (rest : List ℕ) (m : Memory) (a b : ℕ)
    → a + 8 ≡ b
    → v < 2 ^ 64
    → Holds m a (le_bytes 8 v ++ rest)
    → (read_u64 m a ≡ v) × Holds m b rest
read_word v rest m a b e lt h = (
  load_le-le_bytes 8 v m a (omega arith) (Holds-append_left m a (le_bytes 8 v) rest h),
  subst (λ k. Holds m k rest) (omega (arith, e, length-le_bytes 8 v))
      (Holds-append_right m a (le_bytes 8 v) rest h),
)

pub record IsSmallEntry (e : Entry) : Type 0 where
  pub name_off : e.name_off < 2 ^ 64
  pub name_size : e.name_size < 2 ^ 64
  pub data_off : e.data_off < 2 ^ 64
  pub data_size : e.data_size < 2 ^ 64

-- An entry is read as it was written.
pub read_entry-entry_bytes :
    (e : Entry) (m : Memory) (fe i : ℕ)
    → IsSmallEntry e
    → Holds m (fe + 32 * i) (entry_bytes e)
    → read_entry m fe i ≡ e
unfolding entry_bytes read_entry
read_entry-entry_bytes e m fe i small h =
    let a = fe + 32 * i in
    let (x, h1) = read_word e.name_off _ m a (a + 8) refl small.name_off h in
    let (y, h2) = read_word e.name_size _ m (a + 8) (a + 16) (omega arith) small.name_size h1 in
    let (z, h3) = read_word e.data_off _ m (a + 16) (a + 24) (omega arith) small.data_off h2 in
    let w = load_le-le_bytes 8 e.data_size m (a + 24) (omega (arith, small.data_size)) h3 in
    rw (x, y, z, w) refl

-- The fields that the reader uses, read as they were written.
pub record ReadsHeader (h : Header) (m : Memory) (base : ℕ) : Type 0 where
  pub fh_cnt : read_u64 m (base + 8) ≡ h.fh_cnt
  pub fh_off : read_u64 m (base + 16) ≡ h.fh_off
  pub sh_off : read_u64 m (base + 32) ≡ h.sh_off
  pub data_off : read_u64 m (base + 48) ≡ h.data_off

pub record IsSmallHeader (h : Header) : Type 0 where
  pub fh_cnt : h.fh_cnt < 2 ^ 64
  pub fh_off : h.fh_off < 2 ^ 64
  pub fh_size : h.fh_size < 2 ^ 64
  pub sh_off : h.sh_off < 2 ^ 64
  pub sh_size : h.sh_size < 2 ^ 64
  pub data_off : h.data_off < 2 ^ 64
  pub data_size : h.data_size < 2 ^ 64

pub header_bytes-ReadsHeader :
    (h : Header) (m : Memory) (base : ℕ)
    → IsSmallHeader h
    → Holds m base (header_bytes h)
    → ReadsHeader h m base
unfolding header_bytes
header_bytes-ReadsHeader h m base small held =
    let h0 = Holds-append_right m base magic _ held in
    let (cnt, h1) = read_word h.fh_cnt _ m (base + 8) (base + 16) (omega arith) small.fh_cnt h0 in
    let (off, h2) = read_word h.fh_off _ m (base + 16) (base + 24) (omega arith) small.fh_off h1 in
    let (s1, h3) = read_word h.fh_size _ m (base + 24) (base + 32) (omega arith) small.fh_size h2 in
    let (sh, h4) = read_word h.sh_off _ m (base + 32) (base + 40) (omega arith) small.sh_off h3 in
    let (s2, h5) = read_word h.sh_size _ m (base + 40) (base + 48) (omega arith) small.sh_size h4 in
    let (d, h6) =
      read_word h.data_off _ m (base + 48) (base + 56) (omega arith) small.data_off h5 in
    record { fh_cnt = cnt; fh_off = off; sh_off = sh; data_off = d }

pub length-header_bytes : (h : Header) → length (header_bytes h) ≡ 64
unfolding header_bytes le_bytes
length-header_bytes h = refl

pub length-entry_bytes : (e : Entry) → length (entry_bytes e) ≡ 32
unfolding entry_bytes le_bytes
length-entry_bytes e = refl

pub length-entries_bytes : (es : List Entry) → length (entries_bytes es) ≡ 32 * length es
unfolding entries_bytes
length-entries_bytes [] = refl
length-entries_bytes (e ∷ es) = omega (
  arith,
  length-append (entry_bytes e) (entries_bytes es),
  length-entry_bytes e,
  length-entries_bytes es,
)
