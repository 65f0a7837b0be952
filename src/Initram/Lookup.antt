-- ===== src/Initram/Lookup.antt =====
-- A file is found on the disk that the tool wrote.
use mathlib.Core.Path.{subst}
use fusee_os.Base.{
  ℕ, zero, suc, ◌+◌, ◌*◌, ◌^◌, ◌<◌, ◌≤◌, ◌≡◌, ◌≢◌, refl, sym, ◌∙◌, ap, ap₂, arith, Bool, true,
  false, ◌&&◌, Option, none, some, List, [], ◌∷◌, ◌++◌, length, length-append, Memory, ◌==◌, ==→ne,
  Bool-cases, inl, inr, take, pos, ◌-◌, ne→==, sub_ℕ, if◌then◌else◌, leb,
}
use fusee_os.Libc.{memcmp, compare_from}
use fusee_os.Initram.{
  Entry, Disk, header_bytes, entry_bytes, entries_bytes, placed, save_initram, lookup_from,
  initram_lookup, is_zero, read_u64, add_files, init_initram,
}
use fusee_os.Initram.Layout.{
  Holds, Holds-append_left, Holds-append_right, ReadsHeader, IsSmallHeader,
  header_bytes-ReadsHeader, IsSmallEntry, read_entry-entry_bytes, length-header_bytes,
  length-entry_bytes, length-entries_bytes,
}
use fusee_os.Initram.Build.{
  File, readable, names_of, contents_of, entries_of, bytes_of, IsCounted, IsBuilt,
  add_files-IsBuilt,
}

-- `query` begins with `name`.
abbrev pub starts_with : List ℕ → List ℕ → Bool
starts_with [] query = true
starts_with (c ∷ name) [] = false
starts_with (c ∷ name) (d ∷ query) = (d == c) && starts_with name query

-- A text has no zero byte.
abbrev pub IsText : List ℕ → Type 0
IsText [] = Unit
IsText (c ∷ cs) = (c ≢ 0) × IsText cs

is_zero-pos : (n : ℕ) → n ≢ 0 → is_zero (pos n) ≡ false
is_zero-pos zero h = absurd (h refl)
is_zero-pos (suc n) h = refl

is_zero-sub_ℕ : (a b : ℕ) → a ≢ b → is_zero (sub_ℕ a b) ≡ false
is_zero-sub_ℕ a b h = elim (Bool-cases (leb b a)) [
  | inl le ↦ rw le (is_zero-pos (a - b) (ground arith))
  | inr gt ↦ rw gt refl
]

compare_from-starts_with :
    (name query : List ℕ) (i : ℕ) (m : Memory) (s1 s2 : ℕ)
    → IsText name
    → Holds m (s1 + i) (query ++ 0 ∷ [])
    → Holds m (s2 + i) name
    → is_zero (compare_from (length name) i m s1 s2) ≡ starts_with name query
unfolding compare_from
compare_from-starts_with [] query i m s1 s2 t h k = refl
compare_from-starts_with (c ∷ name) [] i m s1 s2 t h k =
    rw (h.0, k.0, ne→== 0 c (λ e. t.0 (sym e))) (is_zero-sub_ℕ c 0 t.0)
compare_from-starts_with (c ∷ name) (d ∷ query) i m s1 s2 t h k = elim (Bool-cases (d == c)) [
  | inl e ↦
      rw (h.0, k.0, e)
        (compare_from-starts_with name query (i + 1) m s1 s2 t.1
          (subst (λ a. Holds m a (query ++ 0 ∷ [])) (omega arith) h.1)
          (subst (λ a. Holds m a name) (omega arith) k.1))
  | inr e ↦ rw (h.0, k.0, e) (is_zero-sub_ℕ c d (λ eq. ==→ne d c e (sym eq)))
]

-- Where the contents begin of the first file whose name the query begins with.
abbrev pub offset_of : List File → List ℕ → ℕ → Option ℕ
offset_of [] query off = none
offset_of ((name, bytes) ∷ fs) query off =
    if starts_with name query then some off else offset_of fs query (off + length bytes)

abbrev pub AreNamed : List File → Type 0
AreNamed [] = Unit
AreNamed ((name, bytes) ∷ fs) = IsText name × AreNamed fs

-- An offset as an address.
abbrev pub address : ℕ → Option ℕ → Option ℕ
address a none = none
address a (some off) = some (a + off)

module _ (m : Memory) (base name : ℕ) (query : List ℕ)
    (asked : Holds m name (query ++ 0 ∷ [])) where
  lookup_from-offset_of :
      (fs : List File) (i start off : ℕ)
      → AreNamed fs
      → start + off + bytes_of fs < 2 ^ 64
      → Holds m (base + read_u64 m (base + 16) + 32 * i) (entries_bytes (entries_of fs start off))
      → Holds m (base + read_u64 m (base + 32) + start) (names_of fs)
      → lookup_from (length fs) i m base name
        ≡ address (base + read_u64 m (base + 48)) (offset_of fs query off)
  unfolding lookup_from entries_bytes memcmp
  lookup_from-offset_of [] i start off t fits es ns = refl
  lookup_from-offset_of ((file, bytes) ∷ fs) i start off t fits es ns =
      let fe = base + read_u64 m (base + 16) in
      let sh = base + read_u64 m (base + 32) in
      let entry : Entry = record {
        name_off = start;
        name_size = length file;
        data_off = off;
        data_size = length bytes;
      } in
      let rest = entries_bytes (entries_of fs (start + (length file + 1)) (off + length bytes)) in
      let small : IsSmallEntry entry = record {
        name_off = omega arith;
        name_size = omega arith;
        data_off = omega arith;
        data_size = omega arith;
      } in
      let read =
        read_entry-entry_bytes entry m fe i small
          (Holds-append_left m (fe + 32 * i) (entry_bytes entry) rest es) in
      let es' : Holds m (fe + 32 * (i + 1)) rest =
        subst (λ a. Holds m a rest) (omega (arith, length-entry_bytes entry))
          (Holds-append_right m (fe + 32 * i) (entry_bytes entry) rest es) in
      let named = Holds-append_left m (sh + start) (file ++ 0 ∷ []) (names_of fs) ns in
      let ns' : Holds m (sh + (start + (length file + 1))) (names_of fs) =
        subst (λ a. Holds m a (names_of fs)) (omega (arith, length-append file (0 ∷ [])))
          (Holds-append_right m (sh + start) (file ++ 0 ∷ []) (names_of fs) ns) in
      let test : is_zero (compare_from (length file) 0 m name (sh + start))
          ≡ starts_with file query =
        compare_from-starts_with file query 0 m name (sh + start) t.0
          (subst (λ a. Holds m a (query ++ 0 ∷ [])) (omega arith) asked)
          (subst (λ a. Holds m a file) (omega arith)
            (Holds-append_left m (sh + start) file (0 ∷ []) named)) in
      let others =
        lookup_from-offset_of fs (i + 1) (start + (length file + 1)) (off + length bytes) t.1
          (omega arith) es' ns' in
      rw read (
        rw test
          (elim (Bool-cases (starts_with file query)) [ inl e ↦ rw e refl | inr e ↦ rw e others ]))

take_all : (xs : List ℕ) → take (length xs) xs ≡ xs
take_all [] = refl
take_all (x ∷ xs) = ap (◌∷◌ x) (take_all xs)

take-length : (xs : List ℕ) (n : ℕ) → n ≡ length xs → take n xs ≡ xs
take-length xs n e = ap (λ k. take k xs) e ∙ take_all xs

length-entries_of : (fs : List File) (start off : ℕ) → length (entries_of fs start off) ≡ length fs
length-entries_of [] start off = refl
length-entries_of ((name, bytes) ∷ fs) start off =
    ap suc (length-entries_of fs (start + (length name + 1)) (off + length bytes))

-- What the files take, by part.
bytes_of-parts :
    (fs : List File) → bytes_of fs ≡ length (names_of fs) + 32 * length fs + length (contents_of fs)
bytes_of-parts [] = refl
bytes_of-parts ((name, bytes) ∷ fs) = omega (
  arith,
  bytes_of-parts fs,
  length-append (name ++ 0 ∷ []) (names_of fs),
  length-append name (0 ∷ []),
  length-append bytes (contents_of fs),
)

-- The contents of the first file whose name the query begins with.
abbrev pub file_of : List File → List ℕ → Option (List ℕ)
file_of [] query = none
file_of ((name, bytes) ∷ fs) query = if starts_with name query then some bytes else file_of fs query

-- A pointer to those contents, or NULL where there is no such file.
abbrev pub PointsTo : Memory → Option (List ℕ) → Option ℕ → Type 0
PointsTo m none none = Unit
PointsTo m none (some a) = ⊥
PointsTo m (some bytes) none = ⊥
PointsTo m (some bytes) (some a) = Holds m a bytes

offset_of-PointsTo :
    (fs : List File) (query : List ℕ) (m : Memory) (a off : ℕ)
    → Holds m (a + off) (contents_of fs)
    → PointsTo m (file_of fs query) (address a (offset_of fs query off))
offset_of-PointsTo [] query m a off h = tt
offset_of-PointsTo ((name, bytes) ∷ fs) query m a off h =
    elim (Bool-cases (starts_with name query)) [
      | inl e ↦ rw e (Holds-append_left m (a + off) bytes (contents_of fs) h)
      | inr e ↦
          let rest : Holds m (a + (off + length bytes)) (contents_of fs) =
            subst (λ k. Holds m k (contents_of fs)) (omega arith)
              (Holds-append_right m (a + off) bytes (contents_of fs) h) in
          rw e (offset_of-PointsTo fs query m a (off + length bytes) rest)
    ]

-- What the image holds of a disk that was built of files.
record Image (fs : List File) (rd : Disk) (m : Memory) (base : ℕ) : Type 0 where
  header : ReadsHeader (placed rd.header) m base
  names : Holds m (base + 64) (names_of fs)
  entries : Holds m (base + (64 + length (names_of fs))) (entries_bytes (entries_of fs 0 0))
  contents : Holds m (base + (64 + length (names_of fs) + 32 * length fs)) (contents_of fs)
  sh_off : (placed rd.header).sh_off ≡ 64
  fh_off : (placed rd.header).fh_off ≡ 64 + length (names_of fs)
  data_off : (placed rd.header).data_off ≡ 64 + length (names_of fs) + 32 * length fs
  fh_cnt : (placed rd.header).fh_cnt ≡ length fs

save_initram-Image :
    (fs : List File) (rd : Disk) (m : Memory) (base : ℕ)
    → IsBuilt fs init_initram rd
    → 64 + bytes_of fs < 2 ^ 64
    → Holds m base (save_initram rd)
    → Image fs rd m base
unfolding save_initram placed init_initram
save_initram-Image fs rd m base b fits held =
    let c = b.counted in
    let parts = bytes_of-parts fs in
    let count : length rd.entries ≡ length fs = ap length b.entries ∙ length-entries_of fs 0 0 in
    let named : length rd.names ≡ length (names_of fs) = ap length b.names in
    let filled : length rd.contents ≡ length (contents_of fs) = ap length b.contents in
    let h = placed rd.header in
    let table : length (entries_bytes rd.entries) ≡ 32 * length fs =
      length-entries_bytes rd.entries ∙ omega (arith, count) in
    let sh_size : h.sh_size ≡ length rd.names = c.names in
    let fh_size : h.fh_size ≡ length (entries_bytes rd.entries) =
      omega (arith, c.table, table, count) in
    let data_size : h.data_size ≡ length rd.contents = c.contents in
    let fh_off : h.fh_off ≡ 64 + length (names_of fs) =
      omega (arith, c.names, named, parts, fits) in
    let data_off : h.data_off ≡ 64 + length (names_of fs) + 32 * length fs =
      omega (arith, c.names, named, c.table, count, parts, fits) in
    let small : IsSmallHeader h = record {
      fh_cnt = omega (arith, c.count, count, parts, fits);
      fh_off = omega (arith, fh_off, parts, fits);
      fh_size = omega (arith, fh_size, table, parts, fits);
      sh_off = omega arith;
      sh_size = omega (arith, sh_size, named, parts, fits);
      data_off = omega (arith, data_off, parts, fits);
      data_size = omega (arith, data_size, filled, parts, fits);
    } in
    let ns = take-length rd.names h.sh_size sh_size in
    let es = take-length (entries_bytes rd.entries) h.fh_size fh_size in
    let cs = take-length rd.contents h.data_size data_size in
    let table_bytes = entries_bytes (entries_of fs 0 0) in
    let layout : save_initram rd
        ≡ header_bytes h ++ (names_of fs ++ (table_bytes ++ contents_of fs)) =
      ap (◌++◌ (header_bytes h))
        (ap₂ ◌++◌ (ns ∙ b.names) (ap₂ ◌++◌ (es ∙ ap entries_bytes b.entries) (cs ∙ b.contents))) in
    let whole = subst (Holds m base) layout held in
    let after_header =
      Holds-append_right m base (header_bytes h) (names_of fs ++ (table_bytes ++ contents_of fs))
        whole in
    let h1 : Holds m (base + 64) (names_of fs ++ (table_bytes ++ contents_of fs)) =
      subst (λ k. Holds m (base + k) (names_of fs ++ (table_bytes ++ contents_of fs)))
        (length-header_bytes h) after_header in
    let h2 : Holds m (base + (64 + length (names_of fs))) (table_bytes ++ contents_of fs) =
      subst (λ k. Holds m k (table_bytes ++ contents_of fs)) (omega arith)
        (Holds-append_right m (base + 64) (names_of fs) (table_bytes ++ contents_of fs) h1) in
    let table_length = length-entries_bytes (entries_of fs 0 0) in
    let h3 : Holds m (base + (64 + length (names_of fs) + 32 * length fs)) (contents_of fs) =
      subst (λ k. Holds m k (contents_of fs))
        (omega (arith, table_length, length-entries_of fs 0 0))
        (Holds-append_right m (base + (64 + length (names_of fs))) table_bytes (contents_of fs)
          h2) in
    record {
      header = header_bytes-ReadsHeader h m base small (
          Holds-append_left m base (header_bytes h) (names_of fs ++ (table_bytes ++ contents_of fs))
            whole);
      names = Holds-append_left m (base + 64) (names_of fs) (table_bytes ++ contents_of fs) h1;
      entries =
          Holds-append_left m (base + (64 + length (names_of fs))) table_bytes (contents_of fs) h2;
      contents = h3;
      sh_off = refl;
      fh_off = fh_off;
      data_off = data_off;
      fh_cnt = omega (arith, c.count, count);
    }

init_initram-IsCounted : IsCounted init_initram
unfolding init_initram
init_initram-IsCounted = record { count = refl; table = refl; names = refl; contents = refl }

found :
    (fs : List File) (query : List ℕ) (m : Memory) (base name : ℕ) (rd : Disk)
    → AreNamed fs
    → 64 + bytes_of fs < 2 ^ 64
    → Holds m name (query ++ 0 ∷ [])
    → Image fs rd m base
    → PointsTo m (file_of fs query) (initram_lookup m base name)
unfolding initram_lookup
found fs query m base name rd t fits asked image =
    let r = image.header in
    let fe : read_u64 m (base + 16) ≡ 64 + length (names_of fs) = r.fh_off ∙ image.fh_off in
    let sh : read_u64 m (base + 32) ≡ 64 = r.sh_off ∙ image.sh_off in
    let data_off : read_u64 m (base + 48) ≡ 64 + length (names_of fs) + 32 * length fs =
      r.data_off ∙ image.data_off in
    let es : Holds m (base + read_u64 m (base + 16) + 32 * 0) (entries_bytes (entries_of fs 0 0)) =
      subst (λ k. Holds m k (entries_bytes (entries_of fs 0 0))) (omega (arith, fe))
        image.entries in
    let ns : Holds m (base + read_u64 m (base + 32) + 0) (names_of fs) =
      subst (λ k. Holds m k (names_of fs)) (omega (arith, sh)) image.names in
    let cs : Holds m (base + read_u64 m (base + 48) + 0) (contents_of fs) =
      subst (λ k. Holds m k (contents_of fs)) (omega (arith, data_off)) image.contents in
    let run : lookup_from (read_u64 m (base + 8)) 0 m base name
        ≡ address (base + read_u64 m (base + 48)) (offset_of fs query 0) =
      ap (λ n. lookup_from n 0 m base name) (r.fh_cnt ∙ image.fh_cnt)
      ∙ lookup_from-offset_of m base name query asked fs 0 0 0 t (omega arith) es ns in
    subst (PointsTo m (file_of fs query)) (sym run)
      (offset_of-PointsTo fs query m (base + read_u64 m (base + 48)) 0 cs)

some_injective : (a b : Disk) → Option.some a ≡ some b → a ≡ b
some_injective a b e = cc

-- Where the disk is in memory that was built of at most 256 files, whose names have no zero byte
-- and with a zero each take at most 4096 bytes, and which fit 64 bits, at any address and as
-- `save_initram` writes it, `initram_lookup` returns for every query a pointer to the contents of
-- the first file whose name the query begins with, and NULL where there is no such file.
pub initram_lookup-PointsTo :
    (fs : List File) (rd : Disk) (query : List ℕ) (m : Memory) (base name : ℕ)
    → AreNamed fs
    → length fs ≤ 256
    → length (names_of fs) ≤ 4096
    → 64 + bytes_of fs < 2 ^ 64
    → add_files (readable fs) init_initram ≡ some rd
    → Holds m base (save_initram rd)
    → Holds m name (query ++ 0 ∷ [])
    → PointsTo m (file_of fs query) (initram_lookup m base name)
unfolding init_initram
initram_lookup-PointsTo fs rd query m base name t few short fits built held asked =
    let (rd', run, b) =
      add_files-IsBuilt fs init_initram init_initram-IsCounted (omega arith) (omega arith)
        (omega arith) in
    let b' : IsBuilt fs init_initram rd =
      subst (IsBuilt fs init_initram) (some_injective rd' rd (sym run ∙ built)) b in
    found fs query m base name rd t fits asked (save_initram-Image fs rd m base b' fits held)
