-- ===== src/Volume/Reading.antt =====
-- What `file_read` reads from a file.
use fusee_os.Base.{
  ℕ, zero, suc, ◌+◌, ◌-◌, ◌*◌, ◌/◌, ◌%◌, ◌^◌, ◌≤◌, ◌<◌, ◌≡◌, ◌≢◌, refl, sym, ◌∙◌, ap, arith, min,
  List, [], ◌++◌, length, get_or, bytes_at, length-bytes_at, get_or-bytes_at, length-append, some,
  true, false, ltb, ◌==◌, u64, sub64, ℕ_discrete, dec_lt, le→ltb, ne→==,
}
use fusee_os.Phys.{load_le}
use fusee_os.Volume.{Volume, File, inode_page, size_of, page_at, ptr_from_data_index, file_read}
use fusee_os.Volume.Slots.{idata, slot, byte, slot-direct, slot-none, slot-Stored, indirect}
use fusee_os.Volume.Append.{IsFilled}
use fusee_os.Volume.Write.{get_or-append_left, get_or-append_right}

page_at_there :
    (v : Volume) (a : ℕ) → load_le 8 v.bytes a ≢ 0 → page_at v a ≡ (load_le 8 v.bytes a, v)
unfolding page_at
page_at_there v a h = ground (arith, h)

-- Where a page is there already, nothing changes.
pub ptr_from_data_index_there :
    (v : Volume) (file j : ℕ)
    → j < 528
    → slot v.bytes file j ≢ 0
    → ptr_from_data_index v file j ≡ some (slot v.bytes file j, v)
unfolding ptr_from_data_index
ptr_from_data_index_there v file j h has = elim (dec_lt j 16) [
  | yes small ↦
      (let e : inode_page file + 56 + 8 * j ≡ inode_page file + (56 + 8 * j) = omega arith in
        let s = slot-direct v.bytes file j small in
        let there = page_at_there v (inode_page file + (56 + 8 * j)) (λ z. has (s ∙ z)) in
        let first : ltb j 16 ≡ true = ground (arith, small) in rw (first, e, there, s) refl)
  | no large ↦
      (let has_idata : idata v.bytes file ≢ 0 =
          λ z. has (slot-none v.bytes file j (omega (arith, large)) z) in
        let s = slot-Stored v.bytes file j (idata v.bytes file) (8 * (j - 16)) (
          indirect (idata v.bytes file) (8 * (j - 16)) (omega (arith, large)) refl has_idata
            refl) in
        let first : ltb j 16 ≡ false = ground (arith, large) in
        let second : ltb j (512 + 16) ≡ true = ground (arith, h) in
        let table = page_at_there v (inode_page file + 184) has_idata in
        let there =
          page_at_there v (inode_page (idata v.bytes file) + 8 * (j - 16)) (λ z. has (s ∙ z)) in
        rw (first, second, table) (rw (there, s) refl))
]

-- The bytes of the file from a position on.
pub record Reads (v : Volume) (file pos len : ℕ) (bs : List ℕ) : Type 0 where
  pub length_lem : length bs ≡ len
  pub bytes : (k : ℕ) → k < len → get_or bs k 0 ≡ byte v.bytes file (pos + k)

-- One round, for bytes that the file has.
file_read_round :
    (fuel : ℕ) (v : Volume) (file pos len page : ℕ) (bs : List ℕ) (f : File)
    → len ≢ 0
    → pos + len ≤ size_of v file
    → size_of v file < 2 ^ 63
    → ptr_from_data_index v file (pos / 4096) ≡ some (page, v)
    → let tmp = min (4096 - pos % 4096) len in
      file_read fuel v (record { file = file; pos = pos + tmp }) (len - tmp) ≡ some (bs, f, v)
      → file_read (suc fuel) v (record { file = file; pos = pos }) len
        ≡ some (bytes_at v.bytes (inode_page page + pos % 4096) tmp ++ bs, f, v)
unfolding file_read
file_read_round fuel v file pos len page bs f nz fits small there result =
    let size = size_of v file in
    let m = min (4096 - pos % 4096) len in
    let first : (len == 0) ≡ false = ne→== len 0 nz in
    let second : (pos == size) ≡ false = ne→== pos size (omega (arith, nz)) in
    let whole : ltb size (u64 (m + pos)) ≡ false = le→ltb size (u64 (m + pos)) (omega arith) in
    let next : u64 (pos + m) ≡ pos + m = omega arith in
    let left : sub64 len m ≡ len - m = omega arith in
    rw (first, second, file_read)
      (rw (there, file_read) (rw (whole, next, left) (rw (result) (rw (whole) refl))))

-- With more fuel than bytes to read, and these bytes in the file, `file_read` returns them and
-- changes nothing on the volume.
pub file_read-Reads :
    (fuel : ℕ) (v : Volume) (file pos len : ℕ)
    → IsFilled v file
    → pos + len ≤ size_of v file
    → len < fuel
    → (bs : List ℕ) × (file_read fuel v (record { file = file; pos = pos }) len
        ≡ some (bs, record { file = file; pos = pos + len }, v))
      × Reads v file pos len bs
unfolding file_read
file_read-Reads zero v file pos len g fits enough = absurd (omega arith)
file_read-Reads (suc fuel) v file pos len g fits enough = elim (ℕ_discrete len 0) [
  | yes z ↦ (
    [],
    rw z (ap (λ p. some ([], record { file = file; pos = p }, v)) (omega arith)),
    record { length_lem = sym z; bytes = λ k h. absurd (omega (arith, z)) },
  )
  | no nz ↦
      (let small = g.small in
        let tmp = min (4096 - pos % 4096) len in
        let j = pos / 4096 in
        let has = g.has_page j (omega (arith, nz)) in
        let e = ptr_from_data_index_there v file j (omega (arith, nz)) has in
        let (bs, result, r) =
          file_read-Reads fuel v file (pos + tmp) (len - tmp) g (omega (arith, nz))
            (omega (arith, nz)) in
        let same_page : (k : ℕ) → k < tmp → pos / 4096 ≡ (pos + k) / 4096 = λ k lt. omega arith in
        let page = bytes_at v.bytes (inode_page (slot v.bytes file j) + pos % 4096) tmp in
        let here = length-bytes_at v.bytes (inode_page (slot v.bytes file j) + pos % 4096) tmp in
        (
          page ++ bs,
          file_read_round fuel v file pos len (slot v.bytes file j) bs
                (record { file = file; pos = pos + tmp + (len - tmp) }) nz fits (omega arith) e
                result
              ∙ ap (λ p. some (page ++ bs, record { file = file; pos = p }, v)) (omega arith),
          record {
            length_lem = omega (arith, length-append page bs, here, r.length_lem);
            bytes = λ k h. elim (dec_lt k tmp) [
              | yes lt ↦
                  get_or-append_left page bs k 0 (omega (arith, here))
                  ∙ get_or-bytes_at v.bytes (inode_page (slot v.bytes file j) + pos % 4096) tmp k lt
                  ∙ ap v.bytes (omega (arith, ap (slot v.bytes file) (same_page k lt)))
              | no ge ↦
                  ap (λ i. get_or (page ++ bs) i 0) (omega (arith, here, ge))
                  ∙ get_or-append_right page bs (k - tmp) 0
                  ∙ r.bytes (k - tmp) (omega (arith, ge))
                  ∙ ap (byte v.bytes file) (omega (arith, ge))
            ];
          },
        ))
]
