-- ===== src/Volume/Directory.antt =====
-- A directory is a row of entries, and what `find_file_dir` finds in it.
use fusee_os.Base.{
  ℕ, zero, suc, ◌+◌, ◌^◌, ◌≤◌, ◌<◌, ◌≡◌, ◌≢◌, refl, sym, ◌∙◌, ap, ap₂, inl, inr, arith, Bool, true,
  false, List, [], ◌∷◌, ◌++◌, length, get_or, length-append, some, ◌==◌, ltb, le→ltb, if◌then◌else◌,
  Bool-cases, Memory, ne→==,
}
use mathlib.Core.Path.{subst}
use fusee_os.Base.Bytes.{write_bytes, write_bytes_inside}
use fusee_os.Initram.{le_bytes}
use fusee_os.Initram.Layout.{
  Holds, Holds-append_left, Holds-append_right, length-le_bytes, load_le-le_bytes,
}
use fusee_os.Volume.{Volume, size_of, file_read, inode_open}
use fusee_os.Volume.Slots.{byte}
use fusee_os.Volume.Append.{IsFilled}
use fusee_os.Volume.Reading.{file_read-Reads}
use fusee_os.Volume.Build.{strncmp_is_zero, find_from, find_file_dir}

-- An entry of a directory, and its bytes.
pub record Link : Type 0 where
  pub inode : ℕ
  pub name : List ℕ

abbrev pub head_bytes : Link → List ℕ
head_bytes l = le_bytes 8 l.inode ++ le_bytes 4 (length l.name)

abbrev pub dir_bytes : List Link → List ℕ
dir_bytes [] = []
dir_bytes (l ∷ ls) = head_bytes l ++ (l.name ++ dir_bytes ls)

pub length-head_bytes : (l : Link) → length (head_bytes l) ≡ 12
length-head_bytes l = omega (
  arith,
  length-append (le_bytes 8 l.inode) (le_bytes 4 (length l.name)),
  length-le_bytes 8 l.inode,
  length-le_bytes 4 (length l.name),
)

-- The bytes of a name, none of which ends it.
abbrev pub IsName : List ℕ → Type 0
IsName [] = Unit
IsName (c ∷ cs) = (c ≢ 0) × IsName cs

abbrev pub AreLinks : List Link → Type 0
AreLinks [] = Unit
AreLinks (l ∷ ls) = (l.inode < 2 ^ 64) × (length l.name ≤ 1024) × IsName l.name × AreLinks ls

-- `name` is how `query` goes on from index `i`.
abbrev pub goes_on : List ℕ → List ℕ → ℕ → Bool
goes_on [] query i = true
goes_on (c ∷ cs) query i = if c == get_or query i 0 then goes_on cs query (i + 1) else false

-- The inode of the first entry whose name `query` begins with, 0 if there is none.
abbrev pub first_match : List Link → List ℕ → ℕ
first_match [] query = 0
first_match (l ∷ ls) query = if goes_on l.name query 0 then l.inode else first_match ls query

strncmp_is_zero-goes_on :
    (name : List ℕ) (s : Memory) (i : ℕ) (query : List ℕ)
    → IsName name
    → Holds s i name
    → strncmp_is_zero (length name) s i query ≡ goes_on name query i
unfolding strncmp_is_zero
strncmp_is_zero-goes_on [] s i query n h = refl
strncmp_is_zero-goes_on (c ∷ cs) s i query n h =
    let going = strncmp_is_zero-goes_on cs s (i + 1) query n.1 h.1 in
    let more : (s i == 0) ≡ false = ne→== (s i) 0 (λ z. n.0 (sym h.0 ∙ z)) in
    rw (more, going, h.0) refl

pub Holds-from :
    (m : Memory) (a : ℕ) (cs : List ℕ)
    → ((k : ℕ) → k < length cs → m (a + k) ≡ get_or cs k 0)
    → Holds m a cs
Holds-from m a [] at = tt
Holds-from m a (c ∷ cs) at = (
  ap m (omega arith) ∙ at 0 (omega arith),
  Holds-from m (a + 1) cs (λ k lt. ap m (omega arith) ∙ at (suc k) (omega arith)),
)

write_bytes-Holds : (m : Memory) (a : ℕ) (bs : List ℕ) → Holds (write_bytes m a bs) a bs
write_bytes-Holds m a bs =
    Holds-from (write_bytes m a bs) a bs (λ k lt. write_bytes_inside m a bs k lt)

Holds-get_or :
    (m : Memory) (a : ℕ) (bs cs : List ℕ)
    → Holds m a cs
    → length bs ≡ length cs
    → ((k : ℕ) → k < length bs → get_or bs k 0 ≡ m (a + k))
    → bs ≡ cs
Holds-get_or m a [] [] h e at = refl
Holds-get_or m a [] (c ∷ cs) h e at = absurd (omega (arith, e))
Holds-get_or m a (b ∷ bs) [] h e at = absurd (omega (arith, e))
Holds-get_or m a (b ∷ bs) (c ∷ cs) h e at =
    ap₂ (λ x xs. x ∷ xs) (at 0 (omega arith) ∙ ap m (omega arith) ∙ h.0)
      (Holds-get_or m (a + 1) bs cs h.1 (omega (arith, e))
        (λ k lt. at (suc k) (omega arith) ∙ ap m (omega arith)))

-- A row of bytes of the file is read as it is.
file_read-Holds :
    (fuel : ℕ) (v : Volume) (file pos : ℕ) (bs : List ℕ)
    → IsFilled v file
    → Holds (byte v.bytes file) pos bs
    → pos + length bs ≤ size_of v file
    → length bs < fuel
    → file_read fuel v (record { file = file; pos = pos }) (length bs)
      ≡ some (bs, record { file = file; pos = pos + length bs }, v)
file_read-Holds fuel v file pos bs g h fits enough =
    let (cs, e, r) = file_read-Reads fuel v file pos (length bs) g fits enough in
    let same =
      Holds-get_or (byte v.bytes file) pos cs bs h r.length_lem
        (λ k lt. r.bytes k (omega (arith, r.length_lem))) in
    e ∙ ap (λ xs. some (xs, record { file = file; pos = pos + length bs }, v)) same

find_from-first_match :
    (ls : List Link) (fuel rounds : ℕ) (v : Volume) (dir pos : ℕ) (entry namebuf : Memory)
    (query : List ℕ)
    → IsFilled v dir
    → AreLinks ls
    → Holds (byte v.bytes dir) pos (dir_bytes ls)
    → size_of v dir ≡ pos + length (dir_bytes ls)
    → length ls < fuel
    → length (dir_bytes ls) < rounds
    → find_from fuel rounds v (record { file = dir; pos = pos }) entry namebuf query
      ≡ some (first_match ls query, v)
unfolding find_from
find_from-first_match ls zero rounds v dir pos entry namebuf query g links h size enough more =
    absurd (omega arith)
find_from-first_match [] (suc fuel) rounds v dir pos entry namebuf query g links h size enough
      more =
    let at_end : (pos == size_of v dir) ≡ true = ground (arith, size) in rw (at_end, find_from) refl
find_from-first_match (l ∷ ls) (suc fuel) rounds v dir pos entry namebuf query g links h size enough
      more =
    let head = head_bytes l in
    let b = byte v.bytes dir in
    let behind = l.name ++ dir_bytes ls in
    let twelve = length-head_bytes l in
    let whole = length-append head behind in
    let both = length-append l.name (dir_bytes ls) in
    let h1 = Holds-append_left b pos head behind h in
    let h2 = Holds-append_right b pos head behind h in
    let h3 = Holds-append_left b (pos + length head) l.name (dir_bytes ls) h2 in
    let h4 = Holds-append_right b (pos + length head) l.name (dir_bytes ls) h2 in
    let not_end : (pos == size_of v dir) ≡ false =
      ne→== pos (size_of v dir) (omega (arith, size, whole, twelve)) in
    let read1 : file_read rounds v (record { file = dir; pos = pos }) 12
        ≡ some (head, record { file = dir; pos = pos + length head }, v) =
      subst
        (λ n.
          file_read rounds v (record { file = dir; pos = pos }) n
          ≡ some (head, record { file = dir; pos = pos + length head }, v))
        twelve
        (file_read-Holds rounds v dir pos head g h1 (omega (arith, size, whole))
          (omega (arith, whole, more))) in
    let read2 =
      file_read-Holds rounds v dir (pos + length head) l.name g h3
        (omega (arith, size, whole, both)) (omega (arith, whole, both, more)) in
    let entry' = write_bytes entry 0 head in
    let held = write_bytes-Holds entry 0 head in
    let inode =
      load_le-le_bytes 8 l.inode entry' 0 (omega (arith, links.0))
        (Holds-append_left entry' 0 (le_bytes 8 l.inode) (le_bytes 4 (length l.name)) held) in
    let namelen = load_le-le_bytes 4 (length l.name) entry' 8 (omega (arith, links.1)) (
      subst (λ k. Holds entry' k (le_bytes 4 (length l.name)))
        (ap (λ n. 0 + n) (length-le_bytes 8 l.inode))
        (Holds-append_right entry' 0 (le_bytes 8 l.inode) (le_bytes 4 (length l.name)) held)) in
    let short : ltb 1024 (length l.name) ≡ false = le→ltb 1024 (length l.name) links.1 in
    let namebuf' = write_bytes namebuf 0 l.name in
    let test =
      strncmp_is_zero-goes_on l.name namebuf' 0 query links.2
        (write_bytes-Holds namebuf 0 l.name) in
    let rest =
      find_from-first_match ls fuel rounds v dir (pos + length head + length l.name) entry' namebuf'
        query g links.3 h4 (omega (arith, size, whole, both)) (omega arith)
        (omega (arith, whole, both, more)) in
    rw (not_end, find_from)
      (rw (read1, find_from)
        (rw (namelen, short, find_from)
          (rw (namelen, read2, find_from)
            (rw (namelen, test)
              (elim (Bool-cases (goes_on l.name query 0)) [
                | inl found ↦ rw (found) (ap (λ i. some (i, v)) inode)
                | inr other ↦ rw (other) rest
              ])))))

-- The file is a directory with these entries.
pub record IsDir (v : Volume) (dir : ℕ) (ls : List Link) : Type 0 where
  pub filled : IsFilled v dir
  pub links : AreLinks ls
  pub bytes : Holds (byte v.bytes dir) 0 (dir_bytes ls)
  pub size : size_of v dir ≡ length (dir_bytes ls)

-- `find_file_dir` returns on a directory whose names have at most 1024 bytes, with more fuel than
-- it has entries and bytes. It finds the inode of the first entry whose name the one asked for
-- begins with, or 0, and leaves the volume alone.
pub find_file_dir-first_match :
    (fuel : ℕ) (v : Volume) (dir : ℕ) (ls : List Link) (query : List ℕ) (entry namebuf : Memory)
    → IsDir v dir ls
    → length ls < fuel
    → length (dir_bytes ls) < fuel
    → find_file_dir fuel v dir query entry namebuf ≡ some (first_match ls query, v)
unfolding find_file_dir inode_open
find_file_dir-first_match fuel v dir ls query entry namebuf d enough more =
    find_from-first_match ls fuel fuel v dir 0 entry namebuf query d.filled d.links d.bytes
      (omega (arith, d.size)) enough more
