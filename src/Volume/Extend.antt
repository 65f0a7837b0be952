-- ===== src/Volume/Extend.antt =====
-- What `append_dir` adds to a directory.
use mathlib.Core.List.{append_assoc, append-nil}
use fusee_os.Base.{
  ℕ, zero, suc, ◌+◌, ◌-◌, ◌*◌, ◌^◌, ◌≤◌, ◌<◌, ◌≡◌, refl, sym, ◌∙◌, ap, arith, true, false, List, [],
  ◌∷◌, ◌++◌, length, get_or, length-append, some, ◌==◌, Memory, dec_lt,
}
use mathlib.Core.Path.{subst}
use fusee_os.Initram.Layout.{Holds}
use fusee_os.Volume.{Volume, size_of, inode_open}
use fusee_os.Volume.Slots.{byte}
use fusee_os.Volume.Append.{Appended}
use fusee_os.Volume.Write.{
  file_write-Appended, Appended-append, get_or-append_left, get_or-append_right,
}
use fusee_os.Volume.Build.{find_file_dir, append_dir}
use fusee_os.Volume.Directory.{
  Link, head_bytes, length-head_bytes, dir_bytes, AreLinks, IsDir, first_match, goes_on, Holds-from,
  find_file_dir-first_match,
}

dir_bytes-append :
    (ls : List Link) (l : Link)
    → dir_bytes (ls ++ (l ∷ [])) ≡ dir_bytes ls ++ (head_bytes l ++ l.name)
dir_bytes-append [] l = ap (λ xs. head_bytes l ++ xs) (append-nil l.name)
dir_bytes-append (k ∷ ls) l =
    ap (λ xs. head_bytes k ++ (k.name ++ xs)) (dir_bytes-append ls l)
    ∙ ap (λ xs. head_bytes k ++ xs)
        (sym (append_assoc k.name (dir_bytes ls) (head_bytes l ++ l.name)))
    ∙ sym (append_assoc (head_bytes k) (k.name ++ dir_bytes ls) (head_bytes l ++ l.name))

AreLinks-append :
    (ls : List Link) (l : Link) → AreLinks ls → AreLinks (l ∷ []) → AreLinks (ls ++ (l ∷ []))
AreLinks-append [] l a b = b
AreLinks-append (k ∷ ls) l a b = (a.0, a.1, a.2, AreLinks-append ls l a.3 b)

Holds-get :
    (m : Memory) (a : ℕ) (xs : List ℕ) (k : ℕ)
    → Holds m a xs
    → k < length xs
    → m (a + k) ≡ get_or xs k 0
Holds-get m a [] k h lt = absurd (omega arith)
Holds-get m a (x ∷ xs) zero h lt = ap m (omega arith) ∙ h.0
Holds-get m a (x ∷ xs) (suc k) h lt =
    ap m (omega arith) ∙ Holds-get m (a + 1) xs k h.1 (omega arith)

-- What is appended to a file stands behind what it had.
Appended-Holds :
    (v v' : Volume) (file : ℕ) (xs ys : List ℕ)
    → Appended v file ys v'
    → Holds (byte v.bytes file) 0 xs
    → size_of v file ≡ length xs
    → Holds (byte v'.bytes file) 0 (xs ++ ys)
Appended-Holds v v' file xs ys a h size = Holds-from (byte v'.bytes file) 0 (xs ++ ys) (λ k lt.
    elim (dec_lt k (length xs)) [
      | yes old ↦
          ap (byte v'.bytes file) (omega arith)
          ∙ a.old k (omega (arith, size))
          ∙ ap (byte v.bytes file) (omega arith)
          ∙ Holds-get (byte v.bytes file) 0 xs k h old
          ∙ sym (get_or-append_left xs ys k 0 old)
      | no new ↦
          ap (byte v'.bytes file) (omega (arith, size, new))
          ∙ a.new (k - length xs) (omega (arith, new, length-append xs ys))
          ∙ sym (get_or-append_right xs ys (k - length xs) 0)
          ∙ ap (λ i. get_or (xs ++ ys) i 0) (omega (arith, new))
    ])

-- `append_dir` returns on a directory with room for the entry, with more fuel than the entry has
-- bytes to write at once. The directory has the new entry behind its others.
pub append_dir-IsDir :
    (fuel : ℕ) (v : Volume) (dir : ℕ) (ls : List Link) (l : Link)
    → IsDir v dir ls
    → AreLinks (l ∷ [])
    → 12 < fuel
    → length l.name < fuel
    → size_of v dir + 12 + length l.name ≤ 528 * 4096
    → v.next_inode < 2 ^ 62
    → (v' : Volume) × (append_dir fuel v dir l.name l.inode ≡ some v')
      × IsDir v' dir (ls ++ (l ∷ []))
unfolding append_dir inode_open
append_dir-IsDir fuel v dir ls l d links twelve enough room inodes =
    let head = head_bytes l in
    let size12 = length-head_bytes l in
    let (v1, e1, a1) =
      file_write-Appended fuel v dir head d.filled (omega (arith, size12)) (omega (arith, size12))
        (omega (arith, size12)) in
    let (v2, e2, a2) =
      file_write-Appended fuel v1 dir l.name a1.filled enough (omega (arith, a1.size, size12))
        (omega (arith, a1.few, size12)) in
    let a = Appended-append v v1 v2 dir head l.name a1 a2 in
    let bytes = dir_bytes-append ls l in
    (
      v2,
      rw (e1, append_dir) (rw (e2, append_dir) refl),
      record {
        filled = a.filled;
        links = AreLinks-append ls l d.links links;
        bytes =
            subst (λ xs. Holds (byte v2.bytes dir) 0 xs) (sym bytes)
              (Appended-Holds v v2 dir (dir_bytes ls) (head ++ l.name) a d.bytes d.size);
        size =
            a.size
            ∙ omega (arith, d.size, length-append (dir_bytes ls) (head ++ l.name))
            ∙ ap length (sym bytes);
      },
    )

-- No entry has a name that `query` begins with.
abbrev pub NoMatch : List Link → List ℕ → Type 0
NoMatch [] query = Unit
NoMatch (k ∷ ks) query = (goes_on k.name query 0 ≡ false) × NoMatch ks query

goes_on_self : (xs ys : List ℕ) → goes_on ys (xs ++ ys) (length xs) ≡ true
goes_on_self xs [] = refl
goes_on_self xs (y ∷ ys) =
    let here : get_or (xs ++ (y ∷ ys)) (length xs) 0 ≡ y =
      ap (λ i. get_or (xs ++ (y ∷ ys)) i 0) (omega arith) ∙ get_or-append_right xs (y ∷ ys) 0 0 in
    let same : (y == y) ≡ true = ground arith in
    let behind : length (xs ++ (y ∷ [])) ≡ length xs + 1 =
      length-append xs (y ∷ []) ∙ omega arith in
    rw (here, same)
      (subst (λ i. goes_on ys (xs ++ (y ∷ ys)) i ≡ true) behind
        (subst (λ zs. goes_on ys zs (length (xs ++ (y ∷ []))) ≡ true) (append_assoc xs (y ∷ []) ys)
          (goes_on_self (xs ++ (y ∷ [])) ys)))

first_match-append :
    (ls : List Link) (l : Link) → NoMatch ls l.name → first_match (ls ++ (l ∷ [])) l.name ≡ l.inode
first_match-append [] l h = rw (goes_on_self [] l.name) refl
first_match-append (k ∷ ls) l h = rw (h.0) (first_match-append ls l h.1)

-- In a directory whose names, and the new one, have at most 1024 bytes each, an entry that
-- `append_dir` adds is the one that `find_file_dir` finds by its name, if
-- the name begins with that of no other entry. Both return, with enough fuel.
pub find_file_dir-append_dir :
    (fuel : ℕ) (v : Volume) (dir : ℕ) (ls : List Link) (l : Link) (entry namebuf : Memory)
    → IsDir v dir ls
    → AreLinks (l ∷ [])
    → NoMatch ls l.name
    → length ls + 1 < fuel
    → length (dir_bytes (ls ++ (l ∷ []))) < fuel
    → size_of v dir + 12 + length l.name ≤ 528 * 4096
    → v.next_inode < 2 ^ 62
    → (v' : Volume) × (append_dir fuel v dir l.name l.inode ≡ some v')
      × IsDir v' dir (ls ++ (l ∷ []))
      × (find_file_dir fuel v' dir l.name entry namebuf ≡ some (l.inode, v'))
find_file_dir-append_dir fuel v dir ls l entry namebuf d links no_match few enough room inodes =
    let bytes = dir_bytes-append ls l in
    let whole : length (dir_bytes (ls ++ (l ∷ [])))
        ≡ length (dir_bytes ls) + (length (head_bytes l) + length l.name) =
      ap length bytes
      ∙ length-append (dir_bytes ls) (head_bytes l ++ l.name)
      ∙ omega (arith, length-append (head_bytes l) l.name) in
    let twelve = length-head_bytes l in
    let (v', e, d') =
      append_dir-IsDir fuel v dir ls l d links (omega (arith, whole, twelve))
        (omega (arith, whole, twelve)) room inodes in
    (
      v',
      e,
      d',
      find_file_dir-first_match fuel v' dir (ls ++ (l ∷ [])) l.name entry namebuf d'
            (omega (arith, length-append ls (l ∷ []))) enough
          ∙ ap (λ i. some (i, v')) (first_match-append ls l no_match),
    )
