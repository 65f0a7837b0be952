-- ===== src/Volume/Contents.antt =====
-- The contents of a source file on the volume.
use fusee_os.Base.{
  ℕ, zero, suc, ◌+◌, ◌-◌, ◌*◌, ◌^◌, ◌≤◌, ◌<◌, ◌≡◌, refl, ◌∙◌, ap, arith, min, List, [], ◌∷◌, length,
  take, drop, get_or, some,
}
use mathlib.Core.Path.{subst}
use fusee_os.Volume.{Volume, size_of, inode_open, create_file}
use fusee_os.Volume.Slots.{byte, Fresh}
use fusee_os.Volume.Append.{IsFilled, Appended}
use fusee_os.Volume.Write.{
  take-append-drop, length-take, length-drop, Appended-nil, Appended-append, file_write-Appended,
}
use fusee_os.Volume.Create.{create_file-Created}
use fusee_os.Volume.Build.{copy_contents}

copy_contents-Appended_from :
    (fuel : ℕ) (v : Volume) (file : ℕ) (src : List ℕ)
    → IsFilled v file
    → length src < fuel
    → size_of v file + length src ≤ 528 * 4096
    → v.next_inode + 4 * length src < 2 ^ 63
    → (v' : Volume) × (copy_contents fuel v (record { file = file; pos = size_of v file }) src
        ≡ some v')
      × Appended v file src v'
unfolding copy_contents
copy_contents-Appended_from zero v file src g enough room inodes = absurd (omega arith)
copy_contents-Appended_from (suc fuel) v file [] g enough room inodes =
    (v, refl, Appended-nil v file g)
copy_contents-Appended_from (suc fuel) v file (b ∷ bs) g enough room inodes =
    let chunk = take 4096 (b ∷ bs) in
    let rest = drop 4096 (b ∷ bs) in
    let taken : length chunk ≡ min 4096 (length (b ∷ bs)) = length-take 4096 (b ∷ bs) in
    let dropped : length rest ≡ length (b ∷ bs) - 4096 = length-drop 4096 (b ∷ bs) in
    let (v1, e, one) =
      file_write-Appended 4097 v file chunk g (omega (arith, taken)) (omega (arith, taken))
        (omega (arith, taken)) in
    let (v2, result, more) =
      copy_contents-Appended_from fuel v1 file rest one.filled (omega (arith, dropped))
        (omega (arith, one.size, taken, dropped)) (omega (arith, one.few, taken, dropped)) in
    (
      v2,
      rw (e, copy_contents) result,
      subst (λ xs. Appended v file xs v2) (take-append-drop 4096 (b ∷ bs))
          (Appended-append v v1 v2 file chunk rest one more),
    )

-- A new file, and the contents of a source file written to it: `copy_contents` returns, and the
-- file has these bytes and no more.
pub record HasContents (file : ℕ) (src : List ℕ) (v' : Volume) : Type 0 where
  pub filled : IsFilled v' file
  pub size : size_of v' file ≡ length src
  pub bytes : (k : ℕ) → k < length src → byte v'.bytes file k ≡ get_or src k 0

pub copy_contents-HasContents :
    (fuel : ℕ) (v : Volume) (src : List ℕ)
    → Fresh v.bytes v.next_inode
    → length src < fuel
    → length src ≤ 528 * 4096
    → v.next_inode < 2 ^ 62
    → let (file, v1) = create_file v in
      (v' : Volume) × (copy_contents fuel v1 (inode_open file) src ≡ some v')
      × HasContents file src v'
      × (v'.next_inode ≤ v.next_inode + 2 + 4 * length src)
unfolding inode_open
copy_contents-HasContents fuel v src fresh enough room inodes =
    let (file, v1) = create_file v in
    let c = create_file-Created v fresh (omega arith) in
    let (v', result, a) =
      copy_contents-Appended_from fuel v1 file src c.filled enough (omega (arith, c.empty))
        (omega (arith, c.next, c.near)) in
    (
      v',
      subst (λ pos. copy_contents fuel v1 (record { file = file; pos = pos }) src ≡ some v') c.empty
          result,
      record {
        filled = a.filled;
        size = omega (arith, a.size, c.empty);
        bytes = λ k h. ap (byte v'.bytes file) (omega (arith, c.empty)) ∙ a.new k h;
      },
      omega (arith, a.few, c.next, c.near),
    )
