-- ===== src/Mfs/Listed.antt =====
-- The loop over the inodes that a table lists.
use fusee_os.Base.{
  ℕ, zero, suc, ◌+◌, ◌-◌, ◌*◌, ◌≤◌, ◌<◌, ◌≡◌, refl, ◌∙◌, ap, ap₂, ◌⊎◌, arith, Memory, ℕ_discrete,
}
use fusee_os.Phys.{load_le}
use fusee_os.Volume.{inode_page}
use fusee_os.Mfs.{Bios, mfs_read_page, read_listed}
use fusee_os.Mfs.Pages.{HasVolume, mfs_read_page-PageRead}

pub load_le-shift :
    (n : ℕ) (m m' : Memory) (a b : ℕ)
    → ((k : ℕ) → k < n → m (a + k) ≡ m' (b + k))
    → load_le n m a ≡ load_le n m' b
unfolding load_le
load_le-shift zero m m' a b h = refl
load_le-shift (suc n) m m' a b h =
    let first : m a ≡ m' b = ap m (omega arith) ∙ h 0 (omega arith) ∙ ap m' (omega arith) in
    ap₂ (λ x y. x + 256 * y) first
      (load_le-shift n m m' (a + 1) (b + 1)
        (λ k lt. ap m (omega arith) ∙ h (k + 1) (omega arith) ∙ ap m' (omega arith)))

-- The pages of the inodes `p i`, `p (i + 1)` and so on stand one behind the other, and nothing else
-- has changed.
pub record Listed (vol : Memory) (p : ℕ → ℕ) (i n dst : ℕ) (m out : Memory) : Type 0 where
  pub inside :
      (j x : ℕ) → j < n → x < 4096 → out (dst + 4096 * j + x) ≡ vol (inode_page (p (i + j)) + x)
  pub outside : (a : ℕ) → (a < dst) ⊎ (dst + 4096 * n ≤ a) → out a ≡ m a

module _ (bios : Bios) (lba_start pages : ℕ) (buffer vol : Memory) (last : ℕ)
    (d : HasVolume bios.disk lba_start vol last) (table : ℕ) (p : ℕ → ℕ) where
  pub read_listed-Listed :
      (n i dst : ℕ) (m : Memory)
      → ((j : ℕ) → i ≤ j → j < i + n → load_le 8 m (table + 8 * j) ≡ p j)
      → ((j : ℕ) → i ≤ j → j < i + n → p j ≤ last)
      → (table + 8 * (i + n) ≤ dst) ⊎ (dst + 4096 * n ≤ table + 8 * i)
      → let (dst', out) = read_listed bios lba_start pages buffer table n i dst m in
        (dst' ≡ dst + 4096 * n) × Listed vol p i n dst m out
  unfolding read_listed
  read_listed-Listed zero i dst m names given apart =
      (omega arith, record { inside = λ j x h lt. absurd (omega arith); outside = λ a h. refl })
  read_listed-Listed (suc n) i dst m names given apart =
      let inode = load_le 8 m (table + 8 * i) in
      let name : inode ≡ p i = names i (omega arith) (omega arith) in
      let m1 = mfs_read_page bios lba_start pages buffer m dst inode in
      let page =
        mfs_read_page-PageRead bios lba_start pages buffer vol last d m dst inode
          (omega (arith, name, given i (omega arith) (omega arith))) in
      let (e, ih) =
        read_listed-Listed n (i + 1) (dst + 4096) m1
          (λ j lo hi.
            load_le-shift 8 m1 m (table + 8 * j) (table + 8 * j)
              (λ k lt. page.outside (table + 8 * j + k) (omega arith))
            ∙ names j (omega arith) (omega arith))
          (λ j lo hi. given j (omega arith) (omega arith)) (omega arith) in
      let out = (read_listed bios lba_start pages buffer table n (i + 1) (dst + 4096) m1).1 in
      (
        omega (arith, e),
        record {
          inside = λ j x h lt. elim (ℕ_discrete j 0) [
            | yes z ↦
                ap out (omega arith)
                ∙ ih.outside (dst + x) (omega arith)
                ∙ page.inside x lt
                ∙ ap (λ q. vol (inode_page q + x)) (name ∙ ap p (omega arith))
            | no nz ↦
                ap out (omega (arith, nz))
                ∙ ih.inside (j - 1) x (omega (arith, nz)) lt
                ∙ ap (λ q. vol (inode_page (p q) + x)) (omega (arith, nz))
          ];
          outside = λ a h. ih.outside a (omega arith) ∙ page.outside a (omega arith);
        },
      )
