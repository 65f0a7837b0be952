-- ===== src/Phys/Init/Fresh.antt =====
-- The blocks of the memory zones when `init_physical_memory` has filled their bitmaps.
use fusee_os.Base.{ℕ, ◌+◌, ◌*◌, ◌/◌, ◌%◌, ◌^◌, ◌≤◌, ◌<◌, ◌≡◌, refl, arith, List, u64, Memory}
use fusee_os.Base.Bits.{bit-ones}
use fusee_os.Phys.{Block, Region, page_size, pmb_max_order, bitmap_words, alloc_phys_early}
use fusee_os.Phys.Bitmap.{page_bit}
use fusee_os.Phys.Scan.{IsBytes}
use fusee_os.Phys.Valid.{IsLive}
use fusee_os.Phys.Init.{filled, bitmaps_from, bitmap_pages, init_block}
use fusee_os.Phys.Init.Steps.{filled-IsBytes, bitmaps_from-first}

-- A live block over the whole pages of `reg`, each of them used.
pub record IsFresh (reg : Region) (b : Block) : Type 0 where
  pub base : b.base ≡ reg.base
  pub npages : b.npages ≡ reg.size / page_size
  pub live : IsLive b
  pub used : (k : ℕ) → k < b.npages → page_bit b.bitmap 0 k ≡ 1

-- A zone of at least a page whose addresses do not wrap.
pub record IsZone (reg : Region) : Type 0 where
  pub a_page : page_size ≤ reg.size
  pub fits : reg.base + reg.size < 2 ^ 64

module _ (ram : Memory) (ram_bytes : IsBytes ram) where
  filled_bit : (a size k : ℕ) → k < size * 8 → page_bit (λ j. filled ram a size) 0 k ≡ 1
  unfolding filled
  filled_bit a size k h = ground (arith, bit-ones 8 (k % 8) (omega arith))

  bitmap_covers :
      (npages k : ℕ)
      → npages < 2 ^ 60
      → k < bitmap_words npages * 64
      → k < u64 (bitmap_pages npages * page_size) * 8
  unfolding bitmap_words bitmap_pages
  bitmap_covers npages k fits h = omega arith

  pub init_block-IsFresh :
      (reg : Region) (b : Block) (rs : List Region)
      → IsZone reg
      → IsFresh reg ((init_block ram reg b rs).0)
  unfolding init_block
  init_block-IsFresh reg b rs z = record {
    base = refl;
    npages = refl;
    live = record {
      pages = λ e. absurd (omega (arith, z.a_page));
      fits = omega (arith, z.fits);
      is_bytes = rw first (filled-IsBytes ram ram_bytes _ _);
      padding =
          λ k lo hi. rw first (filled_bit _ _ k (bitmap_covers _ k (omega (arith, z.fits)) hi));
    };
    used = λ k lt.
        rw first (filled_bit _ _ k (bitmap_covers _ k (omega (arith, z.fits)) (cover k lt)));
  }
    where
      cover : (k : ℕ) → k < reg.size / page_size → k < bitmap_words (reg.size / page_size) * 64
      cover k lt = unfold bitmap_words in omega (arith, z.fits)

      first :
          (bitmaps_from ram pmb_max_order 0 (bitmap_pages (reg.size / page_size)) b.bitmap rs).0 0
          ≡ filled ram
              ((alloc_phys_early (bitmap_pages (reg.size / page_size)) rs).0)
              (u64 (bitmap_pages (reg.size / page_size) * page_size))
      first = bitmaps_from-first ram ram_bytes 7 0 (bitmap_pages (reg.size / page_size)) b.bitmap rs
