-- ===== src/Boot/Tests.antt =====
-- A BIOS with two regions of memory and two video modes, and the theorems there.
use fusee_os.Base.{ℕ, ◌*◌, ◌≡◌, refl, arith, false, some, List, [], ◌∷◌, ◌==◌, leb, if◌then◌else◌}
use fusee_os.Phys.{Region}
use fusee_os.Video.Samples.{screen}
use fusee_os.Boot.Tables.{Loader, memory_identity_map}
use fusee_os.Boot.Tables.Identity.{IsIdentity, memory_identity_map-IsIdentity}
use fusee_os.Boot.{
  E820, Maps, memory_detect, VbeVideoMode, vbe_try_modes, edid_size, alloc_page_hi, take_page,
}
use fusee_os.Boot.Detect.{Reports, final, more, usable, times, memory_detect-times}
use fusee_os.Boot.Modes.{Sets, IsLandscape, AllModes, vbe_try_modes-Sets}

-- Usable memory from 15 MiB to 17 MiB, then a reserved region.
abbrev bios : ℕ → E820
bios ebx =
    if ebx == 0
    then record {
      failed = false;
      eax = 0x534d_4150;
      ebx = 1;
      base = 0xf00000;
      size = 0x200000;
      type = 1;
    }
    else record {
      failed = false;
      eax = 0x534d_4150;
      ebx = 0;
      base = 0xfff00000;
      size = 0x1000;
      type = 2;
    }

abbrev answers : List E820
answers = bios 0 ∷ bios 1 ∷ []

bios-Reports : Reports bios 0 answers
bios-Reports = more refl refl (omega arith) (final refl refl refl)

memory_detect-times_example :
    (maps : Maps) × (memory_detect bios 3 ≡ some maps)
    × (maps.mem_map ≡ usable answers)
    × ((x : ℕ) → times maps.mem_free x ≡ (if leb 0x1000000 x then times maps.mem_map x else 0))
memory_detect-times_example =
    memory_detect-times bios answers 3 bios-Reports (omega arith) (omega arith) (omega arith)

abbrev regions : List Region
regions = record { base = 0x1000000; size = 0 } ∷ record { base = 0x2000000; size = 0x3000 } ∷ []

abbrev info : ℕ → VbeVideoMode
info m = record {
  attr = 0x90;
  pitch = 4 * m;
  xres = m;
  yres = 600;
  bpp = 32;
  memory_model = 6;
  physbase = 0xe000_0000;
}

landscape : AllModes info 1024 768 (IsLandscape info 1024 768) (800 ∷ 1024 ∷ 1280 ∷ [])
landscape = omega arith

vbe_try_modes-Sets_example :
    Sets info 1024 768
      (800 ∷ 1024 ∷ 1280 ∷ [])
      screen
      (vbe_try_modes info 1024 768 (800 ∷ 1024 ∷ 1280 ∷ []) screen)
vbe_try_modes-Sets_example =
    vbe_try_modes-Sets info 1024 768 (800 ∷ 1024 ∷ 1280 ∷ []) screen landscape

-- A monitor of 1920 columns, of which 1936 are read: the low half of byte 58 belongs to the
-- blanking.
edid_size_reads_blanking :
    edid_size (λ k. if k == 58 then 0x71 else (if k == 56 then 0x80 else 0)) ≡ (0x790, 0)
unfolding edid_size
edid_size_reads_blanking = refl

abbrev loader : Loader
loader = record {
  dirs = λ t k. 0;
  cr3 = 0;
  page = 0x100000;
  mem_free = record { base = 0x1000000; size = 0x100000 } ∷ [];
}

loader_root : (alloc_page_hi loader.mem_free).0 ≡ 0x1000000
unfolding alloc_page_hi take_page
loader_root = refl

memory_identity_map-IsIdentity_example :
    IsIdentity ((alloc_page_hi loader.mem_free).0) (memory_identity_map loader)
memory_identity_map-IsIdentity_example =
    memory_identity_map-IsIdentity loader (omega arith) (omega (arith, loader_root))
      (omega (arith, loader_root)) (omega (arith, loader_root))
