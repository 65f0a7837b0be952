-- ===== src/Boot.antt =====
-- The bootloader, src/boot/bootloader: memory.c, alloc.c and vbe.c. The BIOS is a parameter. The
-- arrays of gBootParams are lists; a page table is a page of entries at a physical address.
pub mod Detect
pub mod Pages
pub mod Tables
pub mod Modes
mod Tests
use fusee_os.Base.{
  ℕ, zero, suc, ◌+◌, ◌-◌, ◌*◌, ◌/◌, ◌%◌, ◌^◌, bit_and, bit_or, Bool, true, false, ◌&&◌, ◌||◌, not,
  Option, none, some, List, [], ◌∷◌, ◌++◌, ◌==◌, ltb, leb, if◌then◌else◌, u32, u64, sub64, ◌<<<◌,
  ◌>>>◌, store, get_or, length,
}
use fusee_os.Phys.{Region, page_size}
use fusee_os.Video.{Video, video_set_graphical_mode}

-- What the BIOS answers to a request for a memory region: the carry, EAX, the next EBX and
-- `BiosMemRegion`.
pub record E820 : Type 0 where
  pub failed : Bool
  pub eax : ℕ
  pub ebx : ℕ
  pub base : ℕ
  pub size : ℕ
  pub type : ℕ

-- MAX_MEM_REGIONS
abbrev pub max_mem_regions : ℕ
max_mem_regions = 64

-- The maps `mem_map` and `mem_free`.
pub record Maps : Type 0 where
  pub mem_map : List Region
  pub mem_free : List Region

abbrev pub lomem_end : ℕ
lomem_end = 0x1000000

-- The part of a region that is no lomem.
pub above_lomem : ℕ → ℕ → Region
above_lomem base size =
    if ltb base lomem_end
    then record { base = lomem_end; size = sub64 size (lomem_end - base) }
    else record { base = base; size = size }

-- The body of the loop of `memory_detect`, for the region of an answer.
pub add_region : E820 → Maps → Maps
add_region mem p =
    if not (mem.size == 0) && (mem.type == 1)
    then record {
      mem_map = p.mem_map ++ (record { base = mem.base; size = mem.size } ∷ []);
      mem_free =
          if ltb lomem_end (u64 (mem.base + mem.size))
          then p.mem_free ++ (above_lomem mem.base mem.size ∷ [])
          else p.mem_free;
    }
    else p

-- `bios` answers a request with the number of it in EBX.
module _ (bios : ℕ → E820) where
  -- `memory_detect` from EBX on, on fuel; `none` means that the fuel ran out, or that a region is
  -- written behind the end of one of the maps, which the code does not test.
  pub detect_from : ℕ → ℕ → Maps → Option Maps
  detect_from zero ebx p = none
  detect_from (suc f) ebx p =
      let mem = bios ebx in
      let p' = add_region mem p in
      let rest = detect_from f mem.ebx p' in
      if mem.failed || not (mem.eax == 0x534d_4150)
      then some p
      else (if ltb max_mem_regions (length p'.mem_map) || ltb max_mem_regions (length p'.mem_free)
          then none
          else (if mem.ebx == 0 then some p' else rest))

  pub memory_detect : ℕ → Option Maps
  memory_detect fuel = detect_from fuel 0 (record { mem_map = []; mem_free = [] })

-- `zero_page`, on the entries of the page.
pub zero_page : ℕ → (ℕ → ℕ → ℕ) → ℕ → ℕ → ℕ
zero_page page dirs = store dirs page (λ i. if ltb i 512 then 0 else dirs page i)

-- The page of `alloc_page_lo`, and the next one.
pub alloc_page_lo : ℕ → ℕ × ℕ
alloc_page_lo page = (page, u64 (page + page_size))

-- The loop of `alloc_page_hi`, with `n` regions left to look at; 0 if none has memory.
pub take_page : ℕ → List Region → ℕ × List Region
take_page zero rs = (0, rs)
take_page (suc n) [] = (0, [])
take_page (suc n) (r ∷ rs) =
    let (page, rs') = take_page n rs in
    if r.size == 0
    then (page, r ∷ rs')
    else (r.base, record { base = u64 (r.base + page_size); size = sub64 r.size page_size } ∷ rs)

-- `alloc_page_hi`, up to the clearing of the page.
pub alloc_page_hi : List Region → ℕ × List Region
alloc_page_hi mem_free = take_page 32 mem_free

-- The indices of an address in the four levels of tables.
pub decompose_addr : ℕ → ℕ × ℕ × ℕ × ℕ
decompose_addr virtual = (
  bit_and (virtual >>> 39) 0x1ff,
  bit_and (virtual >>> 30) 0x1ff,
  bit_and (virtual >>> 21) 0x1ff,
  bit_and (virtual >>> 12) 0x1ff,
)

-- The entry that `map_identity_2mib` writes for the directory `i` and the index `j`.
pub identity_entry : ℕ → ℕ → ℕ
identity_entry i j = bit_or ((i * 0x200 + j) * 0x200000) 0x83

-- The fields of `VbeVideoMode` that the loader uses.
pub record VbeVideoMode : Type 0 where
  pub attr : ℕ
  pub pitch : ℕ
  pub xres : ℕ
  pub yres : ℕ
  pub bpp : ℕ
  pub memory_model : ℕ
  pub physbase : ℕ

-- The resolution in the first detailed timing of the monitor's data.
pub edid_size : (ℕ → ℕ) → ℕ × ℕ
edid_size edid = (
  bit_and (bit_or (edid 58 <<< 4) (edid 56)) 0xfff,
  bit_and (bit_or (edid 61 <<< 4) (edid 59)) 0xfff,
)

-- The mode chosen so far, 0xffff at first, with its size.
pub record Choice : Type 0 where
  pub mode : ℕ
  pub mode_width : ℕ
  pub mode_height : ℕ

-- `info` is what the BIOS says of a mode.
module _ (info : ℕ → VbeVideoMode) where
  pub is_usable : ℕ → ℕ → VbeVideoMode → Bool
  is_usable max_width max_height v =
      not (bit_and v.attr 0x90 == 0)
      && (((v.memory_model == 4) || (v.memory_model == 6))
          && (leb v.xres max_width && (leb v.yres max_height && (v.bpp == 32))))

  -- The last test of the loop, which compares the width with both sizes.
  pub choose : ℕ → VbeVideoMode → Choice → Choice
  choose m v c =
      if leb c.mode_width v.xres && leb c.mode_height v.xres
      then record { mode = m; mode_width = v.xres; mode_height = v.yres }
      else c

  -- The loop of `vbe_try_modes` over the modes before the 0xffff that ends their list.
  pub try_modes : ℕ → ℕ → List ℕ → Choice → Choice
  try_modes max_width max_height [] c = c
  try_modes max_width max_height (m ∷ ms) c =
      try_modes max_width max_height ms
        (if is_usable max_width max_height (info m) then choose m (info m) c else c)

  -- The mode that is set, and the screen with it.
  pub vbe_try_modes : ℕ → ℕ → List ℕ → Video → Option ℕ × Video
  vbe_try_modes max_width max_height ms video =
      let c =
        try_modes max_width max_height ms
          (record { mode = 0xffff; mode_width = 0; mode_height = 0 }) in
      let v = info c.mode in
      if c.mode == 0xffff then (none, video) else (
        some (bit_or c.mode 0x4000),
        video_set_graphical_mode v.physbase v.xres v.yres v.bpp v.pitch video,
      )

  -- `edid` is the monitor's data, `none` where the BIOS has none.
  pub vbe_init : Option (ℕ → ℕ) → List ℕ → Video → Option ℕ × Video
  vbe_init none ms video = vbe_try_modes 800 600 ms video
  vbe_init (some edid) ms video =
      let (width, height) = edid_size edid in vbe_try_modes width height ms video
