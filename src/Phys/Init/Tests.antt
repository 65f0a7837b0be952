-- ===== src/Phys/Init/Tests.antt =====
-- The start of the page allocator with two zones.
use fusee_os.Base.{List, [], ◌∷◌}
use fusee_os.Phys.{Allocator, Region}
use fusee_os.Phys.Samples.{no_block}

abbrev boot_map : List Region
boot_map =
    record { base = 0x100000; size = 0x100000 }
    ∷ record { base = 0x800000; size = 0x5800 }
    ∷ record { base = 0; size = 0 }
    ∷ []

abbrev boot_free : List Region
boot_free =
    record { base = 0x110000; size = 0xf0000 } ∷ record { base = 0x801000; size = 0x2000 } ∷ []

abbrev unset : Allocator
unset = record { blocks = no_block ∷ no_block ∷ no_block ∷ []; pages_total = 0; pages_free = 0 }
