-- ===== src/Arch/Tests.antt =====
-- The tables and devices at concrete inputs, and the theorems there.
use fusee_os.Base.{ℕ, ◌≤◌, ◌≡◌, ◌≢◌, refl, arith, ◌+◌, ◌*◌, ◌<◌, Memory, true, false}
use fusee_os.Arch.{
  Gdt, gdt_add_tss, gdt_init, idt_set_gate_interrupt, out8, pic_enable, sel_code0, sel_data0,
  sel_code3, sel_data3, sel_tss,
}
use fusee_os.Arch.Descriptors.{
  IsSegment, IsTss, Adds, gdt_add_tss-Adds, gdt_init-IsFlat, IsGate, idt_set_gate_interrupt-IsGate,
}

abbrev empty : Gdt
empty = record { buffer = λ a. 0; size = 7 }

abbrev no_gates : Memory
no_gates a = 0

-- All lines but 2 are masked.
abbrev masks : ℕ → ℕ
masks port = 0xfb

gdt_add_tss-Adds_example :
    Adds sel_tss 16
      (λ m. IsTss m sel_tss 0xffff_ff00_1234_5678)
      empty
      (gdt_add_tss sel_tss 0xffff_ff00_1234_5678 empty)
gdt_add_tss-Adds_example =
    gdt_add_tss-Adds sel_tss 0xffff_ff00_1234_5678 empty (omega arith) (omega arith)

gdt_init-IsFlat_example :
    let g' = gdt_init empty in
    IsSegment g'.buffer sel_code0 true 0
    × IsSegment g'.buffer sel_data0 false 0
    × IsSegment g'.buffer sel_code3 true 3
    × IsSegment g'.buffer sel_data3 false 3
    × (0x27 ≤ g'.size)
gdt_init-IsFlat_example = gdt_init-IsFlat empty

idt_set_gate_interrupt-IsGate_example :
    let idt' = idt_set_gate_interrupt 0x20 3 0xffff_ffff_8000_1234 no_gates in
    IsGate idt' 0x200 3 0xffff_ffff_8000_1234
    × ((i k : ℕ) → i ≢ 0x20 → k < 16 → idt' (16 * i + k) ≡ 0)
    × ((a : ℕ) → 256 * 16 ≤ a → idt' a ≡ 0)
idt_set_gate_interrupt-IsGate_example =
    idt_set_gate_interrupt-IsGate 0x20 3 0xffff_ffff_8000_1234 no_gates (omega arith) (omega arith)

pic_enable_runs : pic_enable masks 8 ≡ out8 0xa1 0xfa
unfolding pic_enable
pic_enable_runs = refl
