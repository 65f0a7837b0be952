-- ===== src/Arch.antt =====
-- The x86 tables and devices, src/kernel/arch/x86: gdt.c, interrupts.c, pic.c, timer.c, syscall.c.
-- A packed structure is the list of its bytes, a bit field at its bit. What a function writes to
-- ports and registers is a list in order; what a port or register reads is a parameter.
pub mod Descriptors
pub mod Ports
mod Tests
use fusee_os.Base.Bytes.{write_bytes}
use fusee_os.Base.{
  ℕ, zero, suc, ◌+◌, ◌-◌, ◌*◌, ◌/◌, ◌%◌, ◌^◌, bit_and, bit_or, Bool, true, false, List, [], ◌∷◌,
  ltb, if◌then◌else◌, u8, u16, u32, u64, not32, ◌<<<◌, ◌>>>◌, Memory, store,
}

-- The selectors of defs.h.
abbrev pub sel_code0 : ℕ
sel_code0 = 0x08

abbrev pub sel_data0 : ℕ
sel_data0 = 0x10

abbrev pub sel_code3 : ℕ
sel_code3 = 0x18

abbrev pub sel_data3 : ℕ
sel_data3 = 0x20

abbrev pub sel_tss : ℕ
sel_tss = 0x30

-- `GdtEntrySystem`; each field is cut to its width where it is set.
pub record GdtEntrySystem : Type 0 where
  pub limit_lo : ℕ
  pub base_lo : ℕ
  pub base_md : ℕ
  pub ac : ℕ
  pub is_rw : ℕ
  pub dc : ℕ
  pub ex : ℕ
  pub system : ℕ
  pub priv : ℕ
  pub present : ℕ
  pub limit_hi : ℕ
  pub is_zero : ℕ
  pub l : ℕ
  pub sz : ℕ
  pub gr : ℕ
  pub base_hi : ℕ

pub entry_bytes : GdtEntrySystem → List ℕ
entry_bytes e =
    e.limit_lo % 256
    ∷ e.limit_lo / 256
    ∷ e.base_lo % 256
    ∷ e.base_lo / 256
    ∷ e.base_md
    ∷ (e.ac + 2 * e.is_rw + 4 * e.dc + 8 * e.ex + 16 * e.system + 32 * e.priv + 128 * e.present)
    ∷ (e.limit_hi + 16 * e.is_zero + 32 * e.l + 64 * e.sz + 128 * e.gr)
    ∷ e.base_hi
    ∷ []

-- The bytes from the beginning of `gGdtBuffer` on, of which the table has 0x1000, and the size in
-- `gGdtDescriptor`.
pub record Gdt : Type 0 where
  pub buffer : Memory
  pub size : ℕ

pub gdt_grow : ℕ → Gdt → Gdt
gdt_grow last g = if ltb g.size last then record g { size = u16 last } else g

pub segment_entry : Bool → ℕ → GdtEntrySystem
segment_entry code priv = record {
  limit_lo = 0xffff;
  base_lo = 0;
  base_md = 0;
  ac = 0;
  is_rw = if code then 0 else 1;
  dc = 0;
  ex = if code then 1 else 0;
  system = 1;
  priv = bit_and priv 0x3;
  present = 1;
  limit_hi = 0xf;
  is_zero = 0;
  l = 1;
  sz = 0;
  gr = 1;
  base_hi = 0;
}

pub gdt_add_segment : ℕ → Bool → ℕ → Gdt → Gdt
gdt_add_segment slot code priv g =
    gdt_grow (slot + 7)
      (record g { buffer = write_bytes g.buffer slot (entry_bytes (segment_entry code priv)) })

-- `sizeof(TSS)`
abbrev pub tss_size : ℕ
tss_size = 104

pub tss_entry : ℕ → GdtEntrySystem
tss_entry tss_addr = record {
  limit_lo = tss_size - 1;
  base_lo = bit_and tss_addr 0xffff;
  base_md = bit_and (tss_addr >>> 16) 0xff;
  ac = 1;
  is_rw = 0;
  dc = 0;
  ex = 1;
  system = 0;
  priv = 0;
  present = 1;
  limit_hi = 0;
  is_zero = 0;
  l = 0;
  sz = 0;
  gr = 0;
  base_hi = bit_and (tss_addr >>> 24) 0xff;
}

-- The eight bytes of `*desc2`.
pub tss_high_bytes : ℕ → List ℕ
tss_high_bytes v =
    v % 256
    ∷ v / 2 ^ 8 % 256
    ∷ v / 2 ^ 16 % 256
    ∷ v / 2 ^ 24 % 256
    ∷ v / 2 ^ 32 % 256
    ∷ v / 2 ^ 40 % 256
    ∷ v / 2 ^ 48 % 256
    ∷ v / 2 ^ 56 % 256
    ∷ []

pub gdt_add_tss : ℕ → ℕ → Gdt → Gdt
gdt_add_tss slot tss_addr g = gdt_grow (slot + 15) (record g {
  buffer =
      write_bytes (write_bytes g.buffer slot (entry_bytes (tss_entry tss_addr))) (slot + 8)
        (tss_high_bytes (tss_addr >>> 32));
})

-- `gdt_init`, up to the loading of the table.
pub gdt_init : Gdt → Gdt
gdt_init g =
    let g = gdt_add_segment sel_code0 true 0 g in
    let g = gdt_add_segment sel_data0 false 0 g in
    let g = gdt_add_segment sel_code3 true 3 g in gdt_add_segment sel_data3 false 3 g

-- `IDTDesc`
pub record IdtDesc : Type 0 where
  pub offset_lo : ℕ
  pub selector : ℕ
  pub ist : ℕ
  pub type : ℕ
  pub z : ℕ
  pub dpl : ℕ
  pub p : ℕ
  pub offset_md : ℕ
  pub offset_hi : ℕ
  pub reserved : ℕ

pub gate : ℕ → ℕ → IdtDesc
gate dpl handler = record {
  offset_lo = bit_and handler 0xffff;
  selector = sel_code0;
  ist = 0;
  type = 0xe;
  z = 0;
  dpl = dpl % 2 ^ 2;
  p = 1;
  offset_md = bit_and (handler >>> 16) 0xffff;
  offset_hi = u32 (handler >>> 32);
  reserved = 0;
}

pub gate_bytes : IdtDesc → List ℕ
gate_bytes d =
    d.offset_lo % 256
    ∷ d.offset_lo / 256
    ∷ d.selector % 256
    ∷ d.selector / 256
    ∷ d.ist
    ∷ (d.type + 16 * d.z + 32 * d.dpl + 128 * d.p)
    ∷ d.offset_md % 256
    ∷ d.offset_md / 256
    ∷ d.offset_hi % 256
    ∷ d.offset_hi / 2 ^ 8 % 256
    ∷ d.offset_hi / 2 ^ 16 % 256
    ∷ d.offset_hi / 2 ^ 24
    ∷ d.reserved % 256
    ∷ d.reserved / 2 ^ 8 % 256
    ∷ d.reserved / 2 ^ 16 % 256
    ∷ d.reserved / 2 ^ 24
    ∷ []

-- The bytes from the beginning of `gIDT` on; the table has 256 gates of 16 bytes.
pub idt_set_gate_interrupt : ℕ → ℕ → ℕ → Memory → Memory
idt_set_gate_interrupt interrupt dpl handler idt =
    write_bytes idt (16 * interrupt) (gate_bytes (gate dpl handler))

-- A byte written to a port.
pub data Out : Type 0 where
  out8 : ℕ → ℕ → Out

abbrev pub io_wait : Out
io_wait = out8 0x80 0x00

pub pic_init : List Out
pic_init =
    out8 0x20 0x11
    ∷ io_wait
    ∷ out8 0xa0 0x11
    ∷ io_wait
    ∷ out8 0x21 0x20
    ∷ io_wait
    ∷ out8 0xa1 0x28
    ∷ io_wait
    ∷ out8 0x21 4
    ∷ io_wait
    ∷ out8 0xa1 2
    ∷ io_wait
    ∷ out8 0x21 0x01
    ∷ io_wait
    ∷ out8 0xa1 0x01
    ∷ io_wait
    ∷ out8 0x21 0xfb
    ∷ out8 0xa1 0xff
    ∷ []

abbrev pub pic_port : ℕ → ℕ
pic_port i = if ltb i 8 then 0x21 else 0xa1

abbrev pub pic_line : ℕ → ℕ
pic_line i = if ltb i 8 then i else i - 8

-- What the ports read is a parameter.
module _ (in8 : ℕ → ℕ) where
  pub pic_enable : ℕ → Out
  pic_enable i =
      let value = in8 (pic_port i) in
      out8 (pic_port i) (u8 (bit_and value (not32 (u32 (1 <<< pic_line i)))))

  pub pic_disable : ℕ → Out
  pic_disable i =
      let value = in8 (pic_port i) in out8 (pic_port i) (u8 (bit_or value (u32 (1 <<< pic_line i))))

  pub timer_ns : ℕ → List Out
  timer_ns ns =
      let divider = u16 (u64 (ns * 1_000_000_000) / 1193182) in
      out8 0x43 0x34
      ∷ io_wait
      ∷ out8 0x40 (bit_and divider 0xff)
      ∷ io_wait
      ∷ out8 0x40 (u8 (divider >>> 8))
      ∷ pic_enable 0
      ∷ []

-- `wrmsr`: the register and the two halves of the value.
pub data MsrWrite : Type 0 where
  wrmsr_halves : ℕ → ℕ → ℕ → MsrWrite

pub wrmsr : ℕ → ℕ → MsrWrite
wrmsr msr value = wrmsr_halves msr (bit_and value 0xffff_ffff) (u32 (value >>> 32))

-- `rdmsr` from the halves that the processor returns.
pub rdmsr : ℕ → ℕ → ℕ
rdmsr lo hi = bit_or (hi <<< 32) lo

-- `sys_init`, given the halves of EFER and the address of the handler.
pub sys_init : ℕ → ℕ → ℕ → List MsrWrite
sys_init efer_lo efer_hi handler =
    wrmsr 0xc000_0084 0x200
    ∷ wrmsr 0xc000_0082 handler
    ∷ wrmsr 0xc000_0081 (bit_or (sel_code0 <<< 32) (sel_code3 <<< 48))
    ∷ wrmsr 0xc000_0080 (bit_or (rdmsr efer_lo efer_hi) 1)
    ∷ []
