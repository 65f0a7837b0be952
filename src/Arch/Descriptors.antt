-- ===== src/Arch/Descriptors.antt =====
-- The descriptors as the processor reads them from the tables.
use fusee_os.Base.{
  ℕ, ◌+◌, ◌-◌, ◌*◌, ◌/◌, ◌%◌, ◌^◌, ◌≤◌, ◌<◌, ◌≡◌, ◌≢◌, ◌∙◌, ap, ◌⊎◌, inl, arith, Bool, true, false,
  List, get_or, Memory, if◌then◌else◌,
}
use fusee_os.Base.Bits.{bit_and_mask}
use fusee_os.Arch.{
  Gdt, gdt_add_segment, gdt_add_tss, gdt_grow, gdt_init, segment_entry, tss_entry, entry_bytes,
  tss_high_bytes, gate, gate_bytes, idt_set_gate_interrupt, sel_code0, sel_data0, sel_code3,
  sel_data3,
}
use fusee_os.Base.Bytes.{write_bytes, write_bytes_inside, write_bytes_outside}

-- The descriptor at `slot` of a segment of all addresses, at ring `ring`.
pub record IsSegment (m : Memory) (slot : ℕ) (code : Bool) (ring : ℕ) : Type 0 where
  pub limit : m (slot + 0) + 2 ^ 8 * m (slot + 1) + 2 ^ 16 * (m (slot + 6) % 16) ≡ 0xf_ffff
  pub base : m (slot + 2) + 2 ^ 8 * m (slot + 3) + 2 ^ 16 * m (slot + 4) + 2 ^ 24 * m (slot + 7) ≡ 0
  pub access : m (slot + 5) ≡ (if code then 0x98 else 0x92) + 32 * ring
  pub flags : m (slot + 6) / 16 ≡ 0xa

IsSegment-write_bytes :
    (m : Memory) (slot : ℕ) (code : Bool) (priv : ℕ)
    → IsSegment (write_bytes m slot (entry_bytes (segment_entry code priv))) slot code (priv % 4)
unfolding entry_bytes segment_entry
IsSegment-write_bytes m slot code priv =
    let bs = entry_bytes (segment_entry code priv) in
    let byte = λ (i : ℕ) (h : i < 8). write_bytes_inside m slot bs i h in
    record {
      limit = omega (arith, byte 0 (omega arith), byte 1 (omega arith), byte 6 (omega arith));
      base = omega (
        arith,
        byte 2 (omega arith),
        byte 3 (omega arith),
        byte 4 (omega arith),
        byte 7 (omega arith),
      );
      access = byte 5 (omega arith) ∙ ground (arith, bit_and_mask 2 priv);
      flags = omega (arith, byte 6 (omega arith));
    }

segment_outside :
    (m : Memory) (slot : ℕ) (code : Bool) (priv a : ℕ)
    → (a < slot) ⊎ (slot + 8 ≤ a)
    → write_bytes m slot (entry_bytes (segment_entry code priv)) a ≡ m a
unfolding entry_bytes segment_entry
segment_outside m slot code priv a h =
    write_bytes_outside m slot (entry_bytes (segment_entry code priv)) a h

buffer-gdt_grow : (last : ℕ) (g : Gdt) → (gdt_grow last g).buffer ≡ g.buffer
unfolding gdt_grow
buffer-gdt_grow last g = ground arith

size-gdt_grow : (last : ℕ) (g : Gdt) → last < 2 ^ 16 → last ≤ (gdt_grow last g).size
unfolding gdt_grow
size-gdt_grow last g h = ground arith

-- The descriptor of 16 bytes at `slot` of the task state segment of 104 bytes at `addr`.
pub record IsTss (m : Memory) (slot addr : ℕ) : Type 0 where
  pub limit : m (slot + 0) + 2 ^ 8 * m (slot + 1) + 2 ^ 16 * (m (slot + 6) % 16) ≡ 103
  pub base :
      m (slot + 2)
        + 2 ^ 8 * m (slot + 3)
        + 2 ^ 16 * m (slot + 4)
        + 2 ^ 24 * m (slot + 7)
        + 2 ^ 32 * m (slot + 8)
        + 2 ^ 40 * m (slot + 9)
        + 2 ^ 48 * m (slot + 10)
        + 2 ^ 56 * m (slot + 11)
      ≡ addr
  pub access : m (slot + 5) ≡ 0x89
  pub reserved :
      (m (slot + 12) ≡ 0) × (m (slot + 13) ≡ 0) × (m (slot + 14) ≡ 0) × (m (slot + 15) ≡ 0)

module _ (m : Memory) (slot addr : ℕ) (fits : addr < 2 ^ 64) where
  low : List ℕ
  low = entry_bytes (tss_entry addr)

  high : List ℕ
  high = tss_high_bytes (addr / 2 ^ 32)

  both : Memory
  both = write_bytes (write_bytes m slot low) (slot + 8) high

  low_byte : (i : ℕ) → i < 8 → both (slot + i) ≡ get_or low i 0
  unfolding both low high entry_bytes tss_entry tss_high_bytes
  low_byte i h =
      write_bytes_outside (write_bytes m slot low) (slot + 8) high (slot + i) (inl (omega arith))
      ∙ write_bytes_inside m slot low i h

  high_byte : (i : ℕ) → i < 8 → both (slot + (8 + i)) ≡ get_or high i 0
  unfolding both high tss_high_bytes
  high_byte i h =
      ap both (omega arith) ∙ write_bytes_inside (write_bytes m slot low) (slot + 8) high i h

  tss_base :
      both (slot + 2)
        + 2 ^ 8 * both (slot + 3)
        + 2 ^ 16 * both (slot + 4)
        + 2 ^ 24 * both (slot + 7)
        + 2 ^ 32 * both (slot + 8)
        + 2 ^ 40 * both (slot + 9)
        + 2 ^ 48 * both (slot + 10)
        + 2 ^ 56 * both (slot + 11)
      ≡ addr
  unfolding low high entry_bytes tss_entry tss_high_bytes
  tss_base = omega (
    arith,
    low_byte 2 (omega arith),
    low_byte 3 (omega arith),
    low_byte 4 (omega arith),
    low_byte 7 (omega arith),
    high_byte 0 (omega arith),
    high_byte 1 (omega arith),
    high_byte 2 (omega arith),
    high_byte 3 (omega arith),
    bit_and_mask 16 addr,
    bit_and_mask 8 (addr / 2 ^ 16),
    bit_and_mask 8 (addr / 2 ^ 24),
  )

  IsTss-write_bytes : IsTss both slot addr
  unfolding low high entry_bytes tss_entry tss_high_bytes
  IsTss-write_bytes = record {
    limit =
        omega (arith, low_byte 0 (omega arith), low_byte 1 (omega arith), low_byte 6 (omega arith));
    base = tss_base;
    access = low_byte 5 (omega arith);
    reserved = omega (
      arith,
      high_byte 4 (omega arith),
      high_byte 5 (omega arith),
      high_byte 6 (omega arith),
      high_byte 7 (omega arith),
    );
  }

  both_outside : (a : ℕ) → (a < slot) ⊎ (slot + 16 ≤ a) → both a ≡ m a
  unfolding both low high entry_bytes tss_entry tss_high_bytes
  both_outside a h =
      write_bytes_outside (write_bytes m slot low) (slot + 8) high a (omega arith)
      ∙ write_bytes_outside m slot low a (omega arith)

-- What `Q` says of the table, and no byte changed but the `len` at `slot`, which the size covers.
pub record Adds (slot len : ℕ) (Q : Memory → Type 0) (g g' : Gdt) : Type 0 where
  pub added : Q g'.buffer
  pub outside : (a : ℕ) → (a < slot) ⊎ (slot + len ≤ a) → g'.buffer a ≡ g.buffer a
  pub covered : slot + (len - 1) ≤ g'.size

-- At a place within the 0x1000 bytes of the table, `gdt_add_segment` writes the descriptor of a
-- code or data segment of all addresses at the ring asked for, changes no other byte, and the
-- table's size covers the descriptor.
pub gdt_add_segment-Adds :
    (slot : ℕ) (code : Bool) (priv : ℕ) (g : Gdt)
    → slot + 7 < 0x1000
    → Adds slot 8 (λ m. IsSegment m slot code (priv % 4)) g (gdt_add_segment slot code priv g)
unfolding gdt_add_segment
gdt_add_segment-Adds slot code priv g h =
    let bytes = entry_bytes (segment_entry code priv) in
    let g' = record g { buffer = write_bytes g.buffer slot bytes } in
    record {
      added = rw (buffer-gdt_grow (slot + 7) g') (IsSegment-write_bytes g.buffer slot code priv);
      outside =
          λ a o. rw (buffer-gdt_grow (slot + 7) g') (segment_outside g.buffer slot code priv a o);
      covered = size-gdt_grow (slot + 7) g' (omega arith);
    }

-- At a place within the 0x1000 bytes of the table, `gdt_add_tss` writes a descriptor from which the
-- processor reads the task state segment's 64-bit address and its limit, changes no other byte, and
-- the table's size covers the descriptor.
pub gdt_add_tss-Adds :
    (slot addr : ℕ) (g : Gdt)
    → slot + 15 < 0x1000
    → addr < 2 ^ 64
    → Adds slot 16 (λ m. IsTss m slot addr) g (gdt_add_tss slot addr g)
unfolding gdt_add_tss both low high
gdt_add_tss-Adds slot addr g h fits =
    let g' = record g { buffer = both g.buffer slot addr fits } in
    record {
      added = rw (buffer-gdt_grow (slot + 15) g') (IsTss-write_bytes g.buffer slot addr fits);
      outside =
          λ a o. rw (buffer-gdt_grow (slot + 15) g') (both_outside g.buffer slot addr fits a o);
      covered = size-gdt_grow (slot + 15) g' (omega arith);
    }

IsSegment-frame :
    (m m' : Memory) (slot : ℕ) (code : Bool) (ring : ℕ)
    → ((i : ℕ) → i < 8 → m' (slot + i) ≡ m (slot + i))
    → IsSegment m slot code ring
    → IsSegment m' slot code ring
IsSegment-frame m m' slot code ring same s = record {
  limit = omega (arith, s.limit, same 0 (omega arith), same 1 (omega arith), same 6 (omega arith));
  base = omega (
    arith,
    s.base,
    same 2 (omega arith),
    same 3 (omega arith),
    same 4 (omega arith),
    same 7 (omega arith),
  );
  access = same 5 (omega arith) ∙ s.access;
  flags = omega (arith, s.flags, same 6 (omega arith));
}

-- A segment added elsewhere keeps a descriptor.
kept :
    (slot other : ℕ) (code code' : Bool) (ring priv : ℕ) (g : Gdt)
    → (slot + 8 ≤ other) ⊎ (other + 8 ≤ slot)
    → other + 7 < 0x1000
    → IsSegment g.buffer slot code ring
    → IsSegment (gdt_add_segment other code' priv g).buffer slot code ring
kept slot other code code' ring priv g apart fits s =
    let adds = gdt_add_segment-Adds other code' priv g fits in
    IsSegment-frame g.buffer (gdt_add_segment other code' priv g).buffer slot code ring
      (λ i h. adds.outside (slot + i) (omega arith)) s

-- After `gdt_init`, whatever the table held, the kernel's and the user's code and data selectors
-- name segments of all addresses at the rings 0 and 3, and the table's size covers them all.
pub gdt_init-IsFlat :
    (g : Gdt)
    → let g' = gdt_init g in
      IsSegment g'.buffer sel_code0 true 0
      × IsSegment g'.buffer sel_data0 false 0
      × IsSegment g'.buffer sel_code3 true 3
      × IsSegment g'.buffer sel_data3 false 3
      × (0x27 ≤ g'.size)
unfolding gdt_init
gdt_init-IsFlat g =
    let a = gdt_add_segment sel_code0 true 0 g in
    let b = gdt_add_segment sel_data0 false 0 a in
    let c = gdt_add_segment sel_code3 true 3 b in
    let in_a = (gdt_add_segment-Adds sel_code0 true 0 g (omega arith)).added in
    let in_b = (gdt_add_segment-Adds sel_data0 false 0 a (omega arith)).added in
    let in_c = (gdt_add_segment-Adds sel_code3 true 3 b (omega arith)).added in
    let last = gdt_add_segment-Adds sel_data3 false 3 c (omega arith) in
    let code0_b =
      kept sel_code0 sel_data0 true false 0 0 a (inl (omega arith)) (omega arith) in_a in
    let code0_c =
      kept sel_code0 sel_code3 true true 0 3 b (inl (omega arith)) (omega arith) code0_b in
    let data0_c =
      kept sel_data0 sel_code3 false true 0 3 b (inl (omega arith)) (omega arith) in_b in
    (
      kept sel_code0 sel_data3 true false 0 3 c (inl (omega arith)) (omega arith) code0_c,
      kept sel_data0 sel_data3 false false 0 3 c (inl (omega arith)) (omega arith) data0_c,
      kept sel_code3 sel_data3 true false 3 3 c (inl (omega arith)) (omega arith) in_c,
      last.added,
      last.covered,
    )

-- The gate of 16 bytes at `slot` as the processor reads it: an interrupt gate that leads to
-- `handler` through the kernel's code selector, open to ring `ring`.
pub record IsGate (m : Memory) (slot ring handler : ℕ) : Type 0 where
  pub offset :
      m (slot + 0)
        + 2 ^ 8 * m (slot + 1)
        + 2 ^ 16 * m (slot + 6)
        + 2 ^ 24 * m (slot + 7)
        + 2 ^ 32 * m (slot + 8)
        + 2 ^ 40 * m (slot + 9)
        + 2 ^ 48 * m (slot + 10)
        + 2 ^ 56 * m (slot + 11)
      ≡ handler
  pub selector : m (slot + 2) + 2 ^ 8 * m (slot + 3) ≡ sel_code0
  pub stack : m (slot + 4) ≡ 0
  pub access : m (slot + 5) ≡ 0x8e + 32 * ring
  pub reserved :
      (m (slot + 12) ≡ 0) × (m (slot + 13) ≡ 0) × (m (slot + 14) ≡ 0) × (m (slot + 15) ≡ 0)

IsGate-write_bytes :
    (m : Memory) (slot dpl handler : ℕ)
    → handler < 2 ^ 64
    → IsGate (write_bytes m slot (gate_bytes (gate dpl handler))) slot (dpl % 4) handler
unfolding gate_bytes gate
IsGate-write_bytes m slot dpl handler h =
    let bs = gate_bytes (gate dpl handler) in
    let byte = λ (i : ℕ) (lt : i < 16). write_bytes_inside m slot bs i lt in
    record {
      offset = omega (
        arith,
        byte 0 (omega arith),
        byte 1 (omega arith),
        byte 6 (omega arith),
        byte 7 (omega arith),
        byte 8 (omega arith),
        byte 9 (omega arith),
        byte 10 (omega arith),
        byte 11 (omega arith),
        bit_and_mask 16 handler,
        bit_and_mask 16 (handler / 2 ^ 16),
      );
      selector = omega (arith, byte 2 (omega arith), byte 3 (omega arith));
      stack = byte 4 (omega arith);
      access = omega (arith, byte 5 (omega arith));
      reserved = omega (
        arith,
        byte 12 (omega arith),
        byte 13 (omega arith),
        byte 14 (omega arith),
        byte 15 (omega arith),
      );
    }

-- `idt_set_gate_interrupt`, for one of the 256 interrupts and the 64-bit address of a handler,
-- writes a gate from which the processor reads a present interrupt gate that leads to the handler
-- through the kernel's code selector, with the low two bits of the ring asked for, and changes no
-- byte of another gate or behind the table.
pub idt_set_gate_interrupt-IsGate :
    (interrupt dpl handler : ℕ) (idt : Memory)
    → interrupt < 256
    → handler < 2 ^ 64
    → let idt' = idt_set_gate_interrupt interrupt dpl handler idt in
      IsGate idt' (16 * interrupt) (dpl % 4) handler
      × ((i k : ℕ) → i ≢ interrupt → k < 16 → idt' (16 * i + k) ≡ idt (16 * i + k))
      × ((a : ℕ) → 256 * 16 ≤ a → idt' a ≡ idt a)
unfolding idt_set_gate_interrupt
idt_set_gate_interrupt-IsGate interrupt dpl handler idt lt h = (
  IsGate-write_bytes idt (16 * interrupt) dpl handler h,
  λ i k ne hk. gate_outside (16 * i + k) (omega arith),
  λ a far. gate_outside a (omega arith),
)
  where
    gate_outside :
        (a : ℕ)
        → (a < 16 * interrupt) ⊎ (16 * interrupt + 16 ≤ a)
        → write_bytes idt (16 * interrupt) (gate_bytes (gate dpl handler)) a ≡ idt a
    gate_outside a o =
        unfold gate_bytes in
        write_bytes_outside idt (16 * interrupt) (gate_bytes (gate dpl handler)) a o
