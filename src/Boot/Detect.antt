-- ===== src/Boot/Detect.antt =====
-- The memory maps that `memory_detect` builds.
use mathlib.Core.List.{append_assoc, append-nil}
use native.Mathlib.Nat.{zero-add}
use fusee_os.Base.{
  ℕ, zero, suc, ◌+◌, ◌^◌, ◌%◌, ◌<◌, ◌≡◌, ◌≢◌, refl, sym, ◌∙◌, ap, arith, true, false, ◌&&◌, not,
  some, List, [], ◌∷◌, ◌++◌, length, length-append, ltb, leb, le→ltb, ◌≤◌, ltb→lt, ltb→le, ◌==◌,
  if◌then◌else◌, Bool-cases, inl, inr,
}
use fusee_os.Phys.{Region}
use fusee_os.Boot.{E820, Maps, lomem_end, above_lomem, add_region, detect_from, memory_detect}

-- How many of the regions an address lies in.
abbrev pub covers : ℕ → ℕ → ℕ → ℕ
covers base size x = if leb base x && ltb x (base + size) then 1 else 0

abbrev pub times : List Region → ℕ → ℕ
times [] x = 0
times (r ∷ rs) x = covers r.base r.size x + times rs x

pub times-append : (rs qs : List Region) (x : ℕ) → times (rs ++ qs) x ≡ times rs x + times qs x
times-append [] qs x = omega arith
times-append (r ∷ rs) qs x = omega (arith, times-append rs qs x)

-- The regions of usable memory among answers.
abbrev pub usable : List E820 → List Region
usable [] = []
usable (mem ∷ mems) =
    if not (mem.size == 0) && (mem.type == 1)
    then record { base = mem.base; size = mem.size } ∷ usable mems
    else usable mems

abbrev pub AreSmall : List E820 → Type 0
AreSmall [] = Unit
AreSmall (mem ∷ mems) = (mem.base + mem.size < 2 ^ 64) × AreSmall mems

pub add_all : List E820 → Maps → Maps
add_all [] p = p
add_all (mem ∷ mems) p = add_all mems (add_region mem p)

module _ (bios : ℕ → E820) where
  -- The BIOS gives the answers `mems` from EBX on: it fails at last, or its last answer has EBX
  -- zero.
  pub data Reports : ℕ → List E820 → Type 0 where
    fails : {ebx : ℕ} → (bios ebx).failed ≡ true → Reports ebx []
    other : {ebx : ℕ} → (bios ebx).eax ≢ 0x534d_4150 → Reports ebx []
    final :
        {ebx : ℕ}
        → (bios ebx).failed ≡ false
        → (bios ebx).eax ≡ 0x534d_4150
        → (bios ebx).ebx ≡ 0
        → Reports ebx (bios ebx ∷ [])
    more :
        {ebx : ℕ} {mems : List E820}
        → (bios ebx).failed ≡ false
        → (bios ebx).eax ≡ 0x534d_4150
        → (bios ebx).ebx ≢ 0
        → Reports (bios ebx).ebx mems
        → Reports ebx (bios ebx ∷ mems)

-- One answer, with the addresses counted.
times-above_lomem :
    (base size x : ℕ)
    → base + size < 2 ^ 64
    → lomem_end < base + size
    → covers (above_lomem base size).base (above_lomem base size).size x
      ≡ (if leb lomem_end x then covers base size x else 0)
unfolding above_lomem
times-above_lomem base size x fits high = elim (Bool-cases (ltb base lomem_end)) [
  | inl e ↦ rw e (ground arith)
  | inr e ↦ rw e (ground arith)
]

-- What one answer adds to the maps.
mem_map-add_region :
    (mem : E820) (p : Maps) → (add_region mem p).mem_map ≡ p.mem_map ++ usable (mem ∷ [])
unfolding add_region
mem_map-add_region mem p = elim (Bool-cases (not (mem.size == 0) && (mem.type == 1))) [
  | inl e ↦ rw e refl
  | inr e ↦ rw e (sym (append-nil p.mem_map))
]

times-add_region :
    (mem : E820) (p : Maps) (x : ℕ)
    → mem.base + mem.size < 2 ^ 64
    → times (add_region mem p).mem_free x
      ≡ times p.mem_free x + (if leb lomem_end x then times (usable (mem ∷ [])) x else 0)
unfolding add_region
times-add_region mem p x fits = elim (Bool-cases (not (mem.size == 0) && (mem.type == 1))) [
  | inr e ↦ rw e (ground arith)
  | inl e ↦
      let whole : (mem.base + mem.size) % 2 ^ 64 ≡ mem.base + mem.size = omega arith in
      rw (e, whole)
        (elim (Bool-cases (ltb lomem_end (mem.base + mem.size))) [
          | inl high ↦
              let above = times-above_lomem mem.base mem.size x fits (ltb→lt _ _ high) in
              rw high (
                times-append p.mem_free (above_lomem mem.base mem.size ∷ []) x
                ∙ ground (arith, above))
          | inr low ↦ let below = ltb→le _ _ low in rw low (ground arith)
        ])
]

usable_split :
    (mem : E820) (mems : List E820) → usable (mem ∷ []) ++ usable mems ≡ usable (mem ∷ mems)
usable_split mem mems = elim (Bool-cases (not (mem.size == 0) && (mem.type == 1))) [
  | inl e ↦ rw e refl
  | inr e ↦ rw e refl
]

-- The lengths of the maps.
length-add_region :
    (mem : E820) (p : Maps)
    → (length (add_region mem p).mem_map ≡ length p.mem_map + length (usable (mem ∷ [])))
      × (length (add_region mem p).mem_free ≤ length p.mem_free + length (usable (mem ∷ [])))
length-add_region mem p = (
  ap length (mem_map-add_region mem p) ∙ length-append p.mem_map (usable (mem ∷ [])),
  unfold add_region in
      ground (arith, length-append p.mem_free (above_lomem mem.base mem.size ∷ [])),
)

length-usable :
    (mem : E820) (mems : List E820)
    → length (usable (mem ∷ mems)) ≡ length (usable (mem ∷ [])) + length (usable mems)
length-usable mem mems =
    ap length (sym (usable_split mem mems)) ∙ length-append (usable (mem ∷ [])) (usable mems)

-- Both maps have room for `n` more regions.
abbrev HaveRoom : Maps → ℕ → Type 0
HaveRoom p n = (length p.mem_map + n ≤ 64) × (length p.mem_free + n ≤ 64)

HaveRoom-add_region :
    (mem : E820) (mems : List E820) (p : Maps)
    → HaveRoom p (length (usable (mem ∷ mems)))
    → HaveRoom (add_region mem p) (length (usable mems))
HaveRoom-add_region mem mems p h = omega (arith, length-add_region mem p, length-usable mem mems, h)

module _ (bios : ℕ → E820) where
  step :
      (f ebx : ℕ) (p : Maps)
      → (bios ebx).failed ≡ false
      → (bios ebx).eax ≡ 0x534d_4150
      → HaveRoom (add_region (bios ebx) p) 0
      → detect_from bios (suc f) ebx p ≡ (
          if (bios ebx).ebx == 0
          then some (add_region (bios ebx) p)
          else detect_from bios f (bios ebx).ebx (add_region (bios ebx) p))
  unfolding detect_from
  step f ebx p a b room =
      rw
        (
          le→ltb 64 (length (add_region (bios ebx) p).mem_map) (omega (arith, room)),
          le→ltb 64 (length (add_region (bios ebx) p).mem_free) (omega (arith, room)),
        )
        (ground (arith, a, b))

  detect_from-add_all :
      (f : ℕ) {ebx : ℕ} {mems : List E820} (p : Maps)
      → Reports bios ebx mems
      → HaveRoom p (length (usable mems))
      → length mems < f
      → detect_from bios f ebx p ≡ some (add_all mems p)
  unfolding add_all
  detect_from-add_all zero p r room h = absurd (omega arith)
  detect_from-add_all (suc f) p (fails e) room h = unfold detect_from in ground arith
  detect_from-add_all (suc f) p (other e) room h = unfold detect_from in ground arith
  detect_from-add_all (suc f) {ebx} p (final a b c) room h =
      let room' = HaveRoom-add_region (bios ebx) [] p room in
      step f ebx p a b (omega (arith, room')) ∙ ground (arith, c)
  detect_from-add_all (suc f) {ebx} p (more {mems = mems} a b c r) room h =
      let room' = HaveRoom-add_region (bios ebx) mems p room in
      step f ebx p a b (omega (arith, room'))
      ∙ ground (arith, c, detect_from-add_all f (add_region (bios ebx) p) r room' (omega arith))

mem_map-add_all :
    (mems : List E820) (p : Maps) → (add_all mems p).mem_map ≡ p.mem_map ++ usable mems
unfolding add_all
mem_map-add_all [] p = sym (append-nil p.mem_map)
mem_map-add_all (mem ∷ mems) p =
    mem_map-add_all mems (add_region mem p)
    ∙ ap (λ rs. rs ++ usable mems) (mem_map-add_region mem p)
    ∙ append_assoc p.mem_map (usable (mem ∷ [])) (usable mems)
    ∙ ap (λ rs. p.mem_map ++ rs) (usable_split mem mems)

times-add_all :
    (mems : List E820) (p : Maps) (x : ℕ)
    → AreSmall mems
    → times (add_all mems p).mem_free x
      ≡ times p.mem_free x + (if leb lomem_end x then times (usable mems) x else 0)
unfolding add_all
times-add_all [] p x s = ground arith
times-add_all (mem ∷ mems) p x s =
    let one = times-add_region mem p x s.0 in
    let rest = times-add_all mems (add_region mem p) x s.1 in
    let split = ap (λ rs. times rs x) (usable_split mem mems) in
    let sum = times-append (usable (mem ∷ [])) (usable mems) x in
    elim (Bool-cases (leb lomem_end x)) [
      | inl e ↦
          let one' = rw e at one in
          let rest' = rw e at rest in rw e (omega (arith, one', rest', split, sum))
      | inr e ↦
          let one' = rw e at one in let rest' = rw e at rest in rw e (omega (arith, one', rest'))
    ]

-- If the BIOS reports a finite row of regions, none of them past the end of the addresses and at
-- most 64 of them usable, which is the room of the maps, `memory_detect` returns on any fuel beyond
-- their number: `mem_map` has the regions of usable memory that are not empty, in order, and an
-- address lies in as many regions of `mem_free` as in those of `mem_map`, except that none has an
-- address below 16 MiB.
pub memory_detect-times :
    (bios : ℕ → E820) (mems : List E820) (f : ℕ)
    → Reports bios 0 mems
    → AreSmall mems
    → length (usable mems) ≤ 64
    → length mems < f
    → (maps : Maps) × (memory_detect bios f ≡ some maps)
      × (maps.mem_map ≡ usable mems)
      × ((x : ℕ) → times maps.mem_free x ≡ (if leb 0x1000000 x then times maps.mem_map x else 0))
unfolding memory_detect
memory_detect-times bios mems f r s room h =
    let none_yet : Maps = record { mem_map = []; mem_free = [] } in
    let same = mem_map-add_all mems none_yet in
    (
      add_all mems none_yet,
      detect_from-add_all bios f none_yet r (omega arith, omega arith) h,
      same,
      λ x.
          times-add_all mems none_yet x s
          ∙ zero-add (if leb 0x1000000 x then times (usable mems) x else 0)
          ∙ ap (λ (rs : List Region). if leb 0x1000000 x then times rs x else 0) (sym same),
    )
