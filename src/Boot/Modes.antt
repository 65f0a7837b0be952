-- ===== src/Boot/Modes.antt =====
-- The video mode that the bootloader chooses.
use fusee_os.Base.{
  ℕ, ◌≤◌, ◌≡◌, ◌≢◌, refl, sym, ◌∙◌, arith, Bool, true, false, ◌&&◌, Option, none, some, List, [],
  ◌∷◌, leb, ◌==◌, if◌then◌else◌, Bool-cases, inl, inr, ◌⊎◌, ==→eq, ==→ne, bit_or,
}
use fusee_os.Video.{Video, video_set_graphical_mode}
use fusee_os.Boot.{VbeVideoMode, Choice, is_usable, choose, try_modes, vbe_try_modes}

module _ (info : ℕ → VbeVideoMode) (max_width max_height : ℕ) where
  abbrev pub usable_mode : ℕ → Bool
  usable_mode m = is_usable info max_width max_height (info m)

  -- Every mode of a list, and some mode of a list.
  abbrev pub AllModes : (ℕ → Type 0) → List ℕ → Type 0
  AllModes P [] = Unit
  AllModes P (m ∷ ms) = P m × AllModes P ms

  abbrev pub SomeMode : (ℕ → Type 0) → List ℕ → Type 0
  SomeMode P [] = ⊥
  SomeMode P (m ∷ ms) = P m ⊎ SomeMode P ms

  -- A mode of the list is no end mark, and is at least as wide as high.
  abbrev pub IsLandscape : ℕ → Type 0
  IsLandscape m = (m ≢ 0xffff) × ((info m).yres ≤ (info m).xres)

  -- The choice so far: none, or a usable mode with its size.
  pub record IsChoice (c : Choice) : Type 0 where
    pub shape : c.mode_height ≤ c.mode_width
    pub origin :
        ((c.mode ≡ 0xffff) × (c.mode_width ≡ 0) × (c.mode_height ≡ 0))
        ⊎ ((usable_mode c.mode ≡ true) × (c.mode ≢ 0xffff) × (c.mode_width ≡ (info c.mode).xres))

  -- The choice `c` among the modes `ms` and the earlier choice.
  pub record Chooses (ms : List ℕ) (before c : Choice) : Type 0 where
    pub choice : IsChoice c
    pub grown : before.mode_width ≤ c.mode_width
    pub kept : (before.mode ≡ 0xffff) ⊎ (c.mode ≢ 0xffff)
    pub listed : (c.mode ≡ before.mode) ⊎ SomeMode (λ m. m ≡ c.mode) ms
    pub widest :
        AllModes
          (λ m. (usable_mode m ≡ false) ⊎ (((info m).xres ≤ c.mode_width) × (c.mode ≢ 0xffff)))
          ms

  abbrev pub next : ℕ → Choice → Choice
  next m c = if usable_mode m then choose info m (info m) c else c

  next-Chooses : (m : ℕ) (c : Choice) → IsLandscape m → IsChoice c → Chooses (m ∷ []) c (next m c)
  unfolding choose
  next-Chooses m c l v = elim (Bool-cases (usable_mode m)) [
    | inr e ↦ rw e (record {
      choice = v;
      grown = omega arith;
      kept = omega arith;
      listed = inl refl;
      widest = (inl e, tt);
    })
    | inl e ↦
        rw e
          (elim (Bool-cases (leb c.mode_width (info m).xres && leb c.mode_height (info m).xres)) [
            | inl t ↦ rw t (record {
              choice = record { shape = l.1; origin = inr (e, l.0, refl) };
              grown = ground arith;
              kept = inr l.0;
              listed = inr (inl refl);
              widest = (inr (omega arith, l.0), tt);
            })
            | inr f ↦ rw f (record {
              choice = v;
              grown = omega arith;
              kept = omega arith;
              listed = inl refl;
              widest = (inr (ground arith, λ none_yet. ground arith), tt);
            })
          ])
  ]

  -- The first mode, then the others.
  join :
      (m : ℕ) (ms : List ℕ) (c d e : Choice)
      → Chooses (m ∷ []) c d
      → Chooses ms d e
      → Chooses (m ∷ ms) c e
  join m ms c d e one rest = record {
    choice = rest.choice;
    grown = omega (arith, one.grown, rest.grown);
    kept = ground (arith, one.kept, rest.kept);
    listed = from rest.listed one.listed;
    widest = (ground (arith, one.widest.0, rest.grown, rest.kept), rest.widest);
  }
    where
      from :
          (e.mode ≡ d.mode) ⊎ SomeMode (λ k. k ≡ e.mode) ms
          → (d.mode ≡ c.mode) ⊎ SomeMode (λ k. k ≡ d.mode) (m ∷ [])
          → (e.mode ≡ c.mode) ⊎ SomeMode (λ k. k ≡ e.mode) (m ∷ ms)
      from (inr later) old = inr (inr later)
      from (inl same) (inl before) = inl (same ∙ before)
      from (inl same) (inr (inl here)) = inr (inl (here ∙ sym same))
      from (inl same) (inr (inr nothing)) = absurd nothing

  try_modes-Chooses :
      (ms : List ℕ) (c : Choice)
      → AllModes IsLandscape ms
      → IsChoice c
      → Chooses ms c (try_modes info max_width max_height ms c)
  unfolding try_modes
  try_modes-Chooses [] c l v = record {
    choice = v;
    grown = omega arith;
    kept = omega arith;
    listed = inl refl;
    widest = tt;
  }
  try_modes-Chooses (m ∷ ms) c l v =
      let one = next-Chooses m c l.0 v in
      let rest = try_modes-Chooses ms (next m c) l.1 one.choice in
      join m ms c (next m c) (try_modes info max_width max_height ms (next m c)) one rest

  -- What is set of the modes `ms`: nothing, if none is usable; or a usable mode of them that is as
  -- wide as every usable one, with its screen.
  pub data Sets (ms : List ℕ) (video : Video) : Option ℕ × Video → Type 0 where
    unset : AllModes (λ m. usable_mode m ≡ false) ms → Sets ms video (none, video)
    mode_set :
        (mode : ℕ)
        → usable_mode mode ≡ true
        → SomeMode (λ m. m ≡ mode) ms
        → AllModes (λ m. (usable_mode m ≡ false) ⊎ ((info m).xres ≤ (info mode).xres)) ms
        → Sets ms video (
          some (bit_or mode 0x4000),
          video_set_graphical_mode
              (info mode).physbase
              (info mode).xres
              (info mode).yres
              (info mode).bpp
              (info mode).pitch
              video,
        )

  -- No mode was usable.
  none_usable :
      (ms : List ℕ) (c : Choice)
      → c.mode ≡ 0xffff
      → AllModes
          (λ m. (usable_mode m ≡ false) ⊎ (((info m).xres ≤ c.mode_width) × (c.mode ≢ 0xffff)))
          ms
      → AllModes (λ m. usable_mode m ≡ false) ms
  none_usable [] c e a = tt
  none_usable (m ∷ ms) c e a = (ground (arith, a.0), none_usable ms c e a.1)

  as_wide :
      (ms : List ℕ) (c : Choice) (width : ℕ)
      → c.mode_width ≡ width
      → AllModes
          (λ m. (usable_mode m ≡ false) ⊎ (((info m).xres ≤ c.mode_width) × (c.mode ≢ 0xffff)))
          ms
      → AllModes (λ m. (usable_mode m ≡ false) ⊎ ((info m).xres ≤ width)) ms
  as_wide [] c width e a = tt
  as_wide (m ∷ ms) c width e a = (ground (arith, a.0), as_wide ms c width e a.1)

  chosen :
      (c : Choice)
      → c.mode ≢ 0xffff
      → IsChoice c
      → (usable_mode c.mode ≡ true) × (c.mode ≢ 0xffff) × (c.mode_width ≡ (info c.mode).xres)
  chosen c ne v = elim v.origin [ inl none_yet ↦ absurd (ne none_yet.0) | inr is_set ↦ is_set ]

  found :
      (ms : List ℕ) (c start : Choice)
      → start.mode ≡ 0xffff
      → c.mode ≢ 0xffff
      → (c.mode ≡ start.mode) ⊎ SomeMode (λ m. m ≡ c.mode) ms
      → SomeMode (λ m. m ≡ c.mode) ms
  found ms c start e ne (inl same) = absurd (ne (same ∙ e))
  found ms c start e ne (inr there) = there

  -- Of modes that are no end mark and at least as wide as high, `vbe_try_modes` sets a usable one
  -- that is as wide as every usable one, or none, and then none is usable and the screen stays as
  -- it was.
  pub vbe_try_modes-Sets :
      (ms : List ℕ) (video : Video)
      → AllModes IsLandscape ms
      → Sets ms video (vbe_try_modes info max_width max_height ms video)
  unfolding vbe_try_modes
  vbe_try_modes-Sets ms video l =
      let start : Choice = record { mode = 0xffff; mode_width = 0; mode_height = 0 } in
      let c = try_modes info max_width max_height ms start in
      let done =
        try_modes-Chooses ms start l
          (record { shape = omega arith; origin = inl (refl, refl, refl) }) in
      elim (Bool-cases (c.mode == 0xffff)) [
        | inl e ↦ rw e (unset (none_usable ms c (==→eq _ _ e) done.widest))
        | inr e ↦
            let ne = ==→ne c.mode 0xffff e in
            let (ok, _, width) = chosen c ne done.choice in
            rw e (
              mode_set c.mode ok (found ms c start refl ne done.listed)
                (as_wide ms c (info c.mode).xres width done.widest))
      ]
