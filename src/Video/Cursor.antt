-- ===== src/Video/Cursor.antt =====
-- The cursor of `video_putchar` and the cells it writes.
use fusee_os.Base.{
  ℕ, ◌%◌, ◌+◌, ◌-◌, ◌*◌, ◌^◌, ◌≤◌, ◌<◌, ◌≡◌, refl, ◌⊎◌, inl, inr, arith, ◌∙◌, sym, Bool-cases, ◌==◌,
  ==→eq, ==→ne, ◌≢◌, u16, u32, List, [], ◌∷◌, bit_or, bit_and,
}
use fusee_os.Video.{
  Video, VideoMode, mode_text, mode_gfx, wrap_line, scroll_down, put, video_putchar, print,
  handler_scroll, handler_putchar, video_text_scroll, video_text_putchar, video_gfx_putchar,
  video_gfx_scroll,
}
use fusee_os.Video.Scroll.{row-lt, video_text_scroll-IsScrolled}

-- The cursor is on the screen, or just past the end of a line or of the last line.
pub record IsCursor (v : Video) : Type 0 where
  pub columns : 0 < v.text_max_x
  pub rows : 0 < v.text_max_y
  pub narrow : v.text_max_x < 2 ^ 16
  pub low : v.text_max_y < 2 ^ 16
  pub cells : v.text_max_y * v.text_max_x < 2 ^ 31
  pub cursor_x : v.text_cursor_x ≤ v.text_max_x
  pub cursor_y :
      (v.text_cursor_y < v.text_max_y) ⊎ ((v.text_cursor_y ≡ v.text_max_y) × (v.text_cursor_x ≡ 0))

-- What a call leaves of the screen `v`: its mode and size, a cursor in place, and in text mode
-- every cell behind the end of the screen.
pub record Stays (v w : Video) : Type 0 where
  pub cursor : IsCursor w
  pub same_mode : w.mode ≡ v.mode
  pub same_columns : w.text_max_x ≡ v.text_max_x
  pub same_rows : w.text_max_y ≡ v.text_max_y
  pub outside : v.mode ≡ mode_text → (i : ℕ) → v.text_max_y * v.text_max_x ≤ i → w.buf i ≡ v.buf i

pub Stays-refl : (v : Video) → IsCursor v → Stays v v
Stays-refl v c = record {
  cursor = c;
  same_mode = refl;
  same_columns = refl;
  same_rows = refl;
  outside = λ m i h. refl;
}

pub Stays-trans : (u v w : Video) → Stays u v → Stays v w → Stays u w
Stays-trans u v w s t = record {
  cursor = t.cursor;
  same_mode = t.same_mode ∙ s.same_mode;
  same_columns = t.same_columns ∙ s.same_columns;
  same_rows = t.same_rows ∙ s.same_rows;
  outside =
      λ m i h. t.outside (s.same_mode ∙ m) i (rw (s.same_columns, s.same_rows) h) ∙ s.outside m i h;
}

wrapped : Video → Video
wrapped v = record v { text_cursor_x = 0; text_cursor_y = u16 (v.text_cursor_y + 1) }

wrap_line-Stays :
    (v : Video)
    → IsCursor v
    → (Stays v (wrap_line v)) × ((wrap_line v).text_cursor_x < v.text_max_x)
unfolding wrap_line
wrap_line-Stays v c = elim (Bool-cases (v.text_cursor_x == v.text_max_x)) [
  | inl e ↦
      let at_end = ==→eq v.text_cursor_x v.text_max_x e in
      let in_rows : v.text_cursor_y < v.text_max_y = omega arith in
      rw e (
        record {
          cursor = record {
            columns = c.columns;
            rows = c.rows;
            narrow = c.narrow;
            low = c.low;
            cells = c.cells;
            cursor_x = omega arith;
            cursor_y = omega arith;
          };
          same_mode = refl;
          same_columns = refl;
          same_rows = refl;
          outside = λ m i h. refl;
        },
        c.columns,
      )
  | inr e ↦
      let not_at_end = ==→ne v.text_cursor_x v.text_max_x e in rw e (Stays-refl v c, omega arith)
]

-- The screen once the cursor has stepped up, before the handler scrolls.
stepped : Video → Video
stepped v = record v { text_cursor_y = (v.text_cursor_y + 2 ^ 16 - 1) % 2 ^ 16 }

stepped-IsCursor : (v : Video) → IsCursor v → v.text_cursor_y ≡ v.text_max_y → IsCursor (stepped v)
unfolding stepped
stepped-IsCursor v c e = record {
  columns = c.columns;
  rows = c.rows;
  narrow = c.narrow;
  low = c.low;
  cells = c.cells;
  cursor_x = c.cursor_x;
  cursor_y = omega arith;
}

text≢gfx : mode_text ≢ mode_gfx
text≢gfx e = cc

-- A handler's scroll moves no field but the cells.
scrolled-Stays :
    (font : ℕ → ℕ) (mode : VideoMode) (v : Video)
    → v.mode ≡ mode
    → IsCursor v
    → let w = handler_scroll font mode v in
      (Stays v w) × (w.text_cursor_x ≡ v.text_cursor_x) × (w.text_cursor_y ≡ v.text_cursor_y)
unfolding handler_scroll video_text_scroll video_gfx_scroll
scrolled-Stays font mode_text v m c = (
  record {
    cursor = record {
      columns = c.columns;
      rows = c.rows;
      narrow = c.narrow;
      low = c.low;
      cells = c.cells;
      cursor_x = c.cursor_x;
      cursor_y = c.cursor_y;
    };
    same_mode = refl;
    same_columns = refl;
    same_rows = refl;
    outside = λ e i h. (video_text_scroll-IsScrolled v c.columns c.rows c.cells).outside i h;
  },
  refl,
  refl,
)
scrolled-Stays font mode_gfx v m c = (Stays-refl v c, refl, refl)

stepped-Stays : (v : Video) → IsCursor v → v.text_cursor_y ≡ v.text_max_y → Stays v (stepped v)
unfolding stepped
stepped-Stays v c e = record {
  cursor = stepped-IsCursor v c e;
  same_mode = refl;
  same_columns = refl;
  same_rows = refl;
  outside = λ m i h. refl;
}

scroll_down-Stays :
    (font : ℕ → ℕ) (mode : VideoMode) (v : Video)
    → v.mode ≡ mode
    → IsCursor v
    → v.text_cursor_x < v.text_max_x
    → let w = scroll_down font mode v in
      (Stays v w) × (w.text_cursor_x < w.text_max_x) × (w.text_cursor_y < w.text_max_y)
unfolding scroll_down stepped
scroll_down-Stays font mode v m c left = elim (Bool-cases (v.text_cursor_y == v.text_max_y)) [
  | inl e ↦
      let at_end = ==→eq v.text_cursor_y v.text_max_y e in
      let (s, same_x, same_y) =
        scrolled-Stays font mode (stepped v) m (stepped-IsCursor v c at_end) in
      let up = stepped-Stays v c at_end in
      rw e (
        Stays-trans v (stepped v) (handler_scroll font mode (stepped v)) up s,
        rw (same_x, s.same_columns) left,
        rw (same_y, s.same_rows) (omega (arith, c.low, c.rows)),
      )
  | inr e ↦
      let not_at_end = ==→ne v.text_cursor_y v.text_max_y e in
      rw e (Stays-refl v c, left, omega arith)
]

-- The byte `c` is in the cell left of the cursor.
pub IsPrinted : ℕ → Video → Type 0
IsPrinted c w =
    (1 ≤ w.text_cursor_x)
    × (w.buf (w.text_cursor_y * w.text_max_x + (w.text_cursor_x - 1))
        ≡ bit_or 0x0f00 (bit_and c 0xff))

-- What `put` leaves, of a screen that has room at the cursor.
record Puts (mode : VideoMode) (c : ℕ) (v w : Video) : Type 0 where
  pub stays : Stays v w
  pub printed : mode ≡ mode_text → c ≢ 10 → IsPrinted c w

new_line-Stays : (v : Video) → IsCursor v → v.text_cursor_y < v.text_max_y → Stays v (wrapped v)
unfolding wrapped
new_line-Stays v c room = record {
  cursor = record {
    columns = c.columns;
    rows = c.rows;
    narrow = c.narrow;
    low = c.low;
    cells = c.cells;
    cursor_x = omega arith;
    cursor_y = omega arith;
  };
  same_mode = refl;
  same_columns = refl;
  same_rows = refl;
  outside = λ m i h. refl;
}

-- The index of a cell of the screen fits an `int`.
cell_fits :
    (v : Video)
    → IsCursor v
    → v.text_cursor_x < v.text_max_x
    → v.text_cursor_y < v.text_max_y
    → u32 (v.text_cursor_y * v.text_max_x + v.text_cursor_x)
      ≡ v.text_cursor_y * v.text_max_x + v.text_cursor_x
cell_fits v i left room =
    omega
      (arith, i.cells, row-lt v.text_cursor_x v.text_cursor_y v.text_max_x v.text_max_y left room)

-- The handler's `putchar` and the step of the cursor.
printed-Puts :
    (font : ℕ → ℕ) (mode : VideoMode) (c : ℕ) (v : Video)
    → v.mode ≡ mode
    → IsCursor v
    → v.text_cursor_x < v.text_max_x
    → v.text_cursor_y < v.text_max_y
    → let w = handler_putchar font mode c v.text_cursor_x v.text_cursor_y v in
      Puts mode c v (record w { text_cursor_x = u16 (w.text_cursor_x + 1) })
unfolding handler_putchar video_text_putchar video_gfx_putchar IsPrinted
printed-Puts font mode_text c v m i left room = record {
  stays = record {
    cursor = record {
      columns = i.columns;
      rows = i.rows;
      narrow = i.narrow;
      low = i.low;
      cells = i.cells;
      cursor_x = omega arith;
      cursor_y = omega arith;
    };
    same_mode = refl;
    same_columns = refl;
    same_rows = refl;
    outside = λ e k h.
        let inside = row-lt v.text_cursor_x v.text_cursor_y v.text_max_x v.text_max_y left room in
        let index = cell_fits v i left room in rw index (ground arith);
  };
  printed = λ e ne.
      let same : (v.text_cursor_x + 1) % 2 ^ 16 - 1 ≡ v.text_cursor_x = omega (arith, i.narrow) in
      (omega (arith, i.narrow), rw (same, cell_fits v i left room) (ground arith));
}
printed-Puts font mode_gfx c v m i left room = record {
  stays = record {
    cursor = record {
      columns = i.columns;
      rows = i.rows;
      narrow = i.narrow;
      low = i.low;
      cells = i.cells;
      cursor_x = omega arith;
      cursor_y = omega arith;
    };
    same_mode = refl;
    same_columns = refl;
    same_rows = refl;
    outside = λ e k h. absurd (text≢gfx (sym e ∙ m));
  };
  printed = λ e ne. absurd (text≢gfx (sym e));
}

put-Puts :
    (font : ℕ → ℕ) (mode : VideoMode) (c : ℕ) (v : Video)
    → v.mode ≡ mode
    → IsCursor v
    → v.text_cursor_x < v.text_max_x
    → v.text_cursor_y < v.text_max_y
    → Puts mode c v (put font mode c v)
unfolding put wrapped
put-Puts font mode c v m i left room = elim (Bool-cases (c == 10)) [
  | inl e ↦
      let is_new_line = ==→eq c 10 e in
      rw e
        (record { stays = new_line-Stays v i room; printed = λ text ne. absurd (ne is_new_line) })
  | inr e ↦ rw e (printed-Puts font mode c v m i left room)
]

video_putchar-Puts :
    (font : ℕ → ℕ) (c : ℕ) (v : Video)
    → IsCursor v
    → (Stays v (video_putchar font c v))
      × (v.mode ≡ mode_text → c ≢ 10 → IsPrinted c (video_putchar font c v))
unfolding video_putchar
video_putchar-Puts font c v i =
    let (a, left) = wrap_line-Stays v i in
    let (b, left', room) =
      scroll_down-Stays font v.mode (wrap_line v) a.same_mode a.cursor (rw a.same_columns left) in
    let w = scroll_down font v.mode (wrap_line v) in
    let ab = Stays-trans v (wrap_line v) w a b in
    let done = put-Puts font v.mode c w ab.same_mode ab.cursor left' room in
    (Stays-trans v w (put font v.mode c w) ab done.stays, done.printed)

-- On every screen of at most 65535 rows and columns and fewer than 2^31 cells whose cursor is on
-- it, or just past a line's or the last line's end, `video_putchar` keeps the cursor so, and the
-- mode and the size, whatever it wraps or scrolls; in text mode it writes no cell behind the end of
-- the screen.
pub video_putchar-Stays :
    (font : ℕ → ℕ) (c : ℕ) (v : Video) → IsCursor v → Stays v (video_putchar font c v)
video_putchar-Stays font c v i = (video_putchar-Puts font c v i).0

-- In text mode, on such a screen, a byte that is no newline is in the cell left of the cursor that
-- `video_putchar` leaves, whatever it wraps or scrolls.
pub video_putchar-IsPrinted :
    (font : ℕ → ℕ) (c : ℕ) (v : Video)
    → IsCursor v
    → v.mode ≡ mode_text
    → c ≢ 10
    → IsPrinted c (video_putchar font c v)
video_putchar-IsPrinted font c v i m ne = (video_putchar-Puts font c v i).1 m ne

-- A string printed on such a screen keeps its mode and size and a cursor in place, and in text mode
-- writes no cell behind the end of the screen.
pub print-Stays : (font : ℕ → ℕ) (cs : List ℕ) (v : Video) → IsCursor v → Stays v (print font cs v)
unfolding print
print-Stays font [] v i = Stays-refl v i
print-Stays font (c ∷ cs) v i =
    let s = video_putchar-Stays font c v i in
    Stays-trans v (video_putchar font c v) (print font cs (video_putchar font c v)) s
      (print-Stays font cs (video_putchar font c v) s.cursor)
