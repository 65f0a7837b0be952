-- ===== src/Video.antt =====
-- The screen, src/libboot/video/video.c, text.c and gfx.c. The framebuffer is a function of the
-- index of a cell in text mode, and of the address of a pixel in graphical mode.
pub mod Cursor
pub mod Scroll
mod Tests
pub mod Samples
use fusee_os.Base.{
  ℕ, zero, suc, ◌+◌, ◌-◌, ◌*◌, ◌/◌, ◌%◌, ◌^◌, bit_and, bit_or, Bool, true, false, List, [], ◌∷◌,
  ◌==◌, if◌then◌else◌, u8, u16, u32, sub32, store, ◌<<<◌,
}

abbrev pub font_w : ℕ
font_w = 8

abbrev pub font_h : ℕ
font_h = 8

-- VIDEO_MODE_TEXT and VIDEO_MODE_GFX
pub data VideoMode : Type 0 where
  mode_text mode_gfx : VideoMode

-- `BootVideo`, with the contents of its framebuffer.
pub record Video : Type 0 where
  pub mode : VideoMode
  pub width : ℕ
  pub height : ℕ
  pub bpp : ℕ
  pub pitch : ℕ
  pub text_cursor_x : ℕ
  pub text_cursor_y : ℕ
  pub text_max_x : ℕ
  pub text_max_y : ℕ
  pub framebuffer : ℕ
  pub buf : ℕ → ℕ

-- `buf[y * v->text_max_x + x] = 0x0f00 | (c & 0xff)`. The index is an `int`, cut at its width here;
-- C defines it below 2^31.
pub video_text_putchar : ℕ → ℕ → ℕ → Video → Video
video_text_putchar c x y v = record v {
  buf = store v.buf (u32 (y * v.text_max_x + x)) (bit_or 0x0f00 (bit_and c 0xff));
}

-- The loop that moves the rows up, from index `i` with `n` rounds left.
pub move_rows : ℕ → ℕ → ℕ → (ℕ → ℕ) → ℕ → ℕ
move_rows zero i max_x buf = buf
move_rows (suc n) i max_x buf = move_rows n (i + 1) max_x (store buf i (buf (i + max_x)))

-- The loop that clears the last row.
pub clear_row : ℕ → ℕ → ℕ → (ℕ → ℕ) → ℕ → ℕ
clear_row zero i tmp buf = buf
clear_row (suc n) i tmp buf = clear_row n (i + 1) tmp (store buf (tmp + i) 0)

-- `tmp` is an `int`, cut at its width here; C defines it below 2^31.
pub video_text_scroll : Video → Video
video_text_scroll v =
    let tmp = u32 (v.text_max_x * (v.text_max_y - 1)) in
    record v { buf = clear_row v.text_max_x 0 tmp (move_rows tmp 0 v.text_max_x v.buf) }

-- The first test of `video_putchar`. The cursor fields are `uint16_t`.
pub wrap_line : Video → Video
wrap_line v =
    if v.text_cursor_x == v.text_max_x
    then record v { text_cursor_x = 0; text_cursor_y = u16 (v.text_cursor_y + 1) }
    else v

-- `gFont` is the table of src/libboot/video/font.c.
module _ (font : ℕ → ℕ) where
  -- A row of a glyph, from pixel `i` with `n` pixels left.
  pub draw_row : ℕ → ℕ → ℕ → ℕ → (ℕ → ℕ) → ℕ → ℕ
  draw_row zero i bits ptr buf = buf
  draw_row (suc n) i bits ptr buf =
      draw_row n (i + 1) bits ptr
        (store buf (ptr + 4 * i) (if bit_and bits (1 <<< i) == 0 then 0 else 0xffff_ffff))

  pub draw_rows : ℕ → ℕ → ℕ → ℕ → ℕ → (ℕ → ℕ) → ℕ → ℕ
  draw_rows zero j glyph pitch ptr buf = buf
  draw_rows (suc n) j glyph pitch ptr buf =
      draw_rows n (j + 1) glyph pitch (ptr + pitch) (draw_row font_w 0 (font (glyph + j)) ptr buf)

  pub video_gfx_putchar : ℕ → ℕ → ℕ → Video → Video
  video_gfx_putchar c x y v =
      let ptr = v.framebuffer + u32 (y * font_h * v.pitch) + x * font_w * 4 in
      record v { buf = draw_rows font_h 0 (u8 c * font_h) v.pitch ptr v.buf }

  pub video_gfx_scroll : Video → Video
  video_gfx_scroll v = v

  -- `handler->putchar` and `handler->scroll`, by the mode.
  pub handler_putchar : VideoMode → ℕ → ℕ → ℕ → Video → Video
  handler_putchar mode_text = video_text_putchar
  handler_putchar mode_gfx = video_gfx_putchar

  pub handler_scroll : VideoMode → Video → Video
  handler_scroll mode_text = video_text_scroll
  handler_scroll mode_gfx = video_gfx_scroll

  -- The second test and the switch of `video_putchar`.
  pub scroll_down : VideoMode → Video → Video
  scroll_down mode v =
      if v.text_cursor_y == v.text_max_y
      then handler_scroll mode
          (record v { text_cursor_y = (v.text_cursor_y + 2 ^ 16 - 1) % 2 ^ 16 })
      else v

  pub put : VideoMode → ℕ → Video → Video
  put mode c v =
      if c == 10
      then record v { text_cursor_x = 0; text_cursor_y = u16 (v.text_cursor_y + 1) }
      else let v' = handler_putchar mode c v.text_cursor_x v.text_cursor_y v in
        record v' { text_cursor_x = u16 (v'.text_cursor_x + 1) }

  pub video_putchar : ℕ → Video → Video
  video_putchar c v = put v.mode c (scroll_down v.mode (wrap_line v))

  -- `print` of a string.
  pub print : List ℕ → Video → Video
  print [] v = v
  print (c ∷ cs) v = print cs (video_putchar c v)

pub scroll_times : ℕ → Video → Video
scroll_times zero v = v
scroll_times (suc n) v = scroll_times n (video_text_scroll v)

pub video_init : Video → Video
video_init v = scroll_times 25 (record v {
  mode = mode_text;
  text_cursor_x = 0;
  text_cursor_y = 0;
  text_max_x = 80;
  text_max_y = 25;
  framebuffer = 0xb8000;
})

pub video_set_graphical_mode : ℕ → ℕ → ℕ → ℕ → ℕ → Video → Video
video_set_graphical_mode framebuffer width height bpp pitch v = record v {
  mode = mode_gfx;
  framebuffer = framebuffer;
  width = width;
  height = height;
  bpp = bpp;
  pitch = pitch;
  text_cursor_x = 0;
  text_cursor_y = 0;
  text_max_x = width / font_w;
  text_max_y = height / font_h;
}
