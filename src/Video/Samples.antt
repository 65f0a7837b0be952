-- ===== src/Video/Samples.antt =====
-- A screen of three columns and two rows for the tests.
use fusee_os.Video.{Video, mode_text}

abbrev pub screen : Video
screen = record {
  mode = mode_text;
  width = 0;
  height = 0;
  bpp = 0;
  pitch = 0;
  text_cursor_x = 3;
  text_cursor_y = 1;
  text_max_x = 3;
  text_max_y = 2;
  framebuffer = 0xb8000;
  buf = λ i. i;
}
