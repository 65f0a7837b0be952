-- ===== src/Video/Tests.antt =====
-- A screen of three columns and two rows, and the theorems there.
use fusee_os.Base.{ℕ, refl, arith, inl, [], ◌∷◌}
use fusee_os.Video.{video_putchar, video_text_scroll, print}
use fusee_os.Video.Scroll.{IsScrolled, video_text_scroll-IsScrolled}
use fusee_os.Video.Cursor.{
  IsCursor, Stays, IsPrinted, video_putchar-Stays, video_putchar-IsPrinted, print-Stays,
}
use fusee_os.Video.Samples.{screen}

abbrev blank_font : ℕ → ℕ
blank_font i = 0

screen-IsCursor : IsCursor screen
screen-IsCursor = record {
  columns = omega arith;
  rows = omega arith;
  narrow = omega arith;
  low = omega arith;
  cells = omega arith;
  cursor_x = omega arith;
  cursor_y = inl (omega arith);
}

video_text_scroll-IsScrolled_example : IsScrolled 3 2 screen.buf (video_text_scroll screen).buf
video_text_scroll-IsScrolled_example =
    video_text_scroll-IsScrolled screen (omega arith) (omega arith) (omega arith)

abbrev letter : ℕ
letter = 65

video_putchar-Stays_example : Stays screen (video_putchar blank_font letter screen)
video_putchar-Stays_example = video_putchar-Stays blank_font letter screen screen-IsCursor

video_putchar-IsPrinted_example : IsPrinted letter (video_putchar blank_font letter screen)
video_putchar-IsPrinted_example =
    video_putchar-IsPrinted blank_font letter screen screen-IsCursor refl (omega arith)

print-Stays_example : Stays screen (print blank_font (65 ∷ 10 ∷ 66 ∷ []) screen)
print-Stays_example = print-Stays blank_font (65 ∷ 10 ∷ 66 ∷ []) screen screen-IsCursor
