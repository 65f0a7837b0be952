-- ===== src/Video/Scroll.antt =====
-- What `video_text_scroll` leaves on the screen.
use fusee_os.Base.{
  ℕ, zero, suc, ◌+◌, ◌-◌, ◌*◌, ◌^◌, ◌≤◌, ◌<◌, u32, ◌≡◌, refl, ap, ◌⊎◌, inl, inr, arith, store, ◌∙◌,
  dec_lt,
}
use mathlib.Core.Path.{subst}
use native.Mathlib.Nat.{mul-le-mul_right}
use fusee_os.Video.{Video, move_rows, clear_row, video_text_scroll}

-- The cells of `after`: every row has the row below, the last one is blank, and nothing else moved.
pub record IsScrolled (max_x max_y : ℕ) (before after : ℕ → ℕ) : Type 0 where
  pub moved :
      (x y : ℕ) → x < max_x → y + 1 < max_y → after (y * max_x + x) ≡ before ((y + 1) * max_x + x)
  pub blank : (x : ℕ) → x < max_x → after ((max_y - 1) * max_x + x) ≡ 0
  pub outside : (i : ℕ) → max_y * max_x ≤ i → after i ≡ before i

move_rows_outside :
    (n i max_x : ℕ) (buf : ℕ → ℕ) (k : ℕ)
    → (k < i) ⊎ (i + n ≤ k)
    → move_rows n i max_x buf k ≡ buf k
unfolding move_rows
move_rows_outside zero i max_x buf k h = refl
move_rows_outside (suc n) i max_x buf k h =
    move_rows_outside n (i + 1) max_x (store buf i (buf (i + max_x))) k (omega arith) ∙ ground arith

move_rows_inside :
    (n i max_x : ℕ) (buf : ℕ → ℕ) (k : ℕ)
    → 0 < max_x
    → i ≤ k
    → k < i + n
    → move_rows n i max_x buf k ≡ buf (k + max_x)
unfolding move_rows
move_rows_inside zero i max_x buf k pos lo hi = absurd (omega arith)
move_rows_inside (suc n) i max_x buf k pos lo hi = elim (dec_lt i k) [
  | yes p ↦
      move_rows_inside n (i + 1) max_x (store buf i (buf (i + max_x))) k pos (omega arith)
        (omega arith)
      ∙ ground arith
  | no p ↦
      let e : i ≡ k = omega arith in
      move_rows_outside n (i + 1) max_x (store buf i (buf (i + max_x))) k (omega arith)
      ∙ ground arith
]

clear_row_outside :
    (n i tmp : ℕ) (buf : ℕ → ℕ) (k : ℕ)
    → (k < tmp + i) ⊎ (tmp + i + n ≤ k)
    → clear_row n i tmp buf k ≡ buf k
unfolding clear_row
clear_row_outside zero i tmp buf k h = refl
clear_row_outside (suc n) i tmp buf k h =
    clear_row_outside n (i + 1) tmp (store buf (tmp + i) 0) k (omega arith) ∙ ground arith

clear_row_inside :
    (n i tmp : ℕ) (buf : ℕ → ℕ) (x : ℕ) → i ≤ x → x < i + n → clear_row n i tmp buf (tmp + x) ≡ 0
unfolding clear_row
clear_row_inside zero i tmp buf x lo hi = absurd (omega arith)
clear_row_inside (suc n) i tmp buf x lo hi = elim (dec_lt i x) [
  | yes p ↦ clear_row_inside n (i + 1) tmp (store buf (tmp + i) 0) x (omega arith) (omega arith)
  | no p ↦
      let e : i ≡ x = omega arith in
      clear_row_outside n (i + 1) tmp (store buf (tmp + i) 0) (tmp + x) (omega arith) ∙ ground arith
]

-- A cell of row `y` comes before the rows after it.
pub row-lt : (x y m r : ℕ) → x < m → y < r → y * m + x < r * m
row-lt x y m r hx hy = omega (arith, mul-le-mul_right m hy)

scrolled :
    (max_x last : ℕ) (buf : ℕ → ℕ)
    → 0 < max_x
    → IsScrolled max_x
        (last + 1)
        buf
        (clear_row max_x 0 (max_x * last) (move_rows (max_x * last) 0 max_x buf))
scrolled max_x last buf pos = record {
  moved = λ x y hx hy.
      let before : y * max_x + x < last * max_x = row-lt x y max_x last hx (omega arith) in
      clear_row_outside max_x 0 (max_x * last) (move_rows (max_x * last) 0 max_x buf)
        (y * max_x + x) (inl (omega arith))
      ∙ move_rows_inside (max_x * last) 0 max_x buf (y * max_x + x) pos (omega arith) (omega arith)
      ∙ ap buf (omega arith);
  blank = λ x hx.
      let same : last + 1 - 1 ≡ last = omega arith in
      subst (λ i. clear_row max_x 0 (max_x * last) (move_rows (max_x * last) 0 max_x buf) i ≡ 0)
        (rw same (omega arith))
        (clear_row_inside max_x 0 (max_x * last) (move_rows (max_x * last) 0 max_x buf) x
          (omega arith) (omega arith));
  outside = λ i h.
      clear_row_outside max_x 0 (max_x * last) (move_rows (max_x * last) 0 max_x buf) i
        (inr (omega arith))
      ∙ move_rows_outside (max_x * last) 0 max_x buf i (inr (omega arith));
}

-- The product of the rows but the last fits an `int` where the number of cells does.
rows_fit : (x y : ℕ) → y * x < 2 ^ 31 → u32 (x * (y - 1)) ≡ x * (y - 1)
rows_fit x y h = let le : y - 1 ≤ y = omega arith in omega (arith, mul-le-mul_right x le)

-- `video_text_scroll`, on a screen of at least one column and one row and of fewer than 2^31 cells,
-- moves every row up by one, blanks the last row, and writes nothing outside the screen.
pub video_text_scroll-IsScrolled :
    (v : Video)
    → 0 < v.text_max_x
    → 0 < v.text_max_y
    → v.text_max_y * v.text_max_x < 2 ^ 31
    → IsScrolled v.text_max_x v.text_max_y v.buf (video_text_scroll v).buf
unfolding video_text_scroll
video_text_scroll-IsScrolled v px py cells = rw (rows_fit v.text_max_x v.text_max_y cells) (
    subst
      (λ rows. IsScrolled v.text_max_x rows v.buf (
        clear_row v.text_max_x 0 (v.text_max_x * (v.text_max_y - 1))
          (move_rows (v.text_max_x * (v.text_max_y - 1)) 0 v.text_max_x v.buf)))
      (omega arith) (scrolled v.text_max_x (v.text_max_y - 1) v.buf px))
