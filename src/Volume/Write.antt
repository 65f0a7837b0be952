-- ===== src/Volume/Write.antt =====
-- `file_write` at the end of a file, for any number of bytes.
use fusee_os.Base.{
  ℕ, zero, suc, ◌+◌, ◌-◌, ◌*◌, ◌/◌, ◌%◌, ◌^◌, ◌≤◌, ◌<◌, ◌≡◌, refl, sym, ◌∙◌, ap, inl, inr, arith,
  min, List, [], ◌∷◌, ◌++◌, length, get_or, take, drop, length-append, some, u64, dec_lt,
}
use mathlib.Core.Path.{subst}
use fusee_os.Volume.{Volume, size_of, write_chunk, file_write}
use fusee_os.Volume.Slots.{byte}
use fusee_os.Volume.Pointer.{ptr_from_data_index-Placed}
use fusee_os.Volume.Append.{IsFilled, Appended, round-Appended}

module _ {ℓ} {A : Type ℓ} where
  pub take-append-drop : (n : ℕ) (xs : List A) → take n xs ++ drop n xs ≡ xs
  take-append-drop zero xs = refl
  take-append-drop (suc n) [] = refl
  take-append-drop (suc n) (x ∷ xs) = ap (λ ys. x ∷ ys) (take-append-drop n xs)

  pub length-take : (n : ℕ) (xs : List A) → length (take n xs) ≡ min n (length xs)
  length-take zero xs = omega arith
  length-take (suc n) [] = omega arith
  length-take (suc n) (x ∷ xs) = omega (arith, length-take n xs)

  pub length-drop : (n : ℕ) (xs : List A) → length (drop n xs) ≡ length xs - n
  length-drop zero xs = omega arith
  length-drop (suc n) [] = omega arith
  length-drop (suc n) (x ∷ xs) = omega (arith, length-drop n xs)

  pub get_or-append_left :
      (xs ys : List A) (i : ℕ) (d : A) → i < length xs → get_or (xs ++ ys) i d ≡ get_or xs i d
  get_or-append_left [] ys i d h = absurd (omega arith)
  get_or-append_left (x ∷ xs) ys zero d h = refl
  get_or-append_left (x ∷ xs) ys (suc i) d h = get_or-append_left xs ys i d (omega arith)

  pub get_or-append_right :
      (xs ys : List A) (i : ℕ) (d : A) → get_or (xs ++ ys) (length xs + i) d ≡ get_or ys i d
  get_or-append_right [] ys i d = ap (λ j. get_or ys j d) (omega arith)
  get_or-append_right (x ∷ xs) ys i d =
      let e : suc (length xs) + i ≡ suc (length xs + i) = omega arith in
      ap (λ j. get_or (x ∷ (xs ++ ys)) j d) e ∙ get_or-append_right xs ys i d

pub Appended-nil : (v : Volume) (file : ℕ) → IsFilled v file → Appended v file [] v
Appended-nil v file g = record {
  filled = g;
  size = omega arith;
  old = λ k h. refl;
  new = λ k h. absurd (omega arith);
  frame = λ q x page h a b c. refl;
  idata_kept = inl refl;
  slots_kept = λ j h. inl refl;
  more = omega arith;
  few = omega arith;
}

pub Appended-append :
    (u v w : Volume) (file : ℕ) (xs ys : List ℕ)
    → Appended u file xs v
    → Appended v file ys w
    → Appended u file (xs ++ ys) w
Appended-append u v w file xs ys a b =
    let len = length-append xs ys in
    record {
      filled = b.filled;
      size = omega (arith, a.size, b.size, len);
      old = λ k h. b.old k (omega (arith, a.size)) ∙ a.old k h;
      new = λ k h. elim (dec_lt k (length xs)) [
        | yes lt ↦
            b.old (size_of u file + k) (omega (arith, a.size))
            ∙ a.new k lt
            ∙ sym (get_or-append_left xs ys k 0 lt)
        | no ge ↦
            (let i = k - length xs in
              let e : size_of u file + k ≡ size_of v file + i = omega (arith, a.size, ge) in
              let e' : length xs + i ≡ k = omega (arith, ge) in
              ap (byte w.bytes file) e
              ∙ b.new i (omega (arith, ge, len))
              ∙ sym (get_or-append_right xs ys i 0)
              ∙ ap (λ j. get_or (xs ++ ys) j 0) e')
      ];
      frame = λ q x page h off_file off_idata off_slots.
          b.frame q x (record { given = omega (arith, page.given, a.more); plain = page.plain }) h
            off_file
            (λ e. elim a.idata_kept [
              | inl s ↦ off_idata (e ∙ s)
              | inr lt ↦ absurd (omega (arith, page.given))
            ])
            (λ j hj e. elim (a.slots_kept j hj) [
              | inl s ↦ off_slots j hj (sym s ∙ e)
              | inr lt ↦ absurd (omega (arith, page.given))
            ])
          ∙ a.frame q x page h off_file off_idata off_slots;
      idata_kept = elim b.idata_kept [
        | inr lt ↦ inr (omega (arith, a.more))
        | inl e ↦ (elim a.idata_kept [ inl s ↦ inl (e ∙ s) | inr lt ↦ inr (omega arith) ])
      ];
      slots_kept = λ j h. elim (b.slots_kept j h) [
        | inr lt ↦ inr (omega (arith, a.more))
        | inl e ↦ (elim (a.slots_kept j h) [ inl s ↦ inl (e ∙ s) | inr lt ↦ inr (omega arith) ])
      ];
      more = omega (arith, a.more, b.more);
      few = omega (arith, a.few, b.few, len);
    }

-- `file_write` at the end of a file returns, with more fuel than there are bytes and room for them
-- in the format: the bytes are appended to the file, and the position is at its new end. The inodes
-- stay below 2^64.
pub file_write-Appended :
    (fuel : ℕ) (v : Volume) (file : ℕ) (bs : List ℕ)
    → IsFilled v file
    → length bs < fuel
    → size_of v file + length bs ≤ 528 * 4096
    → v.next_inode + 4 * length bs < 2 ^ 63
    → (v' : Volume) × (file_write fuel v (record { file = file; pos = size_of v file }) bs
        ≡ some (record { file = file; pos = size_of v' file }, v'))
      × Appended v file bs v'
unfolding file_write write_chunk
file_write-Appended zero v file bs g enough room inodes = absurd (omega arith)
file_write-Appended (suc fuel) v file [] g enough room inodes = (v, refl, Appended-nil v file g)
file_write-Appended (suc fuel) v file (b ∷ bs) g enough room inodes =
    let end = size_of v file in
    let (r, v1, e, p) =
      ptr_from_data_index-Placed v file (end / 4096) g.is_file (omega arith) (omega arith) in
    let tmp = min (4096 - end % 4096) (length (b ∷ bs)) in
    let chunk = take tmp (b ∷ bs) in
    let rest = drop tmp (b ∷ bs) in
    let taken : length chunk ≡ tmp = length-take tmp (b ∷ bs) ∙ omega arith in
    let dropped : length rest ≡ length (b ∷ bs) - tmp = length-drop tmp (b ∷ bs) in
    let one =
      round-Appended v v1 file r chunk g (omega (arith, taken)) (omega (arith, taken))
        (omega (arith, taken)) p in
    let v2 = (write_chunk v1 (record { file = file; pos = end }) r chunk).1 in
    let (v3, result, more) =
      file_write-Appended fuel v2 file rest one.filled (omega (arith, dropped))
        (omega (arith, one.size, taken, dropped)) (omega (arith, one.few, taken, dropped)) in
    let position : u64 (end + length chunk) ≡ size_of v2 file = omega (arith, one.size, taken) in
    (
      v3,
      rw (e, file_write) (rw position result),
      subst (λ xs. Appended v file xs v3) (take-append-drop tmp (b ∷ bs))
          (Appended-append v v2 v3 file chunk rest one more),
    )
