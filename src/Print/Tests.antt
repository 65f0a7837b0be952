-- ===== src/Print/Tests.antt =====
-- Numbers and formats printed, and the theorems there.
use fusee_os.Base.{◌≡◌, ◌≤◌, refl, arith, some, none, List, [], ◌∷◌, length, ltb, if◌then◌else◌}
use fusee_os.Print.{
  fmt_udec, fmt_hex, putu, boot_printf, udec_from, hex_from, push_digit, or_zero, hex_char,
  putu_digits,
}
use fusee_os.Print.Digits.{value, IsCanonical, fmt_udec-IsCanonical}
use fusee_os.Print.Format.{
  Piece, literal, hex, decimal, string, char, long, spelling, arguments, output, concat_map,
  boot_printf-pieces,
}

-- "1024" and "ff".
fmt_udec_runs : fmt_udec 1024 ≡ 49 ∷ 48 ∷ 50 ∷ 52 ∷ []
unfolding fmt_udec udec_from push_digit or_zero hex_char
fmt_udec_runs = refl

fmt_hex_runs : fmt_hex 255 ≡ 102 ∷ 102 ∷ []
unfolding fmt_hex hex_from push_digit or_zero hex_char
fmt_hex_runs = refl

putu_runs : putu 20 1024 ≡ some (49 ∷ 48 ∷ 50 ∷ 52 ∷ [])
unfolding putu putu_digits hex_char
putu_runs = refl

fmt_udec-IsCanonical_example :
    (value 10 (fmt_udec 1024) ≡ 1024) × IsCanonical (fmt_udec 1024) × (length (fmt_udec 1024) ≤ 20)
fmt_udec-IsCanonical_example = fmt_udec-IsCanonical 1024 (omega arith)

-- "x%lx%s%hu" with 0x1000, "ok" and 300.
abbrev pieces : List Piece
pieces = literal b'x' ∷ hex long 0x1000 ∷ string (b'o' ∷ b'k' ∷ []) ∷ decimal char 300 ∷ []

boot_printf-pieces_example :
    boot_printf (concat_map spelling pieces) (concat_map arguments pieces) ≡ (
      if ltb (length (concat_map output pieces)) 1024
      then some (concat_map output pieces)
      else none)
boot_printf-pieces_example = boot_printf-pieces pieces (omega arith, (tt, (tt, (tt, tt))))
