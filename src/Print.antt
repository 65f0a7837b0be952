-- ===== src/Print.antt =====
-- Formatted output, src/libboot/print.c. A character is its code, and a string the list of its
-- characters before the zero byte. A buffer that is filled from its start is the list of what it
-- holds, so that a cursor is the list's length.
pub mod Digits
pub mod Format
mod Tests
use fusee_os.Base.{
  ℕ, zero, suc, ◌+◌, ◌-◌, ◌*◌, ◌/◌, ◌%◌, ◌^◌, bit_and, Bool, true, false, ◌||◌, not, Option, none,
  some, List, [], ◌∷◌, ◌++◌, length, get_or, ltb, leb, ◌==◌, if◌then◌else◌, u8, u16, u32, u64,
  ◌>>>◌,
}

-- "0123456789abcdef"
abbrev pub hex_chars : List ℕ
hex_chars = 48 ∷ 49 ∷ 50 ∷ 51 ∷ 52 ∷ 53 ∷ 54 ∷ 55 ∷ 56 ∷ 57 ∷ 97 ∷ 98 ∷ 99 ∷ 100 ∷ 101 ∷ 102 ∷ []

pub hex_char : ℕ → ℕ
hex_char v = get_or hex_chars v 0

-- `if (v || cursor) buffer[cursor++] = hex_chars[v]`
pub push_digit : ℕ → List ℕ → List ℕ
push_digit v out = if not (v == 0) || not (length out == 0) then out ++ hex_char v ∷ [] else out

-- `if (!cursor) buffer[0] = '0'`
pub or_zero : List ℕ → List ℕ
or_zero [] = b'0' ∷ []
or_zero (c ∷ cs) = c ∷ cs

-- The loop of `fmt_udec` with `n` rounds left.
pub udec_from : ℕ → ℕ → ℕ → List ℕ → List ℕ
udec_from zero num divisor out = out
udec_from (suc n) num divisor out =
    udec_from n num (divisor / 10) (push_digit (num / divisor % 10) out)

pub fmt_udec : ℕ → List ℕ
fmt_udec num = or_zero (udec_from 20 num 10_000_000_000_000_000_000 [])

-- The loop of `fmt_hex` with `n` rounds left; the shift after the last round is not used.
pub hex_from : ℕ → ℕ → ℕ → List ℕ → List ℕ
hex_from zero num shift out = out
hex_from (suc n) num shift out =
    hex_from n num (shift - 4) (push_digit (bit_and (num >>> shift) 0xf) out)

pub fmt_hex : ℕ → List ℕ
fmt_hex num = or_zero (hex_from 16 num 60 [])

-- `_putu` of a number that is not negative: what it prints. `none` means that the fuel ran out.
pub putu_digits : ℕ → ℕ → Option (List ℕ)
putu_digits zero v = none
putu_digits (suc f) v =
    let high = putu_digits f (v / 10) in
    if leb 10 v
    then (elim high [ none ↦ none | some out ↦ some (out ++ hex_char (v % 10) ∷ []) ])
    else (if v == 0 then some [] else some (hex_char (v % 10) ∷ []))

pub putu : ℕ → ℕ → Option (List ℕ)
putu fuel v = if v == 0 then some (b'0' ∷ []) else putu_digits fuel v

-- TYPE_CHAR and the other six.
pub data ArgType : Type 0 where
  type_char type_short type_int type_long type_long_long type_size_t type_intmax_t : ArgType

-- What a call of `boot_printf` passes: a number in its slot, or a pointer to a string.
pub data Arg : Type 0 where
  num : ℕ → Arg
  text : List ℕ → Arg

pub integer_arg : ArgType → ℕ → ℕ
integer_arg type_char n = u8 (u32 n)
integer_arg type_short n = u16 (u32 n)
integer_arg type_int n = u32 n
integer_arg type_long n = u64 n
integer_arg type_long_long n = u64 n
integer_arg type_size_t n = u64 n
integer_arg type_intmax_t n = u64 n

-- Outside a conversion, or inside one with the type so far.
pub data Mode : Type 0 where
  plain : Mode
  conversion : ArgType → Mode

-- `arg_type == TYPE_CHAR ? TYPE_SHORT : TYPE_CHAR`
pub after_h : ArgType → ArgType
after_h type_char = type_short
after_h _ = type_char

-- `arg_type == TYPE_LONG ? TYPE_LONG_LONG : TYPE_LONG`
pub after_l : ArgType → ArgType
after_l type_long = type_long_long
after_l _ = type_long

-- The length modifiers, `none` for any other character.
pub modifier : ℕ → ArgType → Option ArgType
modifier c t =
    if c == b'h'
    then some (after_h t)
    else if c == b'l'
    then some (after_l t)
    else if c == b'q'
    then some type_long_long
    else if c == b'z' || c == b'Z'
    then some type_size_t
    else if c == b'j'
    then some type_long_long
    else none

pub record State : Type 0 where
  pub mode : Mode
  pub args : List Arg
  pub buffer : List ℕ

-- The conversion is over, and its text is appended.
abbrev pub emit : List Arg → List ℕ → List ℕ → Option State
emit args out s = some (record { mode = plain; args = args; buffer = out ++ s })

-- `char cbuf[2] = {c, 0}`: a zero character ends the text at once.
abbrev pub char_text : ℕ → List ℕ
char_text c = if u8 c == 0 then [] else u8 c ∷ []

-- A conversion that takes the next argument; `none` where the argument is missing or of the
-- wrong kind, which C leaves undefined.
pub with_num : (ℕ → List ℕ) → List Arg → List ℕ → Option State
with_num show (num n ∷ args) out = emit args out (show n)
with_num show (text s ∷ args) out = none
with_num show [] out = none

pub with_text : List Arg → List ℕ → Option State
with_text (text s ∷ args) out = emit args out s
with_text (num n ∷ args) out = none
with_text [] out = none

-- A character inside a conversion that is no modifier; an unknown one changes nothing.
pub convert : ℕ → ArgType → List Arg → List ℕ → Option State
convert c t args out =
    if c == b'%'
    then emit args out (b'%' ∷ [])
    else if c == b's'
    then with_text args out
    else if c == b'c'
    then with_num char_text args out
    else if c == b'x'
    then with_num (λ n. fmt_hex (integer_arg t n)) args out
    else if c == b'u'
    then with_num (λ n. fmt_udec (integer_arg t n)) args out
    else some (record { mode = conversion t; args = args; buffer = out })

pub in_conversion : ℕ → ArgType → List Arg → List ℕ → Option State
in_conversion c t args out = elim (modifier c t) [
  | some t' ↦ some (record { mode = conversion t'; args = args; buffer = out })
  | none ↦ convert c t args out
]

pub step : ℕ → Mode → List Arg → List ℕ → Option State
step c plain args out =
    if c == b'%'
    then some (record { mode = conversion type_int; args = args; buffer = out })
    else some (record { mode = plain; args = args; buffer = out ++ c ∷ [] })
step c (conversion t) args out = in_conversion c t args out

-- Both loops of `boot_printf`, over the characters of the format that are left. Its end ends the
-- call inside a conversion too.
pub format : List ℕ → State → Option (List ℕ)
format [] s = some s.buffer
format (c ∷ cs) s = elim (step c s.mode s.args s.buffer) [ none ↦ none | some s' ↦ format cs s' ]

-- What is printed. `none` also stands for a text that the buffer of 1024 bytes does not hold.
pub boot_printf : List ℕ → List Arg → Option (List ℕ)
boot_printf fmt args = elim (format fmt (record { mode = plain; args = args; buffer = [] })) [
  | none ↦ none
  | some out ↦ if ltb (length out) 1024 then some out else none
]
