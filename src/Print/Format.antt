-- ===== src/Print/Format.antt =====
-- `boot_printf` against formats written as pieces of text and conversions, and `putu`.
use fusee_os.Base.{
  ℕ, ◌≡◌, ◌≢◌, refl, sym, ap, ◌∙◌, some, none, List, [], ◌∷◌, ◌++◌, length, ltb, if◌then◌else◌,
  ne→==,
}
use mathlib.Core.List.{append_assoc, append-nil}
use fusee_os.Print.{
  ArgType, type_char, type_short, type_int, type_long, type_long_long, type_size_t, Arg, num, text,
  integer_arg, plain, State, step, modifier, in_conversion, convert, with_num, with_text, format,
  boot_printf, fmt_hex, fmt_udec, char_text, after_h, after_l,
}

-- The types that length modifiers can name.
pub data Width : Type 0 where
  char short int long long_long size : Width

abbrev pub type_of : Width → ArgType
type_of char = type_char
type_of short = type_short
type_of int = type_int
type_of long = type_long
type_of long_long = type_long_long
type_of size = type_size_t

-- The modifiers by which the code reads a width: "h" is for a char and "hh" for a short.
abbrev pub modifiers : Width → List ℕ
modifiers char = b'h' ∷ []
modifiers short = b'h' ∷ b'h' ∷ []
modifiers int = []
modifiers long = b'l' ∷ []
modifiers long_long = b'l' ∷ b'l' ∷ []
modifiers size = b'z' ∷ []

-- A piece of a format with the argument that it is given.
pub data Piece : Type 0 where
  literal : ℕ → Piece
  percent : Piece
  string : List ℕ → Piece
  character : ℕ → Piece
  hex : Width → ℕ → Piece
  decimal : Width → ℕ → Piece

abbrev pub spelling : Piece → List ℕ
spelling (literal c) = c ∷ []
spelling percent = b'%' ∷ b'%' ∷ []
spelling (string s) = b'%' ∷ b's' ∷ []
spelling (character c) = b'%' ∷ b'c' ∷ []
spelling (hex w n) = b'%' ∷ modifiers w ++ b'x' ∷ []
spelling (decimal w n) = b'%' ∷ modifiers w ++ b'u' ∷ []

abbrev pub arguments : Piece → List Arg
arguments (literal c) = []
arguments percent = []
arguments (string s) = text s ∷ []
arguments (character c) = num c ∷ []
arguments (hex w n) = num n ∷ []
arguments (decimal w n) = num n ∷ []

abbrev pub output : Piece → List ℕ
output (literal c) = c ∷ []
output percent = b'%' ∷ []
output (string s) = s
output (character c) = char_text c
output (hex w n) = fmt_hex (integer_arg (type_of w) n)
output (decimal w n) = fmt_udec (integer_arg (type_of w) n)

-- A literal is any character but '%'.
abbrev pub IsPiece : Piece → Type 0
IsPiece (literal c) = c ≢ b'%'
IsPiece _ = Unit

abbrev pub ArePieces : List Piece → Type 0
ArePieces [] = Unit
ArePieces (piece ∷ ps) = IsPiece piece × ArePieces ps

abbrev pub concat_map {ℓ κ} : {A : Type ℓ} {B : Type κ} → (A → List B) → List A → List B
concat_map f [] = []
concat_map f (x ∷ xs) = f x ++ concat_map f xs

abbrev at_plain : List Arg → List ℕ → State
at_plain args out = record { mode = plain; args = args; buffer = out }

-- One piece is formatted to its output and takes its argument.
format-piece :
    (p : Piece) (rest : List ℕ) (args : List Arg) (out : List ℕ)
    → IsPiece p
    → format (spelling p ++ rest) (at_plain (arguments p ++ args) out)
      ≡ format rest (at_plain args (out ++ output p))
unfolding format step in_conversion modifier convert with_num with_text after_h after_l
format-piece (literal c) rest args out h = rw (ne→== c b'%' h, format, step)
format-piece percent rest args out h = refl
format-piece (string s) rest args out h = refl
format-piece (character c) rest args out h = refl
format-piece (hex char n) rest args out h = refl
format-piece (hex short n) rest args out h = refl
format-piece (hex int n) rest args out h = refl
format-piece (hex long n) rest args out h = refl
format-piece (hex long_long n) rest args out h = refl
format-piece (hex size n) rest args out h = refl
format-piece (decimal char n) rest args out h = refl
format-piece (decimal short n) rest args out h = refl
format-piece (decimal int n) rest args out h = refl
format-piece (decimal long n) rest args out h = refl
format-piece (decimal long_long n) rest args out h = refl
format-piece (decimal size n) rest args out h = refl

format-pieces :
    (ps : List Piece) (out : List ℕ)
    → ArePieces ps
    → format (concat_map spelling ps) (at_plain (concat_map arguments ps) out)
      ≡ some (out ++ concat_map output ps)
format-pieces [] out h = unfold format in ap some (sym (append-nil out))
format-pieces (p ∷ ps) out h =
    format-piece p (concat_map spelling ps) (concat_map arguments ps) out h.0
    ∙ format-pieces ps (out ++ output p) h.1
    ∙ ap some (append_assoc out (output p) (concat_map output ps))

-- A format of literals and conversions, called with an argument for each conversion in order,
-- prints the literals and the converted arguments in order, if they fit the buffer of 1024 bytes
-- with their end, and runs over the buffer if not. A number is cut to the width that the code
-- reads from the modifiers.
pub boot_printf-pieces :
    (ps : List Piece)
    → ArePieces ps
    → boot_printf (concat_map spelling ps) (concat_map arguments ps)
      ≡ (if ltb (length (concat_map output ps)) 1024 then some (concat_map output ps) else none)
unfolding boot_printf
boot_printf-pieces ps h = rw (format-pieces ps [] h, boot_printf)
