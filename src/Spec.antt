-- ===== src/Spec.antt =====
-- The specification parser of the tools, tools/spec_parser.c. A stream is the bytes that are left
-- and the end-of-file flag, which `fgetc` sets when no byte is left; `none` is EOF.
pub mod Lines
mod Tests
use fusee_os.Base.{
  ℕ, zero, suc, ◌+◌, Bool, true, false, ◌&&◌, ◌||◌, Option, none, some, List, [], ◌∷◌, ◌==◌, ltb,
  length, if◌then◌else◌,
}

pub record Stream : Type 0 where
  pub rest : List ℕ
  pub eof : Bool

-- `Spec`
pub record Entry : Type 0 where
  pub type : ℕ
  pub dst : List ℕ
  pub src : List ℕ

-- The byte that `fgetc` returns, and the stream behind it.
abbrev pub fgetc : Stream → Option ℕ × Stream
fgetc s = elim s.rest [
  | [] ↦ (none, record s { eof = true })
  | c ∷ cs ↦ (some c, record s { rest = cs })
]

abbrev pub is_end : ℕ → Bool
is_end c = (c == 10) || (c == 13) || (c == b',')

-- `parse_spec_str` over the bytes that are left; `eof` is the flag before.
pub parse_spec_str : List ℕ → Bool → List ℕ × Stream
parse_spec_str [] eof = ([], record { rest = []; eof = true })
parse_spec_str (c ∷ cs) eof =
    let (buf, s) = parse_spec_str cs eof in
    if is_end c then ([], record { rest = cs; eof = eof }) else (c ∷ buf, s)

-- The length of the fields `src` and `dst` of `Spec`, the zero behind their bytes included.
abbrev pub field_size : ℕ
field_size = 4096

-- `parse_spec_line`, once the type is read: the comma is skipped. `none` means that a field is
-- written behind the end of its array, which the code does not test; the outcome is that of
-- `parse_spec`.
pub parse_spec_line : ℕ → Stream → Option (Option Entry × Stream)
parse_spec_line type s =
    let s1 = (fgetc s).1 in
    let (dst, s2) = parse_spec_str s1.rest s1.eof in
    let (src, s3) = parse_spec_str s2.rest s2.eof in
    if ltb (length dst) field_size && ltb (length src) field_size
    then some (some (record { type = type; dst = dst; src = src }), s3)
    else none

-- The inner loop of `parse_spec`: the first byte that ends no line.
pub skip_newlines : List ℕ → Bool → Option ℕ × Stream
skip_newlines [] eof = (none, record { rest = []; eof = true })
skip_newlines (c ∷ cs) eof =
    let skipped = skip_newlines cs eof in
    if (c == 10) || (c == 13) then skipped else (some c, record { rest = cs; eof = eof })

-- `while (c != '\n' && !feof(f)) c = fgetc(f)`, with `c` read.
pub skip_comment : List ℕ → Bool → Stream
skip_comment [] eof = record { rest = []; eof = true }
skip_comment (c ∷ cs) eof =
    let skipped = skip_comment cs eof in
    if c == 10 then record { rest = cs; eof = eof } else skipped

-- The switch of `parse_spec`; EOF becomes the type 255. `again` goes round the outer loop.
pub after_byte :
    (Stream → Option (Option Entry × Stream)) → Option ℕ → Stream → Option (Option Entry × Stream)
after_byte again none s = parse_spec_line 255 s
after_byte again (some c) s =
    if c == b'#' then again (skip_comment s.rest s.eof) else parse_spec_line c s

-- `parse_spec` on fuel: `none` that the fuel ran out or a field is too long, then `none` for the
-- result 1.
pub parse_spec : ℕ → Stream → Option (Option Entry × Stream)
parse_spec zero s = none
parse_spec (suc f) s =
    if s.eof
    then some (none, s)
    else (let (c, s') = skip_newlines s.rest s.eof in after_byte (parse_spec f) c s')

-- The loop of the tools' `main`.
pub parse_specs : ℕ → Stream → Option (List Entry)
parse_specs zero s = none
parse_specs (suc f) s = elim (parse_spec f s) [
  | none ↦ none
  | some (none, s') ↦ some []
  | some (some e, s') ↦ (elim (parse_specs f s') [ none ↦ none | some es ↦ some (e ∷ es) ])
]
