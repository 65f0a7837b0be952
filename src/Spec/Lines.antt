-- ===== src/Spec/Lines.antt =====
-- A specification file is parsed into the entries that its lines spell.
use mathlib.Core.List.{append-nil}
use fusee_os.Base.{
  ℕ, zero, suc, ◌+◌, ◌<◌, ◌≡◌, ◌≢◌, refl, sym, ◌∙◌, arith, true, false, some, List, [], ◌∷◌, ◌++◌,
  length, ne→==, lt→ltb,
}
use fusee_os.Spec.{
  Stream, Entry, field_size, is_end, parse_spec_str, parse_spec_line, skip_newlines, skip_comment,
  after_byte, parse_spec, parse_specs,
}

-- A field has no byte that ends a field.
abbrev pub IsField : List ℕ → Type 0
IsField [] = Unit
IsField (c ∷ cs) = (is_end c ≡ false) × IsField cs

abbrev pub IsComment : List ℕ → Type 0
IsComment [] = Unit
IsComment (c ∷ cs) = (c ≢ 10) × IsComment cs

-- An entry's type is a byte that starts neither an empty line nor a comment, and its fields have
-- fewer than 4096 bytes.
pub record IsEntry (e : Entry) : Type 0 where
  pub type_newline : e.type ≢ 10
  pub type_return : e.type ≢ 13
  pub type_comment : e.type ≢ b'#'
  pub dst : IsField e.dst
  pub short_dst : length e.dst < field_size
  pub short_src : length e.src < field_size
  pub src : IsField e.src

pub data Line : Type 0 where
  entry : Entry → Line
  comment : List ℕ → Line
  blank : Line

abbrev pub spelling : Entry → List ℕ → List ℕ
spelling e rest = e.type ∷ b',' ∷ (e.dst ++ b',' ∷ (e.src ++ rest))

-- The bytes of a file: lines that a newline ends, and a last entry that the file ends.
abbrev pub text : List Line → Entry → List ℕ
text [] last = spelling last []
text (entry e ∷ ls) last = spelling e (10 ∷ text ls last)
text (comment cs ∷ ls) last = b'#' ∷ (cs ++ 10 ∷ text ls last)
text (blank ∷ ls) last = 10 ∷ text ls last

abbrev pub entries : List Line → Entry → List Entry
entries [] last = last ∷ []
entries (entry e ∷ ls) last = e ∷ entries ls last
entries (comment cs ∷ ls) last = entries ls last
entries (blank ∷ ls) last = entries ls last

abbrev pub AreLines : List Line → Type 0
AreLines [] = Unit
AreLines (entry e ∷ ls) = IsEntry e × AreLines ls
AreLines (comment cs ∷ ls) = IsComment cs × AreLines ls
AreLines (blank ∷ ls) = AreLines ls

stream : List ℕ → Stream
stream bytes = record { rest = bytes; eof = false }

parse_spec_str-field :
    (field : List ℕ) (c : ℕ) (rest : List ℕ)
    → IsField field
    → is_end c ≡ true
    → parse_spec_str (field ++ c ∷ rest) false ≡ (field, stream rest)
unfolding parse_spec_str stream
parse_spec_str-field [] c rest h e = rw e refl
parse_spec_str-field (d ∷ field) c rest h e =
    rw (h.0) (rw (parse_spec_str-field field c rest h.1 e) refl)

parse_spec_str-last :
    (field : List ℕ)
    → IsField field
    → parse_spec_str field false ≡ (field, record { rest = []; eof = true })
unfolding parse_spec_str
parse_spec_str-last [] h = refl
parse_spec_str-last (d ∷ field) h = rw (h.0) (rw (parse_spec_str-last field h.1) refl)

parse_spec_line-entry :
    (e : Entry) (rest : List ℕ)
    → IsEntry e
    → parse_spec_line e.type (stream (b',' ∷ (e.dst ++ b',' ∷ (e.src ++ 10 ∷ rest))))
      ≡ some (some e, stream rest)
unfolding parse_spec_line stream
parse_spec_line-entry e rest v =
    rw (parse_spec_str-field e.dst b',' (e.src ++ 10 ∷ rest) v.dst refl) (
      rw (parse_spec_str-field e.src 10 rest v.src refl)
        (rw (lt→ltb (length e.dst) 4096 v.short_dst, lt→ltb (length e.src) 4096 v.short_src) refl))

parse_spec_line-last :
    (e : Entry)
    → IsEntry e
    → parse_spec_line e.type (stream (b',' ∷ (e.dst ++ b',' ∷ (e.src ++ []))))
      ≡ some (some e, record { rest = []; eof = true })
unfolding parse_spec_line stream
parse_spec_line-last e v = rw (parse_spec_str-field e.dst b',' (e.src ++ []) v.dst refl) (
    rw (append-nil e.src) (
      rw (parse_spec_str-last e.src v.src)
        (rw (lt→ltb (length e.dst) 4096 v.short_dst, lt→ltb (length e.src) 4096 v.short_src) refl)))

skip_comment-line :
    (cs rest : List ℕ) → IsComment cs → skip_comment (cs ++ 10 ∷ rest) false ≡ stream rest
unfolding skip_comment stream
skip_comment-line [] rest h = refl
skip_comment-line (c ∷ cs) rest h = rw (ne→== c 10 h.0) (skip_comment-line cs rest h.1)

-- The first entry of a file, and the stream behind its line.
abbrev first : List Line → Entry → Entry
first [] last = last
first (entry e ∷ ls) last = e
first (comment cs ∷ ls) last = first ls last
first (blank ∷ ls) last = first ls last

after : List Line → Entry → Stream
after [] last = record { rest = []; eof = true }
after (entry e ∷ ls) last = stream (text ls last)
after (comment cs ∷ ls) last = after ls last
after (blank ∷ ls) last = after ls last

parse_spec-first :
    (ls : List Line) (last : Entry) (f : ℕ)
    → length ls < f
    → AreLines ls
    → IsEntry last
    → parse_spec f (stream (text ls last)) ≡ some (some (first ls last), after ls last)
unfolding parse_spec stream after skip_newlines after_byte
parse_spec-first ls last zero h a v = absurd (omega arith)
parse_spec-first [] last (suc f) h a v =
    rw (ne→== last.type 10 v.type_newline, ne→== last.type 13 v.type_return)
      (rw (ne→== last.type b'#' v.type_comment) (rw (parse_spec_line-last last v) refl))
parse_spec-first (entry e ∷ ls) last (suc f) h a v =
    let w = a.0 in
    rw (ne→== e.type 10 w.type_newline, ne→== e.type 13 w.type_return)
      (rw (ne→== e.type b'#' w.type_comment) (rw (parse_spec_line-entry e (text ls last) w) refl))
parse_spec-first (comment cs ∷ ls) last (suc f) h a v =
    rw (skip_comment-line cs (text ls last) a.0) (parse_spec-first ls last f (omega arith) a.1 v)
parse_spec-first (blank ∷ ls) last (suc f) h a v =
    parse_spec-first ls last (suc f) (omega arith) a v

-- One round of the tools' loop.
round :
    (f : ℕ) (s s' : Stream) (e : Entry) (es : List Entry)
    → parse_spec f s ≡ some (some e, s')
    → parse_specs f s' ≡ some es
    → parse_specs (suc f) s ≡ some (e ∷ es)
unfolding parse_specs
round f s s' e es one rest = rw (one, parse_specs) (rw (rest, parse_specs) refl)

parse_specs_at_end :
    (f : ℕ) → 0 < f → parse_specs (suc f) (record { rest = []; eof = true }) ≡ some []
unfolding parse_specs parse_spec
parse_specs_at_end zero h = absurd (omega arith)
parse_specs_at_end (suc f) h = refl

-- Lines before the first entry do not matter.
skipped :
    (f : ℕ) (s s' : Stream)
    → parse_spec f s ≡ parse_spec f s'
    → parse_specs (suc f) s ≡ parse_specs (suc f) s'
unfolding parse_specs
skipped f s s' e = rw (e, parse_specs) refl

-- A file of any entries with fields of fewer than 4096 bytes, comments and empty lines, each ended
-- by a newline, and a last entry that the end of the file ends, is parsed into its entries, in
-- order, by any fuel that exceeds the number of lines by two.
pub parse_specs-entries :
    (ls : List Line) (last : Entry) (f : ℕ)
    → length ls + 2 < f
    → AreLines ls
    → IsEntry last
    → parse_specs f (record { rest = text ls last; eof = false }) ≡ some (entries ls last)
unfolding stream after
parse_specs-entries ls last zero h a v = absurd (omega arith)
parse_specs-entries ls last (suc zero) h a v = absurd (omega arith)
parse_specs-entries [] last (suc (suc f)) h a v =
    round (suc f) (stream (text [] last)) (record { rest = []; eof = true }) last []
      (parse_spec-first [] last (suc f) (omega arith) a v) (parse_specs_at_end f (omega arith))
parse_specs-entries (entry e ∷ ls) last (suc (suc f)) h a v =
    round (suc f) (stream (text (entry e ∷ ls) last)) (stream (text ls last)) e (entries ls last)
      (parse_spec-first (entry e ∷ ls) last (suc f) (omega arith) a v)
      (parse_specs-entries ls last (suc f) (omega arith) a.1 v)
parse_specs-entries (comment cs ∷ ls) last (suc (suc f)) h a v =
    skipped (suc f) (stream (text (comment cs ∷ ls) last)) (stream (text ls last)) (
      parse_spec-first (comment cs ∷ ls) last (suc f) (omega arith) a v
      ∙ sym (parse_spec-first ls last (suc f) (omega arith) a.1 v))
    ∙ parse_specs-entries ls last (suc (suc f)) (omega arith) a.1 v
parse_specs-entries (blank ∷ ls) last (suc (suc f)) h a v =
    skipped (suc f) (stream (text (blank ∷ ls) last)) (stream (text ls last)) (
      parse_spec-first (blank ∷ ls) last (suc f) (omega arith) a v
      ∙ sym (parse_spec-first ls last (suc f) (omega arith) a v))
    ∙ parse_specs-entries ls last (suc (suc f)) (omega arith) a v

abbrev pub newlines : ℕ → List ℕ
newlines zero = []
newlines (suc n) = 10 ∷ newlines n

-- What is left of a file that a newline ends is one more entry: it has the type 255 and no names.
pub parse_spec-newlines :
    (n f : ℕ)
    → parse_spec (suc f) (record { rest = newlines n; eof = false })
      ≡ some (some (record { type = 255; dst = []; src = [] }), record { rest = []; eof = true })
unfolding parse_spec skip_newlines after_byte parse_spec_line parse_spec_str
parse_spec-newlines zero f = refl
parse_spec-newlines (suc n) f = parse_spec-newlines n f
