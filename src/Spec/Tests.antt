-- ===== src/Spec/Tests.antt =====
-- A specification of a comment and two files, and the theorems there.
use fusee_os.Base.{◌≡◌, refl, arith, true, false, some, List, [], ◌∷◌}
use fusee_os.Spec.{
  Entry, parse_specs, parse_spec, parse_spec_line, parse_spec_str, skip_newlines, skip_comment,
  after_byte,
}
use fusee_os.Spec.Lines.{
  Line, entry, comment, blank, text, IsEntry, IsComment, parse_specs-entries, parse_spec-newlines,
}

abbrev kernel : Entry
kernel = record { type = b'f'; dst = b'k' ∷ []; src = b'o' ∷ b'k' ∷ [] }

abbrev shell : Entry
shell = record { type = b'f'; dst = b's' ∷ []; src = b'o' ∷ b's' ∷ [] }

abbrev lines : List Line
lines = comment (b' ' ∷ b'x' ∷ []) ∷ blank ∷ entry kernel ∷ []

kernel-IsEntry : IsEntry kernel
kernel-IsEntry = record {
  type_newline = omega arith;
  type_return = omega arith;
  type_comment = omega arith;
  dst = (refl, tt);
  short_dst = omega arith;
  short_src = omega arith;
  src = (refl, (refl, tt));
}

shell-IsEntry : IsEntry shell
shell-IsEntry = record {
  type_newline = omega arith;
  type_return = omega arith;
  type_comment = omega arith;
  dst = (refl, tt);
  short_dst = omega arith;
  short_src = omega arith;
  src = (refl, (refl, tt));
}

space-IsComment : IsComment (b' ' ∷ b'x' ∷ [])
space-IsComment = omega arith

parse_specs_runs :
    parse_specs 9 (record { rest = text lines shell; eof = false }) ≡ some (kernel ∷ shell ∷ [])
unfolding parse_specs parse_spec parse_spec_line parse_spec_str skip_newlines skip_comment
    after_byte
parse_specs_runs = refl

parse_specs-entries_example :
    parse_specs 9 (record { rest = text lines shell; eof = false }) ≡ some (kernel ∷ shell ∷ [])
parse_specs-entries_example =
    parse_specs-entries lines shell 9 (omega arith) (space-IsComment, (kernel-IsEntry, tt))
      shell-IsEntry

parse_spec-newlines_example :
    parse_spec 1 (record { rest = 10 ∷ []; eof = false })
    ≡ some (some (record { type = 255; dst = []; src = [] }), record { rest = []; eof = true })
parse_spec-newlines_example = parse_spec-newlines 1 0
