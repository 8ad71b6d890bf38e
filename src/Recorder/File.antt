-- ===== src/Recorder/File.antt =====
-- The file that a recorder leaves.
use protei_cov.Prelude.{
  ℕ, ◌+◌, ◌*◌, ◌≡◌, refl, sym, ◌∙◌, List, [], ◌∷◌, ◌++◌, Text, codes, arith, All, length,
}
use protei_cov.CallRecord.{Cdr, write_cdr}
use protei_cov.CallRecord.Fields.{separators, separators-append, separators-write_cdr}
use protei_cov.Recorder.Defs.{file_header, open_recorder, record_line, make_record}
use mathlib.Core.List.{append_assoc, append-nil}

module _ (local_time : ℕ → Text) where
  -- The file's text after a run of `makeRecord`.
  abbrev recorded : Text → List Cdr → Text
  recorded text [] = text
  recorded text (c ∷ cs) = recorded (make_record local_time text c) cs

  abbrev lines : List Cdr → Text
  lines [] = []
  lines (c ∷ cs) = record_line local_time c ++ lines cs

  recorded-lines : (cs : List Cdr) (text : Text) → recorded text cs ≡ text ++ lines cs
  unfolding make_record
  recorded-lines [] text = sym (append-nil text)
  recorded-lines (c ∷ cs) text =
      recorded-lines cs (text ++ record_line local_time c)
      ∙ append_assoc text (record_line local_time c) (lines cs)

  -- A recorder keeps what its file held, puts the header behind it, and then one line for each record
  -- in the order in which they came.
  file_text :
      (old : Text) (cs : List Cdr)
      → recorded (open_recorder old) cs ≡ old ++ (file_header ++ lines cs)
  unfolding open_recorder
  file_text old cs = recorded-lines cs (open_recorder old) ∙ append_assoc old file_header (lines cs)

  module _ (plain : (n : ℕ) → separators (local_time n) ≡ 0) where
    separators-lines :
        (cs : List Cdr)
        → All (λ c. separators c.number ≡ 0) cs
        → separators (lines cs) ≡ 7 * length cs
    unfolding record_line
    separators-lines [] h = refl
    separators-lines (c ∷ cs) h = ground (
      arith,
      separators-append (write_cdr local_time c ++ codes "\n") (lines cs),
      separators-append (write_cdr local_time c) (codes "\n"),
      separators-write_cdr local_time plain c,
      separators-lines cs h.1,
    )

    separators-file_header : separators file_header ≡ 7
    unfolding file_header
    separators-file_header = refl

    -- The file is a table: the header's titles and each record make eight columns, where no number
    -- and no calendar text holds a separator.
    separators-recorded :
        (old : Text) (cs : List Cdr)
        → All (λ c. separators c.number ≡ 0) cs
        → separators (recorded (open_recorder old) cs) ≡ separators old + 7 * (1 + length cs)
    separators-recorded old cs h = rw (file_text old cs) (
        ground (
          arith,
          separators-append old (file_header ++ lines cs),
          separators-append file_header (lines cs),
          separators-lines cs h,
          separators-file_header,
        ))
