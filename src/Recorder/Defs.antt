-- ===== src/Recorder/Defs.antt =====
-- The class FileRecorder, as the text of its file.
use protei_cov.Prelude.{Bool, ℕ, zero, suc, [], ◌∷◌, ◌++◌, Text, codes}
use protei_cov.CallRecord.{Cdr, write_cdr}

abbrev hashes : ℕ → Text
hashes zero = []
hashes (suc n) = b'#' ∷ hashes n

-- What the constructor puts behind the file's old text: `std::endl` is a line feed.
unfoldable pub file_header : Text
file_header =
    hashes 136
    ++ (codes "\n"
        ++ (codes
              "#DT of the incoming call;Incoming Call ID;Caller number;DT of call termination;Call status;"
            ++ (codes "DT operator answer;Operator ID;Call duration#"
                ++ (codes "\n" ++ (hashes 136 ++ codes "\n")))))

unfoldable pub open_recorder : Text → Text
open_recorder old = old ++ file_header

unfoldable pub record_line : (ℕ → Text) → Cdr → Text
record_line local_time cdr = write_cdr local_time cdr ++ codes "\n"

-- The members: the file, by its text, and the logger, to which nothing is written.
record FileRecorder : Type 0 where
  file : Text
  has_logger : Bool

unfoldable set_logger : Bool → FileRecorder → FileRecorder
set_logger logger r = record r { has_logger = logger }

-- `makeRecord` on the text of the file.
unfoldable pub make_record : (ℕ → Text) → Text → Cdr → Text
make_record local_time text cdr = text ++ record_line local_time cdr
