-- ===== src/Lexer/Position.antt =====
-- What a location says: the line counts the newlines passed, the column the bytes since the last.
use vision_pipe.Base.{ℕ, suc, ◌+◌, [], ◌∷◌, ◌≡◌, refl, arith, ◌==◌, if◌then◌else◌, Bytes, length}
use vision_pipe.Lexer.Token.{SourceLocation}
use vision_pipe.Lexer.Scan.{pass}
use vision_pipe.Lexer.Reads.{locate}

abbrev pub newlines : Bytes → ℕ
newlines [] = 0
newlines (b ∷ bs) = (if b == b'\n' then 1 else 0) + newlines bs

-- The bytes behind the last newline, with `n` bytes already on the line.
abbrev pub since_newline : ℕ → Bytes → ℕ
since_newline n [] = n
since_newline n (b ∷ bs) = since_newline (if b == b'\n' then 0 else n + 1) bs

-- From a location in column n + 1 the bytes `s` lead to a location whose line is later by the
-- newlines in `s`, whose column counts from 1 the bytes behind the last newline, with the n bytes
-- before `s` if there is none, and whose offset is later by all of `s`; the file name stays.
pub locate_from :
    (s : Bytes) (l : SourceLocation) (n : ℕ)
    → l.column ≡ suc n
    → ((locate s l).line ≡ l.line + newlines s)
      × ((locate s l).column ≡ suc (since_newline n s))
      × ((locate s l).offset ≡ l.offset + length s)
      × ((locate s l).filename ≡ l.filename)
unfolding pass
locate_from [] l n h = (omega arith, h, omega arith, refl)
locate_from (b ∷ s) l n h =
    ground (arith, locate_from s (pass b l) (if b == b'\n' then 0 else n + 1))
