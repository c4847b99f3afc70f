-- ===== src/Lexer/Lexed.antt =====
-- What a token says of the source that it is read from: the statements that the scanners meet.
use vision_pipe.Base.{Option, none, false, [], ◌++◌, ◌≡◌, ◌≢◌, Bytes, inl, ◌⊎◌}
use vision_pipe.Lexer.Token.{TokenType, SourceLocation, Token, same_type}
use vision_pipe.Lexer.Scan.{Outcome, ok, error, out_of_range, out_of_fuel, Cursor}
use vision_pipe.Lexer.Machine.{LexerConfig}
use vision_pipe.Lexer.Spells.{Spells, IsGap, nothing, IsFaulty}
use vision_pipe.Lexer.Reads.{Reads, Reads-nil, Reads-trans}
use vision_pipe.Lexer.Pieces.{Located}

-- The types whose `raw` is not the text of the token.
pub data IsRewritten : TokenType → Type 0 where
  string : IsRewritten TokenType.string_literal
  comment : IsRewritten TokenType.comment
  doc_comment : IsRewritten TokenType.doc_comment

abbrev pub NotEof : TokenType → Type 0
NotEof ty = same_type ty TokenType.end_of_file ≡ false

-- `t` is read from `c` on, and `c'` is left.
pub record Lexed {D : Type 0} (stod : Bytes → Option D) (c : Cursor) (t : Token D) (c' : Cursor)
    : Type 0 where
  pub lexeme : Bytes
  pub nonempty : lexeme ≢ []
  pub reads : Reads c lexeme c'
  pub starts : (t.location ≡ c.1) ⊎ ((t.type ≡ TokenType.newline) × (t.location ≡ c'.1))
  pub verbatim : (t.raw ≡ lexeme) ⊎ IsRewritten t.type
  pub not_eof : NotEof t.type
  pub spells : Spells stod t.type t.value lexeme c'.0

-- The end of the source: nothing is left.
pub record Ended {D : Type 0} (c : Cursor) (t : Token D) (c' : Cursor) : Type 0 where
  pub is_eof : t.type ≡ TokenType.end_of_file
  pub nothing_left : c.0 ≡ []
  pub stays : c' ≡ c
  pub starts : t.location ≡ c.1

pub Located-after :
    {c c₁ : Cursor} {s : Bytes} (l : SourceLocation) → Reads c s c₁ → Located c₁ l → Located c l
Located-after {c} {c₁} {s} l h (t, r, e, k) =
    let whole = Reads-trans h (let g : Reads c₁ t (r, l) = record { splits = e; ends = k } in g) in
    (s ++ t, r, whole.splits, whole.ends)

module _ {D : Type 0} (stod : Bytes → Option D) where
  -- A direct result of a scanner.
  abbrev pub Scans : Cursor → Outcome (Token D × Cursor) → Type 0
  Scans c (ok (t, c')) = Lexed stod c t c'
  Scans c (error r l) = Located c l × IsFaulty r c.0
  Scans c out_of_range = (s : Bytes) × (stod s ≡ none)
  Scans c out_of_fuel = ⊥

  -- A result behind blanks and comments.
  abbrev pub Fresh : LexerConfig → Cursor → Outcome (Token D × Cursor) → Type 0
  Fresh config c (ok (t, c')) =
      (skipped : Bytes) × (mid : Cursor) × Reads c skipped mid
      × IsGap config.preserve_newlines skipped mid.0
      × (Lexed stod mid t c' ⊎ Ended mid t c')
  Fresh config c (error r l) =
      (skipped : Bytes) × (mid : Cursor) × Reads c skipped mid
      × IsGap config.preserve_newlines skipped mid.0
      × Located mid l
      × IsFaulty r mid.0
  Fresh config c out_of_range = (s : Bytes) × (stod s ≡ none)
  Fresh config c out_of_fuel = ⊥

  pub Fresh-of-Scans :
      (config : LexerConfig) (c : Cursor) (m : Outcome (Token D × Cursor))
      → Scans c m
      → Fresh config c m
  Fresh-of-Scans config c (ok (t, c')) h = ([], c, Reads-nil c, nothing, inl h)
  Fresh-of-Scans config c (error r l) h = ([], c, Reads-nil c, nothing, h.0, h.1)
  Fresh-of-Scans config c out_of_range h = h
  Fresh-of-Scans config c out_of_fuel h = h

  -- Behind bytes that may be skipped, whatever gap follows.
  pub Fresh-after :
      {c c₁ : Cursor} {s : Bytes} (config : LexerConfig) (m : Outcome (Token D × Cursor))
      → Reads c s c₁
      → ((k r : Bytes)
          → c₁.0 ≡ k ++ r
          → IsGap config.preserve_newlines k r
          → IsGap config.preserve_newlines (s ++ k) r)
      → Fresh config c₁ m
      → Fresh config c m
  Fresh-after {s} config (ok (t, c')) h g (k, mid, r, gap, d) =
      (s ++ k, mid, Reads-trans h r, g k mid.0 r.splits gap, d)
  Fresh-after {s = s} config (error x l) h g (k, mid, r, gap, d, bad) =
      (s ++ k, mid, Reads-trans h r, g k mid.0 r.splits gap, d, bad)
  Fresh-after config out_of_range h g k = k
  Fresh-after config out_of_fuel h g k = k
