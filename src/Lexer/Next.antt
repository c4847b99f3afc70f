-- ===== src/Lexer/Next.antt =====
-- `scanToken` and `nextToken`: whatever they return is a statement about the source, and the fuel
-- that `next_token` takes is always enough.
use vision_pipe.Base.{ℕ, ◌<◌, Option, Bytes, length}
use vision_pipe.Lexer.Token.{Token}
use vision_pipe.Lexer.Scan.{Outcome, Cursor}
use vision_pipe.Lexer.Machine.{LexerConfig}
use vision_pipe.Lexer.Reads.{Reads}
use vision_pipe.Lexer.Lexed.{Fresh}

module _ {D : Type 0} (stod : Bytes → Option D) where
  -- `next` is right on every cursor with fewer bytes than `n`.
  abbrev Serves : LexerConfig → ℕ → (Cursor → Outcome (Token D × Cursor)) → Type 0
  Serves config n next = (c : Cursor) → length c.0 < n → Fresh stod config c (next c)
