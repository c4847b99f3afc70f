-- ===== src/Lexer/Tokens.antt =====
-- `tokenize`: it ends, and its list is the source cut into tokens.
use vision_pipe.Base.{false, List, [], ◌∷◌, Option, none, ◌≡◌, arith, if◌then◌else◌, Bytes}
use vision_pipe.Lexer.Token.{TokenType, Token, same_type}
use vision_pipe.Lexer.Scan.{Reason, Outcome, ok, error, out_of_range, out_of_fuel, Cursor, ◌>>=◌}
use vision_pipe.Lexer.Machine.{LexerConfig}
use vision_pipe.Lexer.Stream.{Lexer, is_dropped, next_token, peek_token}
use vision_pipe.Lexer.Reads.{Reads}
use vision_pipe.Lexer.Token.{SourceLocation}
use vision_pipe.Lexer.Pieces.{Located}
use vision_pipe.Lexer.Spells.{IsGap, IsFaulty}
use vision_pipe.Lexer.Lexed.{Lexed, Ended}

-- Comments are left out unless they are kept, and so are newlines.
pub data IsDropped (config : LexerConfig) : TokenType → Type 0 where
  comment : config.preserve_comments ≡ false → IsDropped config TokenType.comment
  newline : config.preserve_newlines ≡ false → IsDropped config TokenType.newline

-- The source from `c` on is cut into the tokens `ts` and what `config` drops.
pub data Cuts {D : Type 0} (stod : Bytes → Option D) (config : LexerConfig)
    : Cursor → List (Token D) → Type 0 where
  done : {c : Cursor} → c.0 ≡ [] → Cuts stod config c []
  finish :
      {c : Cursor} {t : Token D} (s : Bytes) (mid c' : Cursor)
      → Reads c s mid
      → IsGap config.preserve_newlines s mid.0
      → Ended mid t c'
      → Cuts stod config c (t ∷ [])
  kept :
      {c : Cursor} {t : Token D} {ts : List (Token D)} (s : Bytes) (mid c' : Cursor)
      → Reads c s mid
      → IsGap config.preserve_newlines s mid.0
      → Lexed stod mid t c'
      → ¬ IsDropped config t.type
      → Cuts stod config c' ts
      → Cuts stod config c (t ∷ ts)
  dropped :
      {c : Cursor} {t : Token D} {ts : List (Token D)} (s : Bytes) (mid c' : Cursor)
      → Reads c s mid
      → IsGap config.preserve_newlines s mid.0
      → Lexed stod mid t c'
      → IsDropped config t.type
      → Cuts stod config c' ts
      → Cuts stod config c ts

-- The source from `c` on is cut into tokens and what `config` drops, up to a place where no token can
-- be read, with the reason.
pub data Fails {D : Type 0} (stod : Bytes → Option D) (config : LexerConfig) (x : Reason)
    (l : SourceLocation) : Cursor → Type 0 where
  here :
      {c : Cursor} (s : Bytes) (mid : Cursor)
      → Reads c s mid
      → IsGap config.preserve_newlines s mid.0
      → IsFaulty x mid.0
      → Located mid l
      → Fails stod config x l c
  behind :
      {c : Cursor} {t : Token D} (s : Bytes) (mid c' : Cursor)
      → Reads c s mid
      → IsGap config.preserve_newlines s mid.0
      → Lexed stod mid t c'
      → Fails stod config x l c'
      → Fails stod config x l c

module _ {D : Type 0} (stod : Bytes → Option D) where
  -- The list is a cut of the source, or a cut gets to the fault of the error.
  abbrev pub Tokenizes : LexerConfig → Cursor → Outcome (List (Token D)) → Type 0
  Tokenizes config c (ok ts) = Cuts stod config c ts
  Tokenizes config c (error r l) = Fails stod config r l c
  Tokenizes config c out_of_range = (s : Bytes) × (stod s ≡ none)
  Tokenizes config c out_of_fuel = ⊥

  -- What a round of the loop does with the token that it got.
  abbrev after_token : LexerConfig → Token D → Outcome (List (Token D)) → Outcome (List (Token D))
  after_token config t rest =
      if is_dropped config t.type
      then rest
      else if same_type t.type TokenType.end_of_file
      then ok (t ∷ [])
      else (rest >>= λ ts. ok (t ∷ ts))

  abbrev fresh_lexer : LexerConfig → Cursor → Lexer D
  fresh_lexer config c = record { config = config; cursor = c; peeked = none }

  -- If a peek succeeds, the call of `nextToken` behind it gives what the call alone would have given:
  -- the same token and the same lexer.
  pub next-peek :
      (lx : Lexer D) {t : Token D} {lx' : Lexer D}
      → peek_token stod lx ≡ ok (t, lx')
      → next_token stod lx' ≡ next_token stod lx
  unfolding peek_token next_token
  next-peek lx h = ground arith
