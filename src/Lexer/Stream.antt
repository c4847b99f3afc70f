-- ===== src/Lexer/Stream.antt =====
-- The `Lexer` object: its one-token buffer (`nextToken`, `peekToken`) and `tokenize`.
use vision_pipe.Base.{
  ◌+◌, ◌==◌, ℕ, zero, suc, Bool, not, ◌&&◌, ◌||◌, List, [], ◌∷◌, Option, none, some, if◌then◌else◌,
  Bytes, length,
}
use vision_pipe.Lexer.Token.{TokenType, Token, same_type}
use vision_pipe.Lexer.Scan.{Outcome, ok, out_of_fuel, ◌>>=◌, Cursor}
use vision_pipe.Lexer.Machine.{LexerConfig, at_end, fresh_token}

pub record Lexer (D : Type 0) : Type 0 where
  pub config : LexerConfig
  pub cursor : Cursor
  pub peeked : Option (Token D)

-- The constructor: line 1, column 1, offset 0.
unfoldable pub new_lexer : {D : Type 0} → Bytes → Bytes → LexerConfig → Lexer D
new_lexer source filename config = record {
  config = config;
  cursor = (source, record { filename = filename; line = 1; column = 1; offset = 0 });
  peeked = none;
}

-- The tokens that `tokenize` leaves out.
unfoldable pub is_dropped : LexerConfig → TokenType → Bool
unfolding same_type
is_dropped config ty =
    (same_type ty TokenType.comment && not config.preserve_comments)
    || (same_type ty TokenType.newline && not config.preserve_newlines)

-- `getLineContent`: where the line starts, if the search reaches it, and what stands there up to the
-- next newline; a line that the search does not reach is answered with the first.
unfoldable pub find_line : ℕ → ℕ → Bytes → Option Bytes
find_line current_line line_number [] = none
find_line current_line line_number (b ∷ bs) =
    let next = find_line (if b == b'\n' then current_line + 1 else current_line) line_number bs in
    if current_line == line_number then some (b ∷ bs) else next

unfoldable pub line_text : Bytes → Bytes
line_text [] = []
line_text (b ∷ bs) = if b == b'\n' then [] else b ∷ line_text bs

unfoldable pub get_line_content : ℕ → Bytes → Bytes
unfolding find_line line_text
get_line_content line_number source = elim (find_line 1 line_number source) [
  | some found ↦ line_text found
  | none ↦ line_text source
]

module _ {D : Type 0} (stod : Bytes → Option D) where
  unfoldable pub next_token : Lexer D → Outcome (Token D × Lexer D)
  next_token lx = elim lx.peeked [
    | some t ↦ ok (t, record lx { peeked = none })
    | none ↦ fresh_token stod lx.config (suc (length lx.cursor.0)) lx.cursor >>= λ r.
        ok (r.0, record lx { cursor = r.1 })
  ]

  unfoldable pub peek_token : Lexer D → Outcome (Token D × Lexer D)
  unfolding next_token
  peek_token lx = elim lx.peeked [
    | some t ↦ ok (t, lx)
    | none ↦ next_token lx >>= λ r. ok (r.0, record r.1 { peeked = some r.0 })
  ]

  -- The loop of `tokenize`, with the argument that bounds its rounds.
  unfoldable pub token_loop : ℕ → Lexer D → Outcome (List (Token D))
  unfolding at_end
  token_loop zero lx = out_of_fuel
  token_loop (suc fuel) lx =
      let round = next_token lx >>= λ (r : Token D × Lexer D).
      let rest = token_loop fuel r.1 in
      if is_dropped lx.config r.0.type
      then rest
      else if same_type r.0.type TokenType.end_of_file
      then ok (r.0 ∷ [])
      else (rest >>= λ ts. ok (r.0 ∷ ts)) in
      if at_end lx.cursor then ok [] else round

  unfoldable pub tokenize : Lexer D → Outcome (List (Token D))
  unfolding token_loop
  tokenize lx = token_loop (suc (suc (length lx.cursor.0))) lx
