-- ===== src/Tests/Lexing.antt =====
-- The lexer on concrete sources.
use vision_pipe.Base.{
  ℕ, ◌+◌, true, false, [], ◌∷◌, ◌++◌, Option, none, some, ◌≡◌, refl, arith, Bytes, bytes, length,
  inl,
}
use vision_pipe.Lexer.Token.{
  TokenType, SourceLocation, Token, TokenValue, text, find_keyword, find_word, keywords,
}
use vision_pipe.Lexer.Scan.{ok, continues_name, starts_name, skip_whitespace}
use vision_pipe.Lexer.Machine.{
  LexerConfig, scan_string, scan_identifier_or_keyword, word_token, fresh_token,
}
use vision_pipe.Lexer.Stream.{Lexer, new_lexer, next_token, peek_token, tokenize}
use vision_pipe.Lexer.Reads.{locate}
use vision_pipe.Lexer.Tokens.{next-peek}
use vision_pipe.Lexer.Literals.{escape, scan_string-escape}
use vision_pipe.Lexer.Position.{newlines, since_newline, locate_from}
use vision_pipe.Lexer.Spells.{name}
use vision_pipe.Lexer.Words.{
  identifier-longest, IsSorted, find_keyword-IsSorted, type_to_string-injective,
}
use vision_pipe.Lexer.LoneWord.{tokenize-word}

-- A stand-in for `std::stod`: the number of bytes.
abbrev stod : Bytes → Option ℕ
stod bs = some (length bs)

abbrev default_config : LexerConfig
default_config = record { preserve_comments = false; preserve_newlines = true }

abbrev file : Bytes
file = bytes "a.vsp"

abbrev start : SourceLocation
start = record { filename = file; line = 1; column = 1; offset = 0 }

abbrev source : Bytes
source = bytes "let x = 1\nresize(x)"

scan_string-escape_example :
    scan_string stod b'"' (b'"' ∷ (escape (bytes "a\"b\n") ++ b'"' ∷ bytes " x"), start)
    ≡ ok (
      record {
        type = TokenType.string_literal;
        value = text (bytes "a\"b\n");
        location = start;
        raw = bytes "a\"b\n";
      },
      (bytes " x", locate (b'"' ∷ (escape (bytes "a\"b\n") ++ b'"' ∷ [])) start),
    )
scan_string-escape_example =
    scan_string-escape stod b'"' (bytes "a\"b\n") (bytes " x") start (inl refl)

locate_from_example :
    ((locate source start).line ≡ 1 + newlines source)
    × ((locate source start).column ≡ 1 + since_newline 0 source)
    × ((locate source start).offset ≡ 0 + length source)
    × ((locate source start).filename ≡ file)
locate_from_example = locate_from source start 0 refl

identifier-longest_example :
    scan_identifier_or_keyword stod (bytes "x_1" ++ bytes "-2", start)
    ≡ ok (
      record {
        type = TokenType.identifier;
        value = text (bytes "x_1");
        location = start;
        raw = bytes "x_1";
      },
      (bytes "-2", locate (bytes "x_1") start),
    )
unfolding find_keyword find_word keywords
identifier-longest_example =
    identifier-longest stod (bytes "x_1") (bytes "-2") start
      (ground arith, (ground arith, (ground arith, tt))) (λ h. ground arith) (name refl)

tokenize-word_example :
    tokenize stod (new_lexer (bytes "x1") file default_config)
    ≡ ok (word_token stod (bytes "x1") start ∷ [])
unfolding continues_name starts_name
tokenize-word_example =
    tokenize-word stod file default_config b'x' (bytes "1") refl (refl, (refl, tt))

find_keyword-IsSorted_example : IsSorted (bytes "pipeline") TokenType.kw_pipeline
unfolding find_keyword find_word keywords
find_keyword-IsSorted_example = find_keyword-IsSorted (bytes "pipeline") TokenType.kw_pipeline refl

type_to_string-injective_example : TokenType.op_arrow ≡ TokenType.op_arrow
type_to_string-injective_example =
    type_to_string-injective TokenType.op_arrow TokenType.op_arrow refl

-- The lexer after a peek at the end of an empty source.
abbrev empty_lexer : Lexer ℕ
empty_lexer = record { config = default_config; cursor = ([], start); peeked = none }

abbrev eof_token : Token ℕ
eof_token = record {
  type = TokenType.end_of_file;
  value = TokenValue.monostate;
  location = start;
  raw = [];
}

abbrev peeked_lexer : Lexer ℕ
peeked_lexer = record { config = default_config; cursor = ([], start); peeked = some eof_token }

next-peek_example : next_token stod peeked_lexer ≡ next_token stod empty_lexer
unfolding peek_token next_token fresh_token skip_whitespace
next-peek_example = next-peek stod empty_lexer {t = eof_token} {lx' = peeked_lexer} refl
