-- ===== src/Lexer/Kinds.antt =====
-- No scanner's token but the last is END_OF_FILE: by cases on the tables of operators and words.
use vision_pipe.Base.{
  ℕ, Bool, true, false, Option, some, ◌≡◌, ◌≢◌, refl, arith, if◌then◌else◌, Bytes,
}
use vision_pipe.Lexer.Token.{TokenType, find_keyword, find_word-All, keywords, same_type}
use vision_pipe.Lexer.Machine.{single, double}
use vision_pipe.Lexer.Lexed.{IsRewritten, comment, doc_comment, NotEof}

pub comment-IsRewritten :
    (doc : Bool) → IsRewritten (if doc then TokenType.doc_comment else TokenType.comment)
comment-IsRewritten true = doc_comment
comment-IsRewritten false = comment

pub single-NotEof : (b : ℕ) (ty : TokenType) → single b ≡ some ty → NotEof ty
unfolding single same_type
single-NotEof b ty h = ground arith

pub double-NotEof :
    (b e : ℕ) (two : TokenType) (one : Option TokenType)
    → double b ≡ some (e, two, one)
    → NotEof two
unfolding double same_type
double-NotEof b e two one h = ground arith

pub double-one-NotEof :
    (b e : ℕ) (two ty : TokenType) → double b ≡ some (e, two, some ty) → NotEof ty
unfolding double same_type
double-one-NotEof b e two ty h = ground arith

pub find_keyword-NotEof : (w : Bytes) (ty : TokenType) → find_keyword w ≡ some ty → NotEof ty
unfolding find_keyword same_type
find_keyword-NotEof w ty h = find_word-All NotEof w keywords ty (ground arith) h

pub identifier-NotEof : NotEof TokenType.identifier
unfolding same_type
identifier-NotEof = refl

pub comment-NotEof :
    (doc : Bool) → NotEof (if doc then TokenType.doc_comment else TokenType.comment)
unfolding same_type
comment-NotEof true = refl
comment-NotEof false = refl

pub double-ne-zero :
    (b e : ℕ) (two : TokenType) (one : Option TokenType) → double b ≡ some (e, two, one) → e ≢ 0
unfolding double
double-ne-zero b e two one h = ground arith
