-- ===== src/Lexer/Literals.antt =====
-- String literals: every byte string has a literal that the scanner reads back.
use vision_pipe.Base.{
  ℕ, ◌||◌, [], ◌∷◌, ◌++◌, Option, none, some, ◌≡◌, ◌≢◌, refl, arith, ◌==◌, Option-cases,
  if◌then◌else◌, Bytes, inl, inr, ◌⊎◌,
}
use vision_pipe.Lexer.Token.{TokenType, SourceLocation, text}
use vision_pipe.Lexer.Scan.{ok, pass, advance, unescape, string_body, ◌>>=◌}
use vision_pipe.Lexer.Machine.{make_token, scan_string}
use vision_pipe.Lexer.Reads.{locate, locate-append}

-- The letter that a byte is escaped by, if it needs an escape.
escape_letter : ℕ → Option ℕ
escape_letter b =
    if b == b'\n'
    then some b'n'
    else if b == b'\\' || b == b'"' || b == b'\''
    then some b
    else if b == b'\r'
    then some b'r'
    else if b == b'\t'
    then some b't'
    else if b == 0
    then some b'0'
    else none

-- A byte as it is written inside a literal.
pub escape_byte : ℕ → Bytes
escape_byte b = elim (escape_letter b) [ none ↦ b ∷ [] | some e ↦ b'\\' ∷ e ∷ [] ]

pub escape : Bytes → Bytes
escape [] = []
escape (b ∷ bs) = escape_byte b ++ escape bs

abbrev pub IsQuote : ℕ → Type 0
IsQuote q = (q ≡ b'"') ⊎ (q ≡ b'\'')

unescape-escape : (q b e : ℕ) → IsQuote q → escape_letter b ≡ some e → unescape e ≡ some b
unfolding unescape escape_letter
unescape-escape q b e h k = ground arith

escaped_round :
    (q b e : ℕ) (bs : Bytes) (l : SourceLocation)
    → IsQuote q
    → escape_letter b ≡ some e
    → string_body q (b'\\' ∷ e ∷ bs) l
      ≡ (string_body q bs (pass e (pass b'\\' l)) >>= λ r. ok (b ∷ r.0, r.1))
unfolding string_body
escaped_round q b e bs l h k = ground (arith, unescape-escape q b e h k)

plain_round :
    (q b : ℕ) (bs : Bytes) (l : SourceLocation)
    → IsQuote q
    → bs ≢ []
    → escape_letter b ≡ none
    → string_body q (b ∷ bs) l ≡ (string_body q bs (pass b l) >>= λ r. ok (b ∷ r.0, r.1))
unfolding string_body escape_letter
plain_round q b [] l h n k = absurd (n refl)
plain_round q b (x ∷ bs) l h n k = ground arith

escape_byte-none : (b : ℕ) → escape_letter b ≡ none → escape_byte b ≡ b ∷ []
unfolding escape_byte
escape_byte-none b h = rw (h, escape_byte)

escape_byte-some : (b e : ℕ) → escape_letter b ≡ some e → escape_byte b ≡ b'\\' ∷ e ∷ []
unfolding escape_byte
escape_byte-some b e h = rw (h, escape_byte)

append-cons-ne-nil : (s : Bytes) (q : ℕ) (rest : Bytes) → s ++ q ∷ rest ≢ []
append-cons-ne-nil [] q rest = λ e. cc
append-cons-ne-nil (x ∷ s) q rest = λ e. cc

string_body-escape :
    (q : ℕ) (s rest : Bytes) (l : SourceLocation)
    → IsQuote q
    → string_body q (escape s ++ q ∷ rest) l ≡ ok (s, (q ∷ rest, locate (escape s) l))
unfolding escape
string_body-escape q [] [] l h = unfold string_body in ground arith
string_body-escape q [] (x ∷ rest) l h = unfold string_body in ground arith
string_body-escape q (b ∷ s) rest l h = elim (Option-cases (escape_letter b)) [
  | inl k ↦
      rw
        (
          escape_byte-none b k,
          plain_round q b (escape s ++ q ∷ rest) l h (append-cons-ne-nil (escape s) q rest) k,
        )
        (rw (string_body-escape q s rest (pass b l) h))
  | inr (e, k) ↦
      rw (escape_byte-some b e k, escaped_round q b e (escape s ++ q ∷ rest) l h k)
        (rw (string_body-escape q s rest (pass e (pass b'\\' l)) h))
]

module _ {D : Type 0} (stod : Bytes → Option D) where
  -- Reading back: behind a single or double quote, the escaped bytes of any byte string and the same
  -- quote, the scanner returns the string literal that holds the byte string, and leaves the rest.
  pub scan_string-escape :
      (q : ℕ) (s rest : Bytes) (l : SourceLocation)
      → IsQuote q
      → scan_string stod q (q ∷ (escape s ++ q ∷ rest), l)
        ≡ ok (
          record { type = TokenType.string_literal; value = text s; location = l; raw = s },
          (rest, locate (q ∷ (escape s ++ q ∷ [])) l),
        )
  unfolding scan_string advance make_token
  scan_string-escape q s rest l h =
      rw (string_body-escape q s rest (pass q l) h)
        (rw (locate-append (escape s) (q ∷ []) (pass q l)))
