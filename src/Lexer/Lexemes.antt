-- ===== src/Lexer/Lexemes.antt =====
-- What one call of the scanners and of `nextToken` returns, as a statement about the source.
use vision_pipe.Base.{
  ℕ, true, false, ◌&&◌, ◌||◌, [], ◌∷◌, ◌++◌, Option, some, ◌≡◌, refl, sym, subst, if◌then◌else◌, ap,
  arith, ◌==◌, Bytes, Bool-cases, Option-cases, inl, inr,
}
use vision_pipe.Lexer.Token.{TokenType, SourceLocation, monostate, text, find_keyword, same_type}
use vision_pipe.Lexer.Scan.{
  Outcome, ok, error, out_of_range, out_of_fuel, Cursor, pass, advance, current, peek, is_digit,
  starts_name, continues_name, collect, optional, not_newline, string_body, ◌>>=◌,
}
use vision_pipe.Lexer.Machine.{
  number_text, make_token, word_token, scan_identifier_or_keyword, scan_number, scan_string,
  scan_parameter, scan_comment, trim,
}
use vision_pipe.Lexer.Reads.{
  Reads-cons, Reads-trans, collect-Reads, optional-Reads, advance-Reads, current-ne-nil,
}
use vision_pipe.Lexer.Spells.{
  IsNameStart, IsNameByte, Stops, Spells, word, numeral, quoted, lone_at, line_end, bad_text,
}
use vision_pipe.Lexer.Spelled.{
  starts_name-IsNameStart, IsNameStart-starts_name, continues_name-IsNameByte,
  IsNameByte-continues_name, collect-All, collect-Stops, collect-cons, Starts-piece, head_or,
}
use vision_pipe.Lexer.Meanings.{
  starts_name-continues, word_token-WordMeans, parameter-Spells, number_text-All, comment-Spells,
}
use vision_pipe.Lexer.Pieces.{number_text-Reads, Quotes, string_body-Quotes}
use vision_pipe.Lexer.Lexed.{string, NotEof, Lexed, Located-after, Scans}
use vision_pipe.Lexer.Kinds.{
  comment-IsRewritten, find_keyword-NotEof, identifier-NotEof, comment-NotEof,
}

-- What follows a lone `@`.
unnamed :
    (l : SourceLocation) (bs : Bytes) → starts_name (current (bs, l)) ≡ false → Stops IsNameStart bs
unfolding current
unnamed l [] e = tt
unnamed l (b ∷ bs) e = λ k. let f = IsNameStart-starts_name b k in ground arith

module _ {D : Type 0} where
  module _ (stod : Bytes → Option D) where
    word_token-location :
        (w : Bytes) (l : SourceLocation)
        → ((word_token stod w l).location ≡ l) × ((word_token stod w l).raw ≡ w)
    unfolding word_token
    word_token-location w l = ground arith

    pub word_token-type :
        (w : Bytes) (l : SourceLocation) (ty : TokenType)
        → find_keyword w ≡ some ty
        → (word_token stod w l).type ≡ ty
    unfolding word_token
    word_token-type w l ty h = ground arith

    pub word_token-NotEof : (w : Bytes) (l : SourceLocation) → NotEof (word_token stod w l).type
    unfolding word_token
    word_token-NotEof w l = elim (Option-cases (find_keyword w)) [
      | inl e ↦ rw (e, word_token) identifier-NotEof
      | inr (ty, e) ↦ rw (word_token-type w l ty e) (find_keyword-NotEof w ty e)
    ]

    pub identifier-Scans :
        (b : ℕ) (bs : Bytes) (l : SourceLocation)
        → starts_name b ≡ true
        → Scans stod (b ∷ bs, l) (scan_identifier_or_keyword stod (b ∷ bs, l))
    unfolding scan_identifier_or_keyword
    identifier-Scans b bs l h =
        let run = collect continues_name bs (pass b l) in
        rw (collect-cons continues_name b bs l (starts_name-continues b h)) (record {
          lexeme = b ∷ run.0;
          nonempty = λ e. cc;
          reads = Reads-cons (collect-Reads continues_name bs (pass b l));
          starts = inl (word_token-location (b ∷ run.0) l).0;
          verbatim = inl (word_token-location (b ∷ run.0) l).1;
          not_eof = word_token-NotEof (b ∷ run.0) l;
          spells =
              word (starts_name-IsNameStart b h)
                (collect-All continues_name IsNameByte continues_name-IsNameByte bs (pass b l))
                (collect-Stops continues_name IsNameByte IsNameByte-continues_name bs (pass b l))
                (word_token-WordMeans stod (b ∷ run.0) l);
        })

    pub number-Scans :
        (b : ℕ) (bs : Bytes) (l : SourceLocation)
        → (is_digit b || (b == b'-' && is_digit (peek (b ∷ bs, l)))) ≡ true
        → Scans stod (b ∷ bs, l) (scan_number stod (b ∷ bs, l))
    unfolding same_type scan_number
    number-Scans b bs l h = elim (Option-cases (stod (number_text (b ∷ bs, l)).0)) [
      | inl e ↦ rw (e, scan_number) ((number_text (b ∷ bs, l)).0, e)
      | inr (d, e) ↦
          rw (e, scan_number)
            (record {
              lexeme = (number_text (b ∷ bs, l)).0;
              nonempty = (number_text-Reads b bs l h).1;
              reads = (number_text-Reads b bs l h).0;
              starts = inl refl;
              verbatim = inl refl;
              not_eof = refl;
              spells =
                  numeral
                    (Starts-piece _ b bs (number_text (b ∷ bs, l)).0 (number_text (b ∷ bs, l)).1.0
                      (number_text-Reads b bs l h).0.splits (number_text-Reads b bs l h).1
                      (ground arith))
                    (number_text-All (b ∷ bs, l)) e;
            })
    ]

    pub string-Scans :
        (b : ℕ) (bs : Bytes) (l : SourceLocation)
        → (b == b'"' || b == b'\'') ≡ true
        → Scans stod (b ∷ bs, l) (scan_string stod b (b ∷ bs, l))
    unfolding same_type scan_string advance
    string-Scans b bs l quote =
        close (string_body b bs (pass b l)) (string_body-Quotes b bs (pass b l))
      where
        c : Cursor
        c = (b ∷ bs, l)

        close :
            (m : Outcome (Bytes × Cursor))
            → Quotes b (bs, pass b l) m
            → Scans stod c (
                m >>= λ r.
                ok (make_token stod TokenType.string_literal (text r.0) l r.0, advance r.1))
        close (ok (v, (q ∷ rest, l'))) (s, rest', h, e, x) = record {
          lexeme = b ∷ (s ++ q ∷ []);
          nonempty = λ e. cc;
          reads = Reads-trans (advance-Reads b bs l) (Reads-trans h (advance-Reads q rest l'));
          starts = inl refl;
          verbatim = inr string;
          not_eof = refl;
          spells = rw (ap (head_or b) e) (quoted s (ground arith) x);
        }
        close (ok (v, ([], l'))) (s, rest', h, e, x) = cc
        close (error r l') (h, bad) =
            (Located-after l' (advance-Reads b bs l) h, bad_text (ground arith) bad)
        close out_of_range h = absurd h
        close out_of_fuel h = h

    pub parameter-Scans :
        (b : ℕ) (bs : Bytes) (l : SourceLocation)
        → b ≡ b'@'
        → Scans stod (b ∷ bs, l) (scan_parameter stod (b ∷ bs, l))
    unfolding same_type scan_parameter advance
    parameter-Scans b bs l h = elim (Bool-cases (starts_name (current (bs, pass b l)))) [
      | inl e ↦ rw e (record {
        lexeme = b ∷ (collect continues_name bs (pass b l)).0;
        nonempty = λ e. cc;
        reads = Reads-cons (collect-Reads continues_name bs (pass b l));
        starts = inl refl;
        verbatim = inl (cc);
        not_eof = refl;
        spells =
            (let run = collect continues_name bs (pass b l) in
              subst (λ x. Spells stod TokenType.op_at (text run.0) (x ∷ run.0) run.1.0) (sym h)
                (parameter-Spells stod bs (pass b l) e));
      })
      | inr e ↦ rw e (record {
        lexeme = b ∷ [];
        nonempty = λ e. cc;
        reads = advance-Reads b bs l;
        starts = inl refl;
        verbatim = inl (cc);
        not_eof = refl;
        spells = rw h (lone_at (unnamed (pass b l) bs e));
      })
    ]

    pub comment-Scans :
        (b : ℕ) (bs : Bytes) (l : SourceLocation)
        → b ≡ b'#'
        → Scans stod (b ∷ bs, l) (scan_comment stod (b ∷ bs, l))
    unfolding scan_comment advance
    comment-Scans b bs l h =
        let doc = current (bs, pass b l) == b'#' in
        let mark = optional doc (bs, pass b l) in
        let body = collect not_newline mark.1.0 mark.1.1 in
        record {
          lexeme = b ∷ (mark.0 ++ (collect not_newline mark.1.0 mark.1.1).0);
          nonempty = λ e. cc;
          reads = Reads-cons (
              Reads-trans
                (optional-Reads doc _
                  (λ t. current-ne-nil b'#' (bs, pass b l) (omega arith) (ground arith)))
                (collect-Reads not_newline mark.1.0 mark.1.1));
          starts = inl refl;
          verbatim = inr (comment-IsRewritten doc);
          not_eof = comment-NotEof doc;
          spells =
              subst
                (λ x.
                  Spells stod (if doc then TokenType.doc_comment else TokenType.comment)
                    (text (trim body.0)) (x ∷ (mark.0 ++ body.0)) body.1.0)
                (sym h) (comment-Spells stod doc (bs, pass b l) refl);
        }

    pub newline-Lexed :
        (b : ℕ) (bs : Bytes) (l : SourceLocation)
        → b ≡ b'\n'
        → Lexed stod
            (b ∷ bs, l)
            (make_token stod TokenType.newline monostate (pass b l) (b'\n' ∷ []))
            (bs, pass b l)
    unfolding same_type make_token advance
    newline-Lexed b bs l h = record {
      lexeme = b ∷ [];
      nonempty = λ e. cc;
      reads = advance-Reads b bs l;
      starts = inr (refl, refl);
      verbatim = inl (cc);
      not_eof = refl;
      spells = rw h line_end;
    }
