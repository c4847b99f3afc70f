-- ===== src/Lexer/LoneWord.antt =====
-- A source that ends right behind a word: `tokenize` adds no END_OF_FILE token.
use vision_pipe.Base.{
  ℕ, suc, Bool, true, false, [], ◌∷◌, Option, some, ◌≡◌, refl, arith, Bytes, inl, inr, All,
  append-nil, Option-cases, length,
}
use vision_pipe.Lexer.Token.{
  TokenType, SourceLocation, keywords, find_keyword, same_type, find_word-All,
}
use vision_pipe.Lexer.Scan.{
  ok, current, is_blank, starts_name, continues_name, collect, skip_whitespace,
}
use vision_pipe.Lexer.Machine.{
  LexerConfig, at_end, word_token, scan_identifier_or_keyword, scan_token, fresh_token,
}
use vision_pipe.Lexer.Stream.{new_lexer, is_dropped, next_token, token_loop, tokenize}
use vision_pipe.Lexer.Reads.{locate}
use vision_pipe.Lexer.Lexemes.{word_token-type, word_token-NotEof}
use vision_pipe.Lexer.Words.{scan_identifier-run}

-- Neither a comment nor a newline.
abbrev IsKept : TokenType → Type 0
IsKept ty = (same_type ty TokenType.comment ≡ false) × (same_type ty TokenType.newline ≡ false)

keywords-IsKept : All (λ (k : Bytes × TokenType). IsKept k.1) keywords
unfolding keywords same_type
keywords-IsKept = ground arith

find_keyword-IsKept : (w : Bytes) (ty : TokenType) → find_keyword w ≡ some ty → IsKept ty
unfolding find_keyword
find_keyword-IsKept w ty = find_word-All IsKept w keywords ty keywords-IsKept

identifier-IsKept : IsKept TokenType.identifier
unfolding same_type
identifier-IsKept = (refl, refl)

starts_name-skip_whitespace :
    (newlines : Bool) (b : ℕ) (bs : Bytes) (l : SourceLocation)
    → starts_name b ≡ true
    → skip_whitespace newlines (b ∷ bs, l) ≡ (b ∷ bs, l)
unfolding skip_whitespace collect
starts_name-skip_whitespace newlines b bs l h = rw (not_blank newlines b h, skip_whitespace)
  where
    not_blank : (newlines : Bool) (b : ℕ) → starts_name b ≡ true → is_blank newlines b ≡ false
    not_blank newlines b h = unfold is_blank starts_name in ground arith

module _ {D : Type 0} (stod : Bytes → Option D) where
  word_token-IsKept : (w : Bytes) (l : SourceLocation) → IsKept (word_token stod w l).type
  unfolding word_token
  word_token-IsKept w l = elim (Option-cases (find_keyword w)) [
    | inl e ↦ rw (e, word_token) identifier-IsKept
    | inr (ty, e) ↦ rw (word_token-type stod w l ty e) (find_keyword-IsKept w ty e)
  ]

  word_at_end :
      (w : Bytes) (l : SourceLocation)
      → All (λ x. continues_name x ≡ true) w
      → scan_identifier_or_keyword stod (w, l) ≡ ok (word_token stod w l, ([], locate w l))
  unfolding continues_name
  word_at_end w l a =
      rw (append-nil w) at (scan_identifier-run stod w [] l a (unfold current in refl))

  fresh_token-word :
      (config : LexerConfig) (fuel : ℕ) (b : ℕ) (bs : Bytes) (l : SourceLocation)
      → starts_name b ≡ true
      → All (λ x. continues_name x ≡ true) (b ∷ bs)
      → fresh_token stod config (suc fuel) (b ∷ bs, l)
        ≡ ok (word_token stod (b ∷ bs) l, ([], locate (b ∷ bs) l))
  unfolding fresh_token at_end scan_token current
  fresh_token-word config fuel b bs l h a =
      rw (starts_name-skip_whitespace config.preserve_newlines b bs l h)
        (rw h (word_at_end (b ∷ bs) l a))

  -- On a source that is one word to the last byte, with a first byte that starts a name, `tokenize`
  -- returns the token of the word and nothing behind it: its list does not end in END_OF_FILE.
  pub tokenize-word :
      (filename : Bytes) (config : LexerConfig) (b : ℕ) (bs : Bytes)
      → starts_name b ≡ true
      → All (λ x. continues_name x ≡ true) (b ∷ bs)
      → tokenize stod (new_lexer (b ∷ bs) filename config)
        ≡ ok (
            word_token stod
              (b ∷ bs)
              (record { filename = filename; line = 1; column = 1; offset = 0 })
            ∷ [])
  unfolding tokenize new_lexer token_loop next_token at_end is_dropped
  tokenize-word filename config b bs h a =
      let l : SourceLocation = record { filename = filename; line = 1; column = 1; offset = 0 } in
      let kept = word_token-IsKept (b ∷ bs) l in
      rw (fresh_token-word config (suc (length bs)) b bs l h a)
        (rw (kept.0, kept.1, word_token-NotEof stod (b ∷ bs) l))
