-- ===== src/Parser/Cursor.antt =====
-- The helpers that move the cursor over the tokens: src/interpreter/parser.cpp, from `current` to
-- `synchronize`.
use vision_pipe.Base.{
  Bool, true, false, List, [], ◌∷◌, ◌++◌, Option, none, some, ℕ, Bytes, if◌then◌else◌, ◌||◌,
  get_elem?,
}
use vision_pipe.Lexer.Token.{
  Token, TokenType, same_type, as_string, end_of_file, doc_comment, kw_pipeline, kw_end,
  kw_exec_seq, kw_exec_multi, kw_exec_loop, kw_exec_interval, kw_no_interval,
  kw_exec_interval_multi, kw_exec_rt_seq, kw_exec_rt_multi, kw_exec_nasync, kw_exec_fork,
  kw_debug_start, kw_debug_end, kw_if, kw_while, kw_return, kw_import, kw_global, kw_config,
}
use vision_pipe.Parser.State.{
  State, state, ParseError, Outcome, ok, failed, out_of_bounds, thrown, out_of_fuel, Parser, pure,
  ◌>>=◌, ◌>>◌, ask, run, branch,
}

module _ {D : Type 0} where
  -- `_tokens[_current]`.
  unfoldable pub current : Parser D (Token D)
  current (state b (t ∷ a) d es) = ok t (state b (t ∷ a) d es)
  current (state b [] d es) = out_of_bounds

  unfoldable pub previous : Parser D (Token D)
  previous (state (t ∷ b) a d es) = ok t (state (t ∷ b) a d es)
  previous (state [] (t ∷ a) d es) = ok t (state [] (t ∷ a) d es)
  previous (state [] [] d es) = out_of_bounds

  -- `_tokens.back()`, with the tokens before the cursor in the first list, the last one first.
  unfoldable pub back : List (Token D) → List (Token D) → Option (Token D)
  back [] [] = none
  back (t ∷ b) [] = some t
  back b (t ∷ a) = back (t ∷ b) a

  unfoldable pub at_or_out : Option (Token D) → Parser D (Token D)
  at_or_out none s = out_of_bounds
  at_or_out (some t) s = ok t s

  unfoldable pub peek : ℕ → Parser D (Token D)
  unfolding back at_or_out
  peek n (state b a d es) =
      at_or_out (elim (get_elem? a n) [ some t ↦ some t | none ↦ back b a ]) (state b a d es)

  unfoldable pub is_at_end : State D → Bool
  unfolding same_type
  is_at_end (state b [] d es) = true
  is_at_end (state b (t ∷ a) d es) = same_type t.type end_of_file

  unfoldable pub check : TokenType → State D → Bool
  unfolding same_type
  check ty (state b [] d es) = false
  check ty (state b (t ∷ a) d es) =
      if same_type t.type end_of_file then false else same_type t.type ty

  unfoldable pub check_any : List TokenType → State D → Bool
  unfolding check
  check_any [] s = false
  check_any (ty ∷ tys) s = check ty s || check_any tys s

  -- `_lastDocComment` after the cursor has moved over a token.
  unfoldable pub doc_after : Token D → Bytes → Bytes
  unfolding same_type as_string
  doc_after t d = if same_type t.type doc_comment then as_string t else d

  unfoldable pub advance : Parser D (Token D)
  unfolding same_type doc_after previous
  advance (state b [] d es) = previous (state b [] d es)
  advance (state b (t ∷ a) d es) =
      if same_type t.type end_of_file
      then previous (state b (t ∷ a) d es)
      else previous (state (t ∷ b) a (doc_after t d) es)

  unfoldable pub match : TokenType → Parser D Bool
  unfolding check advance
  match ty = branch (ask (check ty)) (advance >> pure true) (pure false)

  unfoldable pub match_any : List TokenType → Parser D Bool
  unfolding match
  match_any [] = pure false
  match_any (ty ∷ tys) = branch (match ty) (pure true) (match_any tys)

  unfoldable pub error : {A : Type 0} → Bytes → Parser D A
  unfolding current
  error message = do
    t ← current
    λ s. failed (record { message = message; location = t.location; raw = t.raw }) s

  unfoldable pub consume : TokenType → Bytes → Parser D (Token D)
  unfolding check advance error
  consume ty message = branch (ask (check ty)) advance (error message)

-- The statement boundaries at which `synchronize` stops.
unfoldable pub boundaries : List TokenType
boundaries =
    kw_pipeline ∷ kw_end ∷ kw_exec_seq ∷ kw_exec_multi ∷ kw_exec_loop ∷ kw_exec_interval
    ∷ kw_no_interval ∷ kw_exec_interval_multi ∷ kw_exec_rt_seq ∷ kw_exec_rt_multi ∷ kw_exec_nasync
    ∷ kw_exec_fork ∷ kw_debug_start ∷ kw_debug_end ∷ kw_if ∷ kw_while ∷ kw_return ∷ kw_import
    ∷ kw_global ∷ kw_config ∷ []

unfoldable pub any_of : List TokenType → TokenType → Bool
unfolding same_type
any_of [] t = false
any_of (ty ∷ tys) t = same_type t ty || any_of tys t

module _ {D : Type 0} where
  -- The loop of `synchronize`: over the tokens up to a boundary or the end.
  unfoldable pub skip_to_boundary :
      List (Token D) → List (Token D) → Bytes → List ParseError → State D
  unfolding same_type any_of boundaries doc_after
  skip_to_boundary b [] d es = state b [] d es
  skip_to_boundary b (t ∷ a) d es =
      if same_type t.type end_of_file || any_of boundaries t.type
      then state b (t ∷ a) d es
      else skip_to_boundary (t ∷ b) a (doc_after t d) es

  unfoldable pub seek : Parser D (Unit {0})
  seek (state b a d es) = ok tt (skip_to_boundary b a d es)

  unfoldable pub synchronize : Parser D (Unit {0})
  unfolding advance seek
  synchronize = advance >> seek

  unfoldable pub push_error : ParseError → State D → State D
  push_error e (state b a d es) = state b a d (es ++ e ∷ [])

  -- `catch (const ParseError& e) { _errors.push_back(e); synchronize(); }`, with `none` after a
  -- caught error.
  unfoldable pub settle : {A : Type 0} → Outcome D A → Outcome D (Option A)
  unfolding push_error synchronize
  settle (ok a s) = ok (some a) s
  settle (failed e s) = run (push_error e s) (synchronize >> pure none)
  settle out_of_bounds = out_of_bounds
  settle thrown = thrown
  settle out_of_fuel = out_of_fuel

  -- `try { p }` with that handler.
  unfoldable pub attempt : {A : Type 0} → Parser D A → Parser D (Option A)
  unfolding settle
  attempt p s = settle (p s)
