-- ===== src/Parser/Simple.antt =====
-- Statements that hold no statements: src/interpreter/parser.cpp, from `globalPromoteStatement` to
-- `expressionStatement`.
use vision_pipe.Base.{ℕ, Option, none, some, [], ◌∷◌, List, bytes, Bytes, not, ◌&&◌}
use vision_pipe.Lexer.Token.{
  TokenType, as_string, identifier, string_literal, kw_end, kw_global, kw_cache, kw_exec_seq,
  kw_exec_multi, kw_exec_loop, kw_exec_interval, kw_no_interval, kw_exec_interval_multi,
  kw_exec_rt_seq, kw_exec_rt_multi, kw_exec_nasync, kw_exec_fork, kw_debug_start, kw_debug_end,
  kw_use, kw_if, kw_while, kw_break, kw_continue, kw_return, op_arrow, op_assign, op_comma, lparen,
  rparen, lbracket, rbracket,
}
use vision_pipe.Parser.Syntax.{
  Expression, Expressions, no_expressions, Statement, expression_stmt, exec_seq_stmt,
  exec_multi_stmt, exec_loop_stmt, exec_interval_stmt, no_interval_stmt, exec_interval_multi_stmt,
  exec_rt_seq_stmt, exec_rt_multi_stmt, exec_fork_stmt, debug_start_stmt, debug_end_stmt, use_stmt,
  cache_stmt, return_stmt, break_stmt, continue_stmt, global_stmt,
}
use vision_pipe.Parser.State.{Parser, pure, ◌>>=◌, ◌>>◌, ask, branch}
use vision_pipe.Parser.Cursor.{current, check, check_any, advance, match, error, consume}
use vision_pipe.Parser.Expressions.{expression, assignment, argument_list, cache_output}

-- The statements that end a `return` without a value.
unfoldable pub statement_starts : List TokenType
statement_starts =
    kw_exec_seq ∷ kw_exec_multi ∷ kw_exec_loop ∷ kw_exec_nasync ∷ kw_exec_fork ∷ kw_use ∷ kw_cache
    ∷ kw_if ∷ kw_while ∷ kw_return ∷ kw_break ∷ kw_continue ∷ []

module _ {D : Type 0} where
  -- `if (match(ty)) value = expression();`.
  unfoldable pub optional_expression : ℕ → TokenType → Parser D (Option (Expression D))
  unfolding match assignment
  optional_expression f ty = branch (match ty) (do e ← expression f; pure (some e)) (pure none)

  -- The form of `globalStatement`, and the pipeline-statement form.
  unfoldable pub global_statement : ℕ → Parser D (Statement D)
  unfolding current consume as_string optional_expression
  global_statement f = do
    here ← current
    consume kw_global (bytes "Expected 'global'")
    name ← consume identifier (bytes "Expected global cache identifier")
    value ← optional_expression f op_assign
    pure (global_stmt here.location (as_string name) value)

  unfoldable pub global_promote_statement : ℕ → Parser D (Statement D)
  unfolding current consume as_string optional_expression check advance
  global_promote_statement f = do
    here ← current
    consume kw_global (bytes "Expected 'global'")
    branch (ask (check identifier))
        (do
          name ← advance
          value ← optional_expression f op_assign
          pure (global_stmt here.location (as_string name) value))
        (do
          id ←
              consume string_literal
                (bytes "Expected cache id string or variable name after 'global'")
          pure (global_stmt here.location (as_string id) none))

  unfoldable pub exec_seq_statement : ℕ → Parser D (Statement D)
  unfolding current consume assignment
  exec_seq_statement f = do
    here ← current
    consume kw_exec_seq (bytes "Expected 'exec_seq'")
    pipeline ← expression f
    pure (exec_seq_stmt here.location pipeline)

  -- The list of pipelines in brackets, with the message for a missing `[`.
  unfoldable pub pipeline_list : ℕ → Bytes → Parser D (Expressions D)
  unfolding consume check argument_list
  pipeline_list f message = do
    consume lbracket message
    pipelines ← branch (ask (check rbracket)) (pure no_expressions) (argument_list f)
    consume rbracket (bytes "Expected ']' after pipeline list")
    pure pipelines

  unfoldable pub exec_multi_statement : ℕ → Parser D (Statement D)
  unfolding current pipeline_list assignment consume
  exec_multi_statement f = do
    here ← current
    consume kw_exec_multi (bytes "Expected 'exec_multi'")
    pipelines ← pipeline_list f (bytes "Expected '[' after 'exec_multi'")
    pure (exec_multi_stmt here.location pipelines)

  unfoldable pub exec_loop_statement : ℕ → Parser D (Statement D)
  unfolding current consume assignment optional_expression
  exec_loop_statement f = do
    here ← current
    consume kw_exec_loop (bytes "Expected 'exec_loop'")
    pipeline ← expression f
    condition ← optional_expression f kw_while
    pure (exec_loop_stmt here.location pipeline condition)

  unfoldable pub exec_interval_statement : ℕ → Parser D (Statement D)
  unfolding current consume assignment
  exec_interval_statement f = do
    here ← current
    consume kw_exec_interval (bytes "Expected 'exec_interval'")
    pipeline ← expression f
    interval_ms ← expression f
    pure (exec_interval_stmt here.location pipeline interval_ms)

  unfoldable pub no_interval_statement : ℕ → Parser D (Statement D)
  unfolding current consume assignment
  no_interval_statement f = do
    here ← current
    consume kw_no_interval (bytes "Expected 'no_interval'")
    pipeline ← expression f
    pure (no_interval_stmt here.location pipeline)

  unfoldable pub exec_interval_multi_statement : ℕ → Parser D (Statement D)
  unfolding current pipeline_list assignment consume
  exec_interval_multi_statement f = do
    here ← current
    consume kw_exec_interval_multi (bytes "Expected 'exec_interval_multi'")
    pipelines ← pipeline_list f (bytes "Expected '[' after 'exec_interval_multi'")
    interval_ms ← expression f
    pure (exec_interval_multi_stmt here.location pipelines interval_ms)

  unfoldable pub exec_rt_seq_statement : ℕ → Parser D (Statement D)
  unfolding current consume assignment
  exec_rt_seq_statement f = do
    here ← current
    consume kw_exec_rt_seq (bytes "Expected 'exec_rt_seq'")
    pipeline ← expression f
    timeout_ms ← expression f
    pure (exec_rt_seq_stmt here.location pipeline timeout_ms)

  unfoldable pub exec_rt_multi_statement : ℕ → Parser D (Statement D)
  unfolding current pipeline_list assignment consume
  exec_rt_multi_statement f = do
    here ← current
    consume kw_exec_rt_multi (bytes "Expected 'exec_rt_multi'")
    pipelines ← pipeline_list f (bytes "Expected '[' after 'exec_rt_multi'")
    timeout_ms ← expression f
    pure (exec_rt_multi_stmt here.location pipelines timeout_ms)

  unfoldable pub exec_fork_statement : ℕ → Parser D (Statement D)
  unfolding current consume assignment
  exec_fork_statement f = do
    here ← current
    consume kw_exec_fork (bytes "Expected 'exec_fork'")
    pipeline ← expression f
    pure (exec_fork_stmt here.location pipeline)

  unfoldable pub debug_start_statement : Parser D (Statement D)
  unfolding current consume
  debug_start_statement = do
    here ← current
    consume kw_debug_start (bytes "Expected 'debug_start'")
    pure (debug_start_stmt here.location)

  unfoldable pub debug_end_statement : Parser D (Statement D)
  unfolding current consume
  debug_end_statement = do
    here ← current
    consume kw_debug_end (bytes "Expected 'debug_end'")
    pure (debug_end_stmt here.location)

  unfoldable pub use_statement : Parser D (Statement D)
  unfolding current consume match as_string cache_output error
  use_statement = do
    here ← current
    consume kw_use (bytes "Expected 'use'")
    consume lparen (bytes "Expected '(' after 'use'")
    global ← match kw_global
    id ← consume string_literal (bytes "Expected cache id string")
    consume rparen (bytes "Expected ')' after cache id")
    output ←
        branch (match op_arrow)
          (do o ← cache_output (error (bytes "Expected cache id after '->'")); pure (some o))
          (pure none)
    pure (use_stmt here.location (as_string id) global output)

  unfoldable pub cache_statement : ℕ → Parser D (Statement D)
  unfolding current consume match as_string optional_expression
  cache_statement f = do
    here ← current
    consume kw_cache (bytes "Expected 'cache'")
    consume lparen (bytes "Expected '(' after 'cache'")
    global ← match kw_global
    id ← consume string_literal (bytes "Expected cache id string")
    value ← optional_expression f op_comma
    consume rparen (bytes "Expected ')' after cache statement")
    pure (cache_stmt here.location (as_string id) value global)

  unfoldable pub return_statement : ℕ → Parser D (Statement D)
  unfolding current consume check check_any assignment statement_starts
  return_statement f = do
    here ← current
    consume kw_return (bytes "Expected 'return'")
    value ←
        branch (ask λ s. not (check kw_end s) && not (check_any statement_starts s))
          (do e ← expression f; pure (some e)) (pure none)
    pure (return_stmt here.location value)

  unfoldable pub break_statement : Parser D (Statement D)
  unfolding current consume
  break_statement = do
    here ← current
    consume kw_break (bytes "Expected 'break'")
    pure (break_stmt here.location)

  unfoldable pub continue_statement : Parser D (Statement D)
  unfolding current consume
  continue_statement = do
    here ← current
    consume kw_continue (bytes "Expected 'continue'")
    pure (continue_stmt here.location)

  unfoldable pub expression_statement : ℕ → Parser D (Statement D)
  unfolding current assignment
  expression_statement f = do
    here ← current
    e ← expression f
    pure (expression_stmt here.location e)
