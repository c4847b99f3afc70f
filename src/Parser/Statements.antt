-- ===== src/Parser/Statements.antt =====
-- Statements that hold statements, and the dispatch: src/interpreter/parser.cpp, `statement`,
-- `execNasyncStatement`, `ifStatement` and `whileStatement`.
use vision_pipe.Base.{
  ℕ, zero, suc, Bool, false, List, [], ◌∷◌, Option, none, some, bytes, eq_bytes, ◌||◌,
}
use vision_pipe.Lexer.Token.{
  TokenType, identifier, kw_end, kw_else, kw_global, kw_cache, kw_exec_seq, kw_exec_multi,
  kw_exec_loop, kw_exec_interval, kw_no_interval, kw_exec_interval_multi, kw_exec_rt_seq,
  kw_exec_rt_multi, kw_exec_nasync, kw_exec_fork, kw_debug_start, kw_debug_end, kw_use, kw_if,
  kw_while, kw_break, kw_continue, kw_return,
}
use vision_pipe.Parser.Syntax.{
  Statement, Statements, statements, no_statements, exec_nasync_stmt, if_stmt, while_stmt,
}
use vision_pipe.Parser.State.{Parser, pure, no_fuel, ◌>>=◌, ◌>>◌, ask, branch}
use vision_pipe.Parser.Cursor.{
  current, is_at_end, check, check_any, advance, match, consume, attempt,
}
use vision_pipe.Parser.Expressions.{expression, assignment}
use vision_pipe.Parser.Simple.{
  global_promote_statement, exec_seq_statement, exec_multi_statement, exec_loop_statement,
  exec_interval_statement, no_interval_statement, exec_interval_multi_statement,
  exec_rt_seq_statement, exec_rt_multi_statement, exec_fork_statement, debug_start_statement,
  debug_end_statement, use_statement, cache_statement, return_statement, break_statement,
  continue_statement, expression_statement,
}

module _ {D : Type 0} where
  -- The end of a block: one of the given types, or the end of the tokens.
  unfoldable pub at_block_end : List TokenType → Parser D Bool
  unfolding check_any is_at_end
  at_block_end stops = ask λ s. check_any stops s || is_at_end s

  -- The identifier `start`, which is no keyword.
  unfoldable pub at_start_word : Parser D Bool
  unfolding check current eq_bytes
  at_start_word =
      branch (ask (check identifier)) (do t ← current; pure (eq_bytes t.raw (bytes "start")))
        (pure false)

  -- After an attempt at a statement, with the parser of the statements that follow.
  unfoldable pub resume : Parser D (Statements D) → Option (Statement D) → Parser D (Statements D)
  unfolding check
  resume more (some s) = do rest ← more; pure (statements s rest)
  resume more none = branch (ask (check kw_end)) (pure no_statements) more

unfoldable mutual
  unfolding current check advance match consume attempt assignment at_block_end at_start_word resume
      global_promote_statement exec_seq_statement exec_multi_statement exec_loop_statement
      exec_interval_statement no_interval_statement exec_interval_multi_statement
      exec_rt_seq_statement exec_rt_multi_statement exec_fork_statement debug_start_statement
      debug_end_statement use_statement cache_statement return_statement break_statement
      continue_statement expression_statement

  pub statement : {D : Type 0} → ℕ → Parser D (Statement D)
  statement zero = no_fuel
  statement (suc f) = branch (ask (check kw_exec_seq)) (exec_seq_statement f) (
      branch (ask (check kw_exec_multi)) (exec_multi_statement f) (
        branch (ask (check kw_exec_loop)) (exec_loop_statement f) (
          branch (ask (check kw_exec_interval)) (exec_interval_statement f) (
            branch (ask (check kw_no_interval)) (no_interval_statement f) (
              branch (ask (check kw_exec_interval_multi)) (exec_interval_multi_statement f) (
                branch (ask (check kw_exec_rt_seq)) (exec_rt_seq_statement f) (
                  branch (ask (check kw_exec_rt_multi)) (exec_rt_multi_statement f) (
                    branch (ask (check kw_exec_nasync)) (exec_nasync_statement f) (
                      branch (ask (check kw_exec_fork)) (exec_fork_statement f)
                        (other_statement f))))))))))

  -- The rest of the ladder of `statement`.
  pub other_statement : {D : Type 0} → ℕ → Parser D (Statement D)
  other_statement zero = no_fuel
  other_statement (suc f) = branch (ask (check kw_debug_start)) debug_start_statement (
      branch (ask (check kw_debug_end)) debug_end_statement (
        branch (ask (check kw_use)) use_statement (
          branch (ask (check kw_cache)) (cache_statement f) (
            branch (ask (check kw_global)) (global_promote_statement f) (
              branch (ask (check kw_if)) (if_statement f) (
                branch (ask (check kw_while)) (while_statement f) (
                  branch (ask (check kw_return)) (return_statement f) (
                    branch (ask (check kw_break)) break_statement (
                      branch (ask (check kw_continue)) continue_statement
                        (expression_statement f))))))))))

  pub exec_nasync_statement : {D : Type 0} → ℕ → Parser D (Statement D)
  exec_nasync_statement zero = no_fuel
  exec_nasync_statement (suc f) = do
    here ← current
    consume kw_exec_nasync (bytes "Expected 'exec_nasync'")
    branch at_start_word
        (do
          advance
          body ← recovering_block f (pure false)
          consume kw_end (bytes "Expected 'end' after exec_nasync block")
          pure (exec_nasync_stmt here.location none body))
        (do
          pipeline ← expression f
          pure (exec_nasync_stmt here.location (some pipeline) no_statements))

  pub if_statement : {D : Type 0} → ℕ → Parser D (Statement D)
  if_statement zero = no_fuel
  if_statement (suc f) = do
    here ← current
    consume kw_if (bytes "Expected 'if'")
    condition ← expression f
    body ← block f (kw_else ∷ kw_end ∷ []) (pure false)
    branch (match kw_else)
        (branch (ask (check kw_if))
          (do
            other ← if_statement f
            pure (if_stmt here.location condition body (statements other no_statements)))
          (do
            others ← block f (kw_end ∷ []) (pure false)
            consume kw_end (bytes "Expected 'end' after if statement")
            pure (if_stmt here.location condition body others)))
        (do
          consume kw_end (bytes "Expected 'end' after if statement")
          pure (if_stmt here.location condition body no_statements))

  pub while_statement : {D : Type 0} → ℕ → Parser D (Statement D)
  while_statement zero = no_fuel
  while_statement (suc f) = do
    here ← current
    consume kw_while (bytes "Expected 'while'")
    condition ← expression f
    body ← block f (kw_end ∷ []) (pure false)
    consume kw_end (bytes "Expected 'end' after while statement")
    pure (while_stmt here.location condition body)

  -- Statements up to a stop. An iteration that `skips` adds none.
  pub block : {D : Type 0} → ℕ → List TokenType → Parser D Bool → Parser D (Statements D)
  block zero stops skips = no_fuel
  block (suc f) stops skips = branch (at_block_end stops) (pure no_statements) (
      branch skips (block f stops skips)
        (do s ← statement f; rest ← block f stops skips; pure (statements s rest)))

  -- Statements up to `end`, where an error is recorded and the cursor moves to a boundary.
  pub recovering_block : {D : Type 0} → ℕ → Parser D Bool → Parser D (Statements D)
  recovering_block zero skips = no_fuel
  recovering_block (suc f) skips = branch (at_block_end (kw_end ∷ [])) (pure no_statements) (
      branch skips (recovering_block f skips)
        (do read ← attempt (statement f); resume (recovering_block f skips) read))
