-- ===== src/Parser/SimpleRuns.antt =====
-- How the statements that hold no statements run.
use vision_pipe.Base.{ℕ, ◌+◌, ◌*◌, ◌≤◌, arith, Bytes, none, some, not, ◌&&◌}
use vision_pipe.Lexer.Token.{
  TokenType, identifier, string_literal, kw_end, kw_global, kw_cache, kw_exec_seq, kw_exec_multi,
  kw_exec_loop, kw_exec_interval, kw_no_interval, kw_exec_interval_multi, kw_exec_rt_seq,
  kw_exec_rt_multi, kw_exec_fork, kw_debug_start, kw_debug_end, kw_use, kw_while, kw_break,
  kw_continue, kw_return, op_arrow, op_assign, op_comma, lparen, rparen, lbracket, rbracket,
}
use vision_pipe.Parser.State.{State}
use vision_pipe.Parser.Cursor.{check, check_any}
use vision_pipe.Parser.Simple.{
  statement_starts, optional_expression, pipeline_list, global_statement, global_promote_statement,
  exec_seq_statement, exec_multi_statement, exec_loop_statement, exec_interval_statement,
  no_interval_statement, exec_interval_multi_statement, exec_rt_seq_statement,
  exec_rt_multi_statement, exec_fork_statement, debug_start_statement, debug_end_statement,
  use_statement, cache_statement, return_statement, break_statement, continue_statement,
  expression_statement,
}
use vision_pipe.Parser.Runs.{left, Reads, Reads-fewer, Reads-pure, Reads-bind}
use vision_pipe.Parser.Moves.{
  Reads-ask, Reads-match, Reads-found, Reads-current, Reads-advance, Reads-error, Reads-consume,
}
use vision_pipe.Parser.ExpressionRuns.{expression-Reads, expression_list-Reads, cache_output-Reads}

module _ {D : Type 0} where
  pub optional_expression-Reads :
      (f : ℕ) (ty : TokenType) (s : State D) → 5 * left s ≤ f → Reads 0 s (optional_expression f ty)
  unfolding optional_expression
  optional_expression-Reads f ty s h =
      Reads-match ty
        (λ s₁ l₁.
          Reads-bind (expression-Reads f s₁ (omega arith)) λ e s₂ l₂. Reads-pure (some e) s₂)
        (Reads-pure none s)

  pipeline_list-Reads :
      (f : ℕ) (message : Bytes) (s : State D)
      → 5 * left s + 1 ≤ f
      → Reads 0 s (pipeline_list f message)
  unfolding pipeline_list
  pipeline_list-Reads f message s h = Reads-bind (Reads-consume lbracket message s) λ t s₁ l₁.
      Reads-bind {n = 0}
        (Reads-ask (check rbracket) (λ _. Reads-pure _ s₁)
          (Reads-fewer (omega arith) (expression_list-Reads f s₁ (omega arith))))
        λ es s₂ l₂. Reads-bind (Reads-consume rbracket _ s₂) λ t s₃ l₃. Reads-pure es s₃

  pub global_statement-Reads :
      (f : ℕ) (s : State D) → 5 * left s ≤ f → Reads 1 s (global_statement f)
  unfolding global_statement
  global_statement-Reads f s h = Reads-bind (Reads-current s) λ here s₁ l₁.
      Reads-bind (Reads-consume kw_global _ s₁) λ t s₂ l₂.
        Reads-bind (Reads-consume identifier _ s₂) λ name s₃ l₃.
          Reads-bind (optional_expression-Reads f op_assign s₃ (omega arith))
            λ v s₄ l₄. Reads-pure _ s₄

  pub global_promote_statement-Reads :
      (f : ℕ) (s : State D) → 5 * left s ≤ f → Reads 1 s (global_promote_statement f)
  unfolding global_promote_statement
  global_promote_statement-Reads f s h = Reads-bind (Reads-current s) λ here s₁ l₁.
      Reads-bind (Reads-consume kw_global _ s₁) λ t s₂ l₂.
        Reads-ask (check identifier)
          (λ _. Reads-bind (Reads-advance s₂) λ name s₃ l₃.
            Reads-bind (optional_expression-Reads f op_assign s₃ (omega arith))
              λ v s₄ l₄. Reads-pure _ s₄)
          (Reads-bind (Reads-consume string_literal _ s₂) λ id s₃ l₃. Reads-pure _ s₃)

  pub exec_seq_statement-Reads :
      (f : ℕ) (s : State D) → 5 * left s ≤ f → Reads 1 s (exec_seq_statement f)
  unfolding exec_seq_statement
  exec_seq_statement-Reads f s h = Reads-bind (Reads-current s) λ here s₁ l₁.
      Reads-bind (Reads-consume kw_exec_seq _ s₁)
        λ t s₂ l₂. Reads-bind (expression-Reads f s₂ (omega arith)) λ e s₃ l₃. Reads-pure _ s₃

  pub exec_multi_statement-Reads :
      (f : ℕ) (s : State D) → 5 * left s ≤ f → Reads 1 s (exec_multi_statement f)
  unfolding exec_multi_statement
  exec_multi_statement-Reads f s h = Reads-bind (Reads-current s) λ here s₁ l₁.
      Reads-bind (Reads-consume kw_exec_multi _ s₁)
        λ t s₂ l₂. Reads-bind (pipeline_list-Reads f _ s₂ (omega arith)) λ es s₃ l₃. Reads-pure _ s₃

  pub exec_loop_statement-Reads :
      (f : ℕ) (s : State D) → 5 * left s ≤ f → Reads 1 s (exec_loop_statement f)
  unfolding exec_loop_statement
  exec_loop_statement-Reads f s h = Reads-bind (Reads-current s) λ here s₁ l₁.
      Reads-bind (Reads-consume kw_exec_loop _ s₁) λ t s₂ l₂.
        Reads-bind (expression-Reads f s₂ (omega arith)) λ e s₃ l₃.
          Reads-bind (optional_expression-Reads f kw_while s₃ (omega arith))
            λ c s₄ l₄. Reads-pure _ s₄

  pub exec_interval_statement-Reads :
      (f : ℕ) (s : State D) → 5 * left s ≤ f → Reads 1 s (exec_interval_statement f)
  unfolding exec_interval_statement
  exec_interval_statement-Reads f s h = Reads-bind (Reads-current s) λ here s₁ l₁.
      Reads-bind (Reads-consume kw_exec_interval _ s₁) λ t s₂ l₂.
        Reads-bind (expression-Reads f s₂ (omega arith))
          λ e s₃ l₃. Reads-bind (expression-Reads f s₃ (omega arith)) λ n s₄ l₄. Reads-pure _ s₄

  pub no_interval_statement-Reads :
      (f : ℕ) (s : State D) → 5 * left s ≤ f → Reads 1 s (no_interval_statement f)
  unfolding no_interval_statement
  no_interval_statement-Reads f s h = Reads-bind (Reads-current s) λ here s₁ l₁.
      Reads-bind (Reads-consume kw_no_interval _ s₁)
        λ t s₂ l₂. Reads-bind (expression-Reads f s₂ (omega arith)) λ e s₃ l₃. Reads-pure _ s₃

  pub exec_interval_multi_statement-Reads :
      (f : ℕ) (s : State D) → 5 * left s ≤ f → Reads 1 s (exec_interval_multi_statement f)
  unfolding exec_interval_multi_statement
  exec_interval_multi_statement-Reads f s h = Reads-bind (Reads-current s) λ here s₁ l₁.
      Reads-bind (Reads-consume kw_exec_interval_multi _ s₁) λ t s₂ l₂.
        Reads-bind (pipeline_list-Reads f _ s₂ (omega arith))
          λ es s₃ l₃. Reads-bind (expression-Reads f s₃ (omega arith)) λ n s₄ l₄. Reads-pure _ s₄

  pub exec_rt_seq_statement-Reads :
      (f : ℕ) (s : State D) → 5 * left s ≤ f → Reads 1 s (exec_rt_seq_statement f)
  unfolding exec_rt_seq_statement
  exec_rt_seq_statement-Reads f s h = Reads-bind (Reads-current s) λ here s₁ l₁.
      Reads-bind (Reads-consume kw_exec_rt_seq _ s₁) λ t s₂ l₂.
        Reads-bind (expression-Reads f s₂ (omega arith))
          λ e s₃ l₃. Reads-bind (expression-Reads f s₃ (omega arith)) λ n s₄ l₄. Reads-pure _ s₄

  pub exec_rt_multi_statement-Reads :
      (f : ℕ) (s : State D) → 5 * left s ≤ f → Reads 1 s (exec_rt_multi_statement f)
  unfolding exec_rt_multi_statement
  exec_rt_multi_statement-Reads f s h = Reads-bind (Reads-current s) λ here s₁ l₁.
      Reads-bind (Reads-consume kw_exec_rt_multi _ s₁) λ t s₂ l₂.
        Reads-bind (pipeline_list-Reads f _ s₂ (omega arith))
          λ es s₃ l₃. Reads-bind (expression-Reads f s₃ (omega arith)) λ n s₄ l₄. Reads-pure _ s₄

  pub exec_fork_statement-Reads :
      (f : ℕ) (s : State D) → 5 * left s ≤ f → Reads 1 s (exec_fork_statement f)
  unfolding exec_fork_statement
  exec_fork_statement-Reads f s h = Reads-bind (Reads-current s) λ here s₁ l₁.
      Reads-bind (Reads-consume kw_exec_fork _ s₁)
        λ t s₂ l₂. Reads-bind (expression-Reads f s₂ (omega arith)) λ e s₃ l₃. Reads-pure _ s₃

  pub debug_start_statement-Reads : (s : State D) → Reads 1 s debug_start_statement
  unfolding debug_start_statement
  debug_start_statement-Reads s =
      Reads-bind (Reads-current s)
        λ here s₁ l₁. Reads-bind (Reads-consume kw_debug_start _ s₁) λ t s₂ l₂. Reads-pure _ s₂

  pub debug_end_statement-Reads : (s : State D) → Reads 1 s debug_end_statement
  unfolding debug_end_statement
  debug_end_statement-Reads s =
      Reads-bind (Reads-current s)
        λ here s₁ l₁. Reads-bind (Reads-consume kw_debug_end _ s₁) λ t s₂ l₂. Reads-pure _ s₂

  pub use_statement-Reads : (s : State D) → Reads 1 s use_statement
  unfolding use_statement
  use_statement-Reads s = Reads-bind (Reads-current s) λ here s₁ l₁.
      Reads-bind (Reads-consume kw_use _ s₁) λ t s₂ l₂.
        Reads-bind (Reads-consume lparen _ s₂) λ u s₃ l₃.
          Reads-bind (Reads-found kw_global s₃) λ g s₄ l₄.
            Reads-bind (Reads-consume string_literal _ s₄) λ id s₅ l₅.
              Reads-bind (Reads-consume rparen _ s₅) λ r s₆ l₆.
                Reads-bind {n = 0}
                  (Reads-match op_arrow
                    (λ s₇ l₇.
                      Reads-bind (cache_output-Reads _ s₇ (Reads-error 0 _))
                        λ o s₈ l₈. Reads-pure (some o) s₈)
                    (Reads-pure none s₆))
                  λ o s₇ l₇. Reads-pure _ s₇

  pub cache_statement-Reads : (f : ℕ) (s : State D) → 5 * left s ≤ f → Reads 1 s (cache_statement f)
  unfolding cache_statement
  cache_statement-Reads f s h = Reads-bind (Reads-current s) λ here s₁ l₁.
      Reads-bind (Reads-consume kw_cache _ s₁) λ t s₂ l₂.
        Reads-bind (Reads-consume lparen _ s₂) λ u s₃ l₃.
          Reads-bind (Reads-found kw_global s₃) λ g s₄ l₄.
            Reads-bind (Reads-consume string_literal _ s₄) λ id s₅ l₅.
              Reads-bind (optional_expression-Reads f op_comma s₅ (omega arith))
                λ v s₆ l₆. Reads-bind (Reads-consume rparen _ s₆) λ r s₇ l₇. Reads-pure _ s₇

  pub return_statement-Reads :
      (f : ℕ) (s : State D) → 5 * left s ≤ f → Reads 1 s (return_statement f)
  unfolding return_statement
  return_statement-Reads f s h = Reads-bind (Reads-current s) λ here s₁ l₁.
      Reads-bind (Reads-consume kw_return _ s₁) λ t s₂ l₂.
        Reads-bind {n = 0}
          (Reads-ask
            (λ (s' : State D). not (check kw_end s') && not (check_any statement_starts s'))
            (λ _.
              Reads-bind (expression-Reads f s₂ (omega arith)) λ e s₃ l₃. Reads-pure (some e) s₃)
            (Reads-pure none s₂))
          λ v s₃ l₃. Reads-pure _ s₃

  pub break_statement-Reads : (s : State D) → Reads 1 s break_statement
  unfolding break_statement
  break_statement-Reads s =
      Reads-bind (Reads-current s)
        λ here s₁ l₁. Reads-bind (Reads-consume kw_break _ s₁) λ t s₂ l₂. Reads-pure _ s₂

  pub continue_statement-Reads : (s : State D) → Reads 1 s continue_statement
  unfolding continue_statement
  continue_statement-Reads s =
      Reads-bind (Reads-current s)
        λ here s₁ l₁. Reads-bind (Reads-consume kw_continue _ s₁) λ t s₂ l₂. Reads-pure _ s₂

  pub expression_statement-Reads :
      (f : ℕ) (s : State D) → 5 * left s + 5 ≤ f → Reads 1 s (expression_statement f)
  unfolding expression_statement
  expression_statement-Reads f s h =
      Reads-bind (Reads-current s)
        λ here s₁ l₁. Reads-bind (expression-Reads f s₁ (omega arith)) λ e s₂ l₂. Reads-pure _ s₂
