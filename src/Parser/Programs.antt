-- ===== src/Parser/Programs.antt =====
-- The program: `program`, `parse` and `parseExpression` of src/interpreter/parser.cpp. `parseSource`,
-- which calls the lexer and then `parse`, is not modelled.
use vision_pipe.Base.{ℕ, zero, suc, ◌+◌, ◌*◌, List, [], ◌∷◌, ◌++◌, none, some, bytes, Bytes, length}
use vision_pipe.Lexer.Token.{
  Token, TokenType, SourceLocation, doc_comment, kw_pipeline, kw_global, kw_exec_seq, kw_exec_multi,
  kw_exec_loop, kw_exec_interval, kw_no_interval, kw_exec_interval_multi, kw_exec_rt_seq,
  kw_exec_rt_multi, kw_exec_nasync, kw_exec_fork, kw_debug_start, kw_debug_end, kw_import,
  kw_config, kw_params, kw_on_params,
}
use vision_pipe.Parser.Syntax.{Expression, Program}
use vision_pipe.Parser.State.{State, state, Outcome, Parser, pure, no_fuel, ◌>>=◌, ask, branch}
use vision_pipe.Parser.Cursor.{current, is_at_end, check, check_any, match, error, attempt}
use vision_pipe.Parser.Expressions.{expression, assignment}
use vision_pipe.Parser.Simple.{global_statement}
use vision_pipe.Parser.Statements.{statement}
use vision_pipe.Parser.Declarations.{import_statement, config_declaration, pipeline_declaration}
use vision_pipe.Parser.Parameters.{param_decl_statement, on_params_statement}

-- The statements that may stand outside a pipeline.
unfoldable pub top_level_starts : List TokenType
top_level_starts =
    kw_exec_seq ∷ kw_exec_multi ∷ kw_exec_loop ∷ kw_exec_interval ∷ kw_no_interval
    ∷ kw_exec_interval_multi ∷ kw_exec_rt_seq ∷ kw_exec_rt_multi ∷ kw_exec_nasync ∷ kw_exec_fork
    ∷ kw_debug_start ∷ kw_debug_end ∷ []

module _ {D : Type 0} where
  unfoldable pub empty_program : Bytes → SourceLocation → Program D
  empty_program filename location = record {
    location = location;
    source_file = filename;
    imports = [];
    globals = [];
    configs = [];
    pipelines = [];
    param_decls = [];
    on_params_handlers = [];
    top_level_statements = [];
  }

  -- The body of the loop of `program`, inside the `try`. The test for END_OF_FILE is left out: the
  -- loop has made it.
  unfoldable pub top_level_item : ℕ → Program D → Parser D (Program D)
  unfolding match check check_any error import_statement global_statement config_declaration
      pipeline_declaration param_decl_statement on_params_statement statement top_level_starts
  top_level_item f p = branch (match doc_comment) (pure p) (
      branch (ask (check kw_import))
        (do i ← import_statement; pure (record p { imports = p.imports ++ i ∷ [] }))
        (branch (ask (check kw_global))
          (do g ← global_statement f; pure (record p { globals = p.globals ++ g ∷ [] }))
          (branch (ask (check kw_config))
            (do c ← config_declaration f; pure (record p { configs = p.configs ++ c ∷ [] }))
            (branch (ask (check kw_pipeline))
              (do d ← pipeline_declaration f; pure (record p { pipelines = p.pipelines ++ d ∷ [] }))
              (branch (ask (check kw_params))
                (do
                  d ← param_decl_statement f
                  pure (record p { param_decls = p.param_decls ++ d ∷ [] }))
                (branch (ask (check kw_on_params))
                  (do
                    h ← on_params_statement f
                    pure (record p { on_params_handlers = p.on_params_handlers ++ h ∷ [] }))
                  (branch (ask (check_any top_level_starts))
                    (do
                      s ← statement f
                      pure (record p { top_level_statements = p.top_level_statements ++ s ∷ [] }))
                    (error (bytes "Expected pipeline declaration or execution statement")))))))))

  unfoldable pub program_loop : ℕ → Program D → Parser D (Program D)
  unfolding is_at_end attempt top_level_item
  program_loop zero p = no_fuel
  program_loop (suc f) p = branch (ask is_at_end) (pure p) (do
    read ← attempt (top_level_item f p)
    program_loop f (elim read [ some p' ↦ p' | none ↦ p ]))

  unfoldable pub program : ℕ → Bytes → Parser D (Program D)
  unfolding current program_loop empty_program
  program f filename = do here ← current; program_loop f (empty_program filename here.location)

  -- A parser over these tokens, and fuel that is enough for them.
  unfoldable pub new_parser : List (Token D) → State D
  new_parser tokens = state [] tokens [] []

  unfoldable pub fuel_for : List (Token D) → ℕ
  fuel_for tokens = 8 * length tokens + 16

  unfoldable pub parse : List (Token D) → Bytes → Outcome D (Program D)
  unfolding new_parser fuel_for program
  parse tokens filename = program (fuel_for tokens) filename (new_parser tokens)

  unfoldable pub parse_expression : List (Token D) → Outcome D (Expression D)
  unfolding new_parser fuel_for assignment
  parse_expression tokens = expression (fuel_for tokens) (new_parser tokens)
