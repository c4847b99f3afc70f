-- ===== src/Parser/DeclarationRuns.antt =====
-- How the declarations run.
use vision_pipe.Base.{ℕ, zero, suc, ◌+◌, ◌*◌, ◌≤◌, arith, false, List, [], ◌∷◌, none, Bytes}
use vision_pipe.Lexer.Token.{
  identifier, string_literal, doc_comment, kw_pipeline, kw_end, kw_let, kw_global, kw_import,
  kw_config, kw_params, kw_on_params, op_assign, op_comma, op_colon, op_at, lparen, rparen,
  lbracket, rbracket,
}
use vision_pipe.Parser.Syntax.{Expression}
use vision_pipe.Parser.State.{State, state}
use vision_pipe.Parser.Cursor.{check}
use vision_pipe.Parser.Declarations.{
  at_alias, import_statement, config_settings, config_declaration, take_doc_comment,
  pipeline_declaration,
}
use vision_pipe.Parser.Parameters.{
  parameter_decl, parameter_list, param_entry, param_entries, param_decl_statement,
  handled_parameter, on_params_statement,
}
use vision_pipe.Parser.Statements.{at_block_end}
use vision_pipe.Parser.Runs.{left, Runs, returned, Reads, Reads-pure, Reads-bind}
use vision_pipe.Parser.Moves.{
  match-Matched, Reads-ask, Reads-branch, Reads-match, Reads-found, Reads-current, Reads-previous,
  Reads-advance, Reads-error, Reads-consume,
}
use vision_pipe.Parser.ExpressionRuns.{expression-Reads, cache_output_spec-Reads}
use vision_pipe.Parser.SimpleRuns.{optional_expression-Reads}
use vision_pipe.Parser.StatementRuns.{statements-Reads, recovering-Reads}

module _ {D : Type 0} where
  at_alias-Reads : (s : State D) → Reads 0 s at_alias
  unfolding at_alias
  at_alias-Reads s =
      Reads-match identifier (λ s₁ l₁. Reads-bind (Reads-previous s₁) λ t s₂ l₂. Reads-pure _ s₂)
        (Reads-pure false s)

  pub import_statement-Reads : (s : State D) → Reads 1 s import_statement
  unfolding import_statement
  import_statement-Reads s = Reads-bind (Reads-current s) λ here s₁ l₁.
      Reads-bind (Reads-consume kw_import _ s₁) λ t s₂ l₂.
        Reads-bind (Reads-consume string_literal _ s₂) λ path s₃ l₃.
          Reads-bind {n = 0}
            (Reads-branch (at_alias-Reads s₃)
              (λ s₄ l₄. Reads-bind (Reads-consume identifier _ s₄) λ name s₅ l₅. Reads-pure _ s₅)
              (λ s₄ l₄. Reads-pure none s₄))
            λ alias s₆ l₆. Reads-pure _ s₆

  config_settings-Reads :
      (f : ℕ) (settings : List (Bytes × Expression D)) (s : State D)
      → 5 * left s + 6 ≤ f
      → Reads 0 s (config_settings f settings)
  unfolding config_settings at_block_end
  config_settings-Reads zero settings s h = absurd (omega arith)
  config_settings-Reads (suc f) settings s h =
      Reads-ask _ (λ _. Reads-pure settings s)
        (Reads-bind (Reads-consume identifier _ s) λ key s₁ l₁.
          Reads-bind (Reads-consume op_assign _ s₁) λ t s₂ l₂.
            Reads-bind (expression-Reads f s₂ (omega arith))
              λ value s₃ l₃. config_settings-Reads f _ s₃ (omega arith))

  pub config_declaration-Reads :
      (f : ℕ) (s : State D) → 5 * left s + 6 ≤ f → Reads 1 s (config_declaration f)
  unfolding config_declaration
  config_declaration-Reads f s h = Reads-bind (Reads-current s) λ here s₁ l₁.
      Reads-bind (Reads-consume kw_config _ s₁) λ t s₂ l₂.
        Reads-bind (Reads-consume identifier _ s₂) λ name s₃ l₃.
          Reads-bind (config_settings-Reads f [] s₃ (omega arith))
            λ settings s₄ l₄. Reads-bind (Reads-consume kw_end _ s₄) λ u s₅ l₅. Reads-pure _ s₅

  parameter_decl-Reads : (f : ℕ) (s : State D) → 5 * left s ≤ f → Reads 1 s (parameter_decl f)
  unfolding parameter_decl
  parameter_decl-Reads f s h = Reads-bind (Reads-current s) λ here s₁ l₁.
      Reads-bind (Reads-found kw_let s₁) λ is_let s₂ l₂.
        Reads-bind (Reads-found kw_global s₂) λ global s₃ l₃.
          Reads-bind (Reads-consume identifier _ s₃) λ name s₄ l₄.
            Reads-bind {n = 0}
              (Reads-match op_colon
                (λ s₅ l₅. Reads-bind (Reads-consume identifier _ s₅) λ ty s₆ l₆. Reads-pure _ s₆)
                (Reads-pure none s₄))
              λ hint s₇ l₇.
                Reads-bind (optional_expression-Reads f op_assign s₇ (omega arith))
                  λ v s₈ l₈. Reads-pure _ s₈

  parameter_list-Reads : (f : ℕ) (s : State D) → 5 * left s + 1 ≤ f → Reads 0 s (parameter_list f)
  unfolding parameter_list
  parameter_list-Reads zero s h = absurd (omega arith)
  parameter_list-Reads (suc f) s h =
      Reads-bind (parameter_decl-Reads f s (omega arith)) λ parameter s₁ l₁.
        Reads-bind {n = 0}
          (Reads-match op_comma (λ s₂ l₂. parameter_list-Reads f s₂ (omega arith))
            (Reads-pure [] s₁))
          λ others s₃ l₃. Reads-pure _ s₃

  take_doc_comment-Reads : (s : State D) → Reads 0 s take_doc_comment
  unfolding take_doc_comment
  take_doc_comment-Reads s = record { runs = taken s }
    where
      taken : (s : State D) → Runs 0 s (take_doc_comment s)
      taken (state b a d es) =
          returned (record { shorter = omega arith; eof = λ h. h; hold = λ h. h; keeps = λ e h. h })
            (omega arith)

  pub pipeline_declaration-Reads :
      (f : ℕ) (s : State D) → 5 * left s + 3 ≤ f → Reads 1 s (pipeline_declaration f)
  unfolding pipeline_declaration
  pipeline_declaration-Reads f s h = Reads-bind (Reads-current s) λ here s₁ l₁.
      Reads-bind (take_doc_comment-Reads s₁) λ doc s₂ l₂.
        Reads-bind (Reads-consume kw_pipeline _ s₂) λ t s₃ l₃.
          Reads-bind (Reads-consume identifier _ s₃) λ name s₄ l₄.
            Reads-bind {n = 0}
              (Reads-match lparen
                (λ s₅ l₅.
                  Reads-bind {n = 0}
                    (Reads-ask (check rparen) (λ _. Reads-pure [] s₅)
                      (parameter_list-Reads f s₅ (omega arith)))
                    λ ps s₆ l₆. Reads-bind (Reads-consume rparen _ s₆) λ u s₇ l₇. Reads-pure ps s₇)
                (Reads-pure [] s₄))
              λ parameters s₈ l₈. Reads-bind (cache_output_spec-Reads s₈) λ output s₉ l₉.
                Reads-bind (recovering-Reads f _ s₉ (match-Matched doc_comment) (omega arith))
                  λ body s₁₀ l₁₀.
                    Reads-bind (Reads-consume kw_end _ s₁₀) λ v s₁₁ l₁₁. Reads-pure _ s₁₁

  param_entry-Reads : (f : ℕ) (s : State D) → 5 * left s ≤ f → Reads 1 s (param_entry f)
  unfolding param_entry
  param_entry-Reads f s h = Reads-bind (Reads-current s) λ here s₁ l₁.
      Reads-bind (Reads-consume identifier _ s₁) λ name s₂ l₂.
        Reads-bind {n = 0}
          (Reads-match op_colon
            (λ s₃ l₃. Reads-bind (Reads-consume identifier _ s₃) λ ty s₄ l₄. Reads-pure _ s₄)
            (Reads-pure _ s₂))
          λ type_name s₅ l₅.
            Reads-bind (optional_expression-Reads f op_assign s₅ (omega arith))
              λ v s₆ l₆. Reads-pure _ s₆

  param_entries-Reads : (f : ℕ) (s : State D) → 5 * left s + 1 ≤ f → Reads 0 s (param_entries f)
  unfolding param_entries at_block_end
  param_entries-Reads zero s h = absurd (omega arith)
  param_entries-Reads (suc f) s h =
      Reads-ask _ (λ _. Reads-pure [] s)
        (Reads-bind (param_entry-Reads f s (omega arith)) λ entry s₁ l₁.
          Reads-bind {n = 0}
            (Reads-match op_comma (λ s₂ l₂. param_entries-Reads f s₂ (omega arith))
              (Reads-pure [] s₁))
            λ others s₃ l₃. Reads-pure _ s₃)

  pub param_decl_statement-Reads :
      (f : ℕ) (s : State D) → 5 * left s + 1 ≤ f → Reads 1 s (param_decl_statement f)
  unfolding param_decl_statement
  param_decl_statement-Reads f s h = Reads-bind (Reads-current s) λ here s₁ l₁.
      Reads-bind (Reads-consume kw_params _ s₁) λ t s₂ l₂.
        Reads-bind (Reads-consume lbracket _ s₂) λ u s₃ l₃.
          Reads-bind (param_entries-Reads f s₃ (omega arith))
            λ entries s₄ l₄. Reads-bind (Reads-consume rbracket _ s₄) λ v s₅ l₅. Reads-pure _ s₅

  handled_parameter-Reads : (s : State D) → Reads 0 s handled_parameter
  unfolding handled_parameter
  handled_parameter-Reads s =
      Reads-ask (check op_at) (λ _. Reads-bind (Reads-advance s) λ t s₁ l₁. Reads-pure _ s₁)
        (Reads-branch
          (Reads-ask (check identifier)
            (λ _. Reads-bind (Reads-current s) λ t s₁ l₁. Reads-pure _ s₁) (Reads-pure false s))
          (λ s₁ l₁. Reads-bind (Reads-advance s₁) λ t s₂ l₂. Reads-pure _ s₂)
          (λ s₁ l₁. Reads-error _ _ s₁))

  pub on_params_statement-Reads :
      (f : ℕ) (s : State D) → 5 * left s + 3 ≤ f → Reads 1 s (on_params_statement f)
  unfolding on_params_statement
  on_params_statement-Reads f s h = Reads-bind (Reads-current s) λ here s₁ l₁.
      Reads-bind (Reads-consume kw_on_params _ s₁) λ t s₂ l₂.
        Reads-bind (handled_parameter-Reads s₂) λ name s₃ l₃.
          Reads-bind
            (statements-Reads f (kw_end ∷ []) _ s₃ (match-Matched doc_comment) (omega arith))
            λ body s₄ l₄. Reads-bind (Reads-consume kw_end _ s₄) λ v s₅ l₅. Reads-pure _ s₅
