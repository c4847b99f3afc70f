-- ===== src/Parser/Declarations.antt =====
-- Imports, configurations and pipelines: src/interpreter/parser.cpp, `importStatement`,
-- `configDeclaration` and `pipelineDeclaration`.
use vision_pipe.Base.{ℕ, zero, suc, Bool, false, List, [], ◌∷◌, none, some, bytes, Bytes, eq_bytes}
use vision_pipe.Base.Dict.{insert}
use vision_pipe.Lexer.Token.{
  as_string, identifier, string_literal, doc_comment, kw_pipeline, kw_end, kw_import, kw_config,
  op_assign, lparen, rparen,
}
use vision_pipe.Parser.Syntax.{Expression, ImportStmt, PipelineDecl, ConfigDecl}
use vision_pipe.Parser.State.{state, ok, Parser, pure, no_fuel, ◌>>=◌, ◌>>◌, ask, branch}
use vision_pipe.Parser.Cursor.{current, previous, check, match, consume}
use vision_pipe.Parser.Expressions.{expression, assignment, cache_output_spec}
use vision_pipe.Parser.Statements.{at_block_end, recovering_block}
use vision_pipe.Parser.Parameters.{parameter_list}

module _ {D : Type 0} where
  -- `match(IDENTIFIER) && previous().raw == "as"`: the identifier is read whatever it is.
  unfoldable pub at_alias : Parser D Bool
  unfolding match previous eq_bytes
  at_alias =
      branch (match identifier) (do t ← previous; pure (eq_bytes t.raw (bytes "as"))) (pure false)

  unfoldable pub import_statement : Parser D ImportStmt
  unfolding current consume as_string at_alias
  import_statement = do
    here ← current
    consume kw_import (bytes "Expected 'import'")
    path ← consume string_literal (bytes "Expected import path string")
    alias ←
        branch at_alias
          (do name ← consume identifier (bytes "Expected alias name"); pure (some (as_string name)))
          (pure none)
    pure (record { location = here.location; path = as_string path; alias = alias })

  -- The settings up to `end`.
  unfoldable pub config_settings :
      ℕ → List (Bytes × Expression D) → Parser D (List (Bytes × Expression D))
  unfolding at_block_end consume assignment as_string insert
  config_settings zero settings = no_fuel
  config_settings (suc f) settings = branch (at_block_end (kw_end ∷ [])) (pure settings) (do
    key ← consume identifier (bytes "Expected config key")
    consume op_assign (bytes "Expected '=' after config key")
    value ← expression f
    config_settings f (insert (as_string key) value settings))

  unfoldable pub config_declaration : ℕ → Parser D (ConfigDecl D)
  unfolding current consume as_string config_settings
  config_declaration f = do
    here ← current
    consume kw_config (bytes "Expected 'config'")
    name ← consume identifier (bytes "Expected config name")
    settings ← config_settings f []
    consume kw_end (bytes "Expected 'end' after config block")
    pure (record { location = here.location; name = as_string name; settings = settings })

  -- `docComment = _lastDocComment; _lastDocComment.clear()`.
  unfoldable pub take_doc_comment : Parser D Bytes
  take_doc_comment (state b a d es) = ok d (state b a [] es)

  unfoldable pub pipeline_declaration : ℕ → Parser D (PipelineDecl D)
  unfolding current take_doc_comment consume match check parameter_list as_string cache_output_spec
      recovering_block
  pipeline_declaration f = do
    here ← current
    doc ← take_doc_comment
    consume kw_pipeline (bytes "Expected 'pipeline'")
    name ← consume identifier (bytes "Expected pipeline name")
    parameters ←
        branch (match lparen)
          (do
            ps ← branch (ask (check rparen)) (pure []) (parameter_list f)
            consume rparen (bytes "Expected ')' after parameters")
            pure ps)
          (pure [])
    output ← cache_output_spec
    body ← recovering_block f (match doc_comment)
    consume kw_end (bytes "Expected 'end' after pipeline body")
    pure (record {
      location = here.location;
      name = as_string name;
      parameters = parameters;
      cache_output = output;
      body = body;
      doc_comment = doc;
    })
