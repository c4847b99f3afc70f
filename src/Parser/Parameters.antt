-- ===== src/Parser/Parameters.antt =====
-- Parameters of pipelines and of the runtime: src/interpreter/parser.cpp, `parameterList`,
-- `parameterDecl`, `paramDeclStatement` and `onParamsStatement`.
use vision_pipe.Base.{
  ℕ, zero, suc, false, List, [], ◌∷◌, none, some, bytes, Bytes, eq_bytes, if◌then◌else◌,
}
use vision_pipe.Lexer.Token.{
  as_string, identifier, doc_comment, kw_end, kw_let, kw_global, kw_params, kw_on_params, op_assign,
  op_comma, op_colon, op_at, lbracket, rbracket,
}
use vision_pipe.Parser.Syntax.{ValueType, ParameterDecl, ParamEntry, ParamDeclStmt, OnParamsStmt}
use vision_pipe.Parser.State.{Parser, pure, no_fuel, ◌>>=◌, ◌>>◌, ask, branch}
use vision_pipe.Parser.Cursor.{current, check, advance, match, error, consume}
use vision_pipe.Parser.Simple.{optional_expression}
use vision_pipe.Parser.Statements.{at_block_end, block}

-- The type that an annotation names.
unfoldable pub type_hint : Bytes → ValueType
unfolding eq_bytes
type_hint name =
    if eq_bytes name (bytes "int")
    then ValueType.integer
    else if eq_bytes name (bytes "float")
    then ValueType.float
    else if eq_bytes name (bytes "string")
    then ValueType.string
    else if eq_bytes name (bytes "bool")
    then ValueType.boolean
    else if eq_bytes name (bytes "mat")
    then ValueType.mat
    else ValueType.unknown

module _ {D : Type 0} where
  unfoldable pub parameter_decl : ℕ → Parser D (ParameterDecl D)
  unfolding current match consume as_string type_hint optional_expression
  parameter_decl f = do
    here ← current
    is_let ← match kw_let
    global ← match kw_global
    name ← consume identifier (bytes "Expected parameter name")
    hint ←
        branch (match op_colon)
          (do
            ty ← consume identifier (bytes "Expected type name")
            pure (some (type_hint (as_string ty))))
          (pure none)
    value ← optional_expression f op_assign
    pure (record {
      name = as_string name;
      is_let_binding = is_let;
      is_global = global;
      type_hint = hint;
      default_value = value;
      location = here.location;
    })

  unfoldable pub parameter_list : ℕ → Parser D (List (ParameterDecl D))
  unfolding parameter_decl match
  parameter_list zero = no_fuel
  parameter_list (suc f) = do
    parameter ← parameter_decl f
    others ← branch (match op_comma) (parameter_list f) (pure [])
    pure (parameter ∷ others)

  unfoldable pub param_entry : ℕ → Parser D (ParamEntry D)
  unfolding current consume as_string match optional_expression
  param_entry f = do
    here ← current
    name ← consume identifier (bytes "Expected parameter name")
    type_name ←
        branch (match op_colon)
          (do
            ty ← consume identifier (bytes "Expected type (int, float, string, bool)")
            pure (as_string ty))
          (pure (bytes "string"))
    value ← optional_expression f op_assign
    pure (record {
      name = as_string name;
      type_name = type_name;
      default_value = value;
      location = here.location;
    })

  -- The entries up to `]`, or up to one that no comma follows.
  unfoldable pub param_entries : ℕ → Parser D (List (ParamEntry D))
  unfolding at_block_end match param_entry
  param_entries zero = no_fuel
  param_entries (suc f) = branch (at_block_end (rbracket ∷ [])) (pure []) (do
    entry ← param_entry f
    others ← branch (match op_comma) (param_entries f) (pure [])
    pure (entry ∷ others))

  unfoldable pub param_decl_statement : ℕ → Parser D (ParamDeclStmt D)
  unfolding current consume param_entries
  param_decl_statement f = do
    here ← current
    consume kw_params (bytes "Expected 'params'")
    consume lbracket (bytes "Expected '[' after 'params'")
    entries ← param_entries f
    consume rbracket (bytes "Expected ']' after params list")
    pure (record { location = here.location; entries = entries })

  -- The name after `on_params`.
  unfoldable pub handled_parameter : Parser D Bytes
  unfolding check advance as_string current error eq_bytes
  handled_parameter =
      branch (ask (check op_at)) (do t ← advance; pure (as_string t))
        (branch
          (branch (ask (check identifier)) (do t ← current; pure (eq_bytes t.raw (bytes "*")))
            (pure false))
          (do advance; pure (bytes "*")) (error (bytes "Expected @param_name after 'on_params'")))

  unfoldable pub on_params_statement : ℕ → Parser D (OnParamsStmt D)
  unfolding current consume handled_parameter block match
  on_params_statement f = do
    here ← current
    consume kw_on_params (bytes "Expected 'on_params'")
    name ← handled_parameter
    body ← block f (kw_end ∷ []) (match doc_comment)
    consume kw_end (bytes "Expected 'end' after on_params body")
    pure (record { location = here.location; param_name = name; body = body })
