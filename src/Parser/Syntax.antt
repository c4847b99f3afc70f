-- ===== src/Parser/Syntax.antt =====
-- The syntax tree: include/interpreter/ast.h. A node's location is its first field, and
-- `shared_ptr` is left out, since no node is reached by two paths. The lists of expressions and of
-- statements that stand inside expressions and statements are data types of their own.
use vision_pipe.Base.{Bool, Bytes, Option, List}
use vision_pipe.Lexer.Token.{SourceLocation, TokenType}

pub data ValueType : Type 0 where
  void integer float string boolean mat array object cache_ref unknown : ValueType

pub record CacheOutput : Type 0 where
  pub cache_id : Bytes
  pub is_global : Bool
  pub is_dynamic : Bool
  pub location : SourceLocation

-- The variant of a literal; `unset` is the value of a fresh node, whose type is UNKNOWN.
pub data LiteralValue (D : Type 0) : Type 0 where
  unset : LiteralValue D
  float : D → LiteralValue D
  string : Bytes → LiteralValue D
  boolean : Bool → LiteralValue D

-- `valueType`, which the parser sets with the value.
unfoldable pub value_type : {D : Type 0} → LiteralValue D → ValueType
value_type unset = ValueType.unknown
value_type (float d) = ValueType.float
value_type (string s) = ValueType.string
value_type (boolean b) = ValueType.boolean

mutual
  pub data Expression (D : Type 0) : Type 0 where
    literal_expr : SourceLocation → LiteralValue D → Expression D
    identifier_expr : SourceLocation → Bytes → Expression D
    function_call_expr : FunctionCall D → Expression D
    binary_expr : SourceLocation → Expression D → TokenType → Expression D → Expression D
    unary_expr : SourceLocation → TokenType → Expression D → Expression D
    -- The parser makes no such node.
    cache_access_expr : SourceLocation → Bytes → Bool → Expression D
    -- The identifier of the cache, whether it is dynamic, whether it is global, and the target.
    cache_load_expr : SourceLocation → Bytes → Bool → Bool → FunctionCall D → Expression D
    array_expr : SourceLocation → Expressions D → Expression D
    param_ref_expr : SourceLocation → Bytes → Expression D

  -- The name, the arguments by place, those by name, and where the result is cached.
  pub data FunctionCall (D : Type 0) : Type 0 where
    function_call :
        SourceLocation
        → Bytes
        → Expressions D
        → NamedArguments D
        → Option CacheOutput
        → FunctionCall D

  pub data Expressions (D : Type 0) : Type 0 where
    no_expressions : Expressions D
    expressions : Expression D → Expressions D → Expressions D

  pub data NamedArguments (D : Type 0) : Type 0 where
    no_named_arguments : NamedArguments D
    named_argument : Bytes → Expression D → NamedArguments D → NamedArguments D

mutual
  pub data Statement (D : Type 0) : Type 0 where
    expression_stmt : SourceLocation → Expression D → Statement D
    exec_seq_stmt : SourceLocation → Expression D → Statement D
    exec_multi_stmt : SourceLocation → Expressions D → Statement D
    exec_loop_stmt : SourceLocation → Expression D → Option (Expression D) → Statement D
    exec_interval_stmt : SourceLocation → Expression D → Expression D → Statement D
    no_interval_stmt : SourceLocation → Expression D → Statement D
    exec_interval_multi_stmt : SourceLocation → Expressions D → Expression D → Statement D
    exec_rt_seq_stmt : SourceLocation → Expression D → Expression D → Statement D
    exec_rt_multi_stmt : SourceLocation → Expressions D → Expression D → Statement D
    -- The pipeline, which is null for an inline block, and the block.
    exec_nasync_stmt : SourceLocation → Option (Expression D) → Statements D → Statement D
    exec_fork_stmt : SourceLocation → Expression D → Statement D
    debug_start_stmt : SourceLocation → Statement D
    debug_end_stmt : SourceLocation → Statement D
    -- The identifier of the cache, whether it is global, and where the value goes.
    use_stmt : SourceLocation → Bytes → Bool → Option CacheOutput → Statement D
    -- The identifier of the cache, its value or null, and whether it is global.
    cache_stmt : SourceLocation → Bytes → Option (Expression D) → Bool → Statement D
    if_stmt : SourceLocation → Expression D → Statements D → Statements D → Statement D
    while_stmt : SourceLocation → Expression D → Statements D → Statement D
    return_stmt : SourceLocation → Option (Expression D) → Statement D
    break_stmt : SourceLocation → Statement D
    continue_stmt : SourceLocation → Statement D
    global_stmt : SourceLocation → Bytes → Option (Expression D) → Statement D

  pub data Statements (D : Type 0) : Type 0 where
    no_statements : Statements D
    statements : Statement D → Statements D → Statements D

pub record ImportStmt : Type 0 where
  pub location : SourceLocation
  pub path : Bytes
  pub alias : Option Bytes

pub record ParameterDecl (D : Type 0) : Type 0 where
  pub name : Bytes
  pub is_let_binding : Bool
  pub is_global : Bool
  pub type_hint : Option ValueType
  pub default_value : Option (Expression D)
  pub location : SourceLocation

pub record ParamEntry (D : Type 0) : Type 0 where
  pub name : Bytes
  pub type_name : Bytes
  pub default_value : Option (Expression D)
  pub location : SourceLocation

pub record ParamDeclStmt (D : Type 0) : Type 0 where
  pub location : SourceLocation
  pub entries : List (ParamEntry D)

pub record OnParamsStmt (D : Type 0) : Type 0 where
  pub location : SourceLocation
  pub param_name : Bytes
  pub body : Statements D

pub record PipelineDecl (D : Type 0) : Type 0 where
  pub location : SourceLocation
  pub name : Bytes
  pub parameters : List (ParameterDecl D)
  pub cache_output : Option CacheOutput
  pub body : Statements D
  pub doc_comment : Bytes

pub record ConfigDecl (D : Type 0) : Type 0 where
  pub location : SourceLocation
  pub name : Bytes
  pub settings : List (Bytes × Expression D)

pub record Program (D : Type 0) : Type 0 where
  pub location : SourceLocation
  pub source_file : Bytes
  pub imports : List ImportStmt
  pub globals : List (Statement D)
  pub configs : List (ConfigDecl D)
  pub pipelines : List (PipelineDecl D)
  pub param_decls : List (ParamDeclStmt D)
  pub on_params_handlers : List (OnParamsStmt D)
  pub top_level_statements : List (Statement D)
