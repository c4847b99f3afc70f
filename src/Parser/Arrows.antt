-- ===== src/Parser/Arrows.antt =====
-- The parser reads the arrows that the grammar spells, when it reads the expressions beside them.
use vision_pipe.Base.{Bool, true, false, List, [], ◌∷◌, ◌≡◌, refl, Bytes}
use vision_pipe.Lexer.Token.{Token, SourceLocation, same_type, kw_global, op_arrow}
use vision_pipe.Parser.Syntax.{
  CacheOutput, LiteralValue, Expression, FunctionCall, literal_expr, identifier_expr,
  function_call_expr, cache_load_expr,
}
use vision_pipe.Parser.State.{ParseError, Parser}
use vision_pipe.Parser.Cursor.{any_of}
use vision_pipe.Parser.Expressions.{
  expected_cache_id, load_target, cache_load, after_arrow, with_output, postfix,
}
use vision_pipe.Parser.Grammar.{Is, Global, local, global, Output}
use vision_pipe.Parser.Gives.{next_in, match-no, match-yes}
use vision_pipe.Parser.Readings as R
use vision_pipe.Parser.Readings.{Reading, finished, step, yes_branch, no_branch, known}
use vision_pipe.Parser.Spelling.{starters, starters-apart}
use vision_pipe.Parser.Leaves.{Output-Reading}

module _ {D : Type 0} where
  module _ (p : Parser D (Expression D)) (d : Bytes) (es : List ParseError) where
    pub postfix-bare :
        {b a r : List (Token D)} {e : Expression D}
        → Reading p b a d es e r
        → next_in (op_arrow ∷ []) r ≡ false
        → Reading (postfix p) b a d es e r
    unfolding postfix
    postfix-bare {r = r} {e = e} k h =
        R.call _ k λ b'. no_branch _ (match-no b' r d es op_arrow h) (finished e b' r)

    pub postfix-cached :
        {b a r r' : List (Token D)} {c : FunctionCall D} {o : CacheOutput} (t : Token D)
        → Reading p b a d es (function_call_expr c) (t ∷ r)
        → Is op_arrow t
        → Output o r r'
        → Reading (postfix p) b a d es (function_call_expr (with_output c o)) r'
    unfolding postfix after_arrow same_type
    postfix-cached {r = r} {r' = r'} t k h o = R.call _ k λ b'.
        yes_branch _ (match-yes t b' r d es op_arrow h (refl, refl))
          (R.call _ (Output-Reading d es (t ∷ b') expected_cache_id o) λ b''. finished _ b'' r')

    cache_load-Reading :
        {b a r r' : List (Token D)} {c : FunctionCall D} {g : Bool} (l : SourceLocation)
        (id : Bytes) (dynamic : Bool)
        → Global g a r
        → next_in starters r ≡ true
        → ((b' : List (Token D)) → Reading p b' r d es (function_call_expr c) r')
        → Reading (cache_load p l id dynamic) b a d es (cache_load_expr l id dynamic g c) r'
    unfolding cache_load load_target same_type any_of
    cache_load-Reading {b = b} {r = r} {r' = r'} l id dynamic local h k =
        step _ (match-no b r d es kw_global (starters-apart kw_global r refl h))
          (R.call _ (k b) λ b'. finished _ b' r')
    cache_load-Reading {b = b} {r = r} {r' = r'} l id dynamic (global t h') h k =
        step _ (match-yes t b r d es kw_global h' (refl, refl))
          (R.call _ (k (t ∷ b)) λ b'. finished _ b' r')

    module _ {b a r r' r'' : List (Token D)} {c : FunctionCall D} {g : Bool} (l : SourceLocation)
        (id : Bytes) (t : Token D) where
      pub postfix-loaded :
          Reading p b a d es (literal_expr l (LiteralValue.string id)) (t ∷ r)
          → Is op_arrow t
          → Global g r r'
          → next_in starters r' ≡ true
          → ((b' : List (Token D)) → Reading p b' r' d es (function_call_expr c) r'')
          → Reading (postfix p) b a d es (cache_load_expr l id false g c) r''
      unfolding postfix after_arrow same_type
      postfix-loaded k h x s m = R.call _ k λ b'.
          yes_branch _ (match-yes t b' r d es op_arrow h (refl, refl))
            (cache_load-Reading l id false x s m)

      pub postfix-loaded_dynamic :
          Reading p b a d es (identifier_expr l id) (t ∷ r)
          → Is op_arrow t
          → Global g r r'
          → next_in starters r' ≡ true
          → ((b' : List (Token D)) → Reading p b' r' d es (function_call_expr c) r'')
          → Reading (postfix p) b a d es (cache_load_expr l id true g c) r''
      unfolding postfix after_arrow same_type
      postfix-loaded_dynamic k h x s m = R.call _ k λ b'.
          yes_branch _ (match-yes t b' r d es op_arrow h (refl, refl))
            (cache_load-Reading l id true x s m)
