-- ===== src/Parser.antt =====
-- src/interpreter/parser.cpp with include/interpreter/parser.h and ast.h: the recursive descent
-- parser of the VisionPipe Script language. Syntax, State, Cursor, Expressions,
-- Simple, Statements, Parameters, Declarations and Programs are the code. Runs to Recorded are about how
-- far a production can move and how it can end; Grammar is the language of expressions, written
-- without the parser, and Gives to Completeness are about how the parser reads
-- it, Ensures to Soundness about what it can read.
pub mod Syntax
pub mod State
pub mod Cursor
pub mod Expressions
pub mod Simple
pub mod Statements
pub mod Parameters
pub mod Declarations
pub mod Programs
pub mod Runs
pub mod Moves
pub mod Recovers
pub mod ExpressionRuns
pub mod SimpleRuns
pub mod StatementRuns
pub mod DeclarationRuns
pub mod Total
pub mod Recorded
pub mod Grammar
pub mod Gives
pub mod Readings
pub mod Spelling
pub mod Leaves
pub mod Levels
pub mod Arrows
pub mod Calls
pub mod Completeness
pub mod Ensures
pub mod Sound
pub mod Places
pub mod Soundness
