-- ===== src/Lexer.antt =====
-- src/interpreter/lexer.cpp and include/interpreter/lexer.h: the lexer of the VisionPipe Script
-- language. Token, Scan, Machine and Stream are the code; the other children prove about it.
pub mod Token
pub mod Scan
pub mod Machine
pub mod Stream
pub mod Spells
pub mod Spelled
pub mod Tables
pub mod Meanings
pub mod Reads
pub mod Pieces
pub mod Lexed
pub mod Kinds
pub mod Lexemes
pub mod Operators
pub mod Next
pub mod Tokens
pub mod Literals
pub mod Position
pub mod Words
pub mod LoneWord
