-- ===== src/Tests.antt =====
-- Concrete inputs on which the theorems are applied, and runs of the definitions.
mod Lexing
mod Parameters
mod Parsing
mod Frames
