-- ===== src/Compiler.antt =====
-- The compiler (compiler/): lexer, parser, symbol table and code generator.
pub mod Token
pub mod Lexer
pub mod Symbols
pub mod Ast
pub mod Parser
pub mod Instr
pub mod Generator
pub mod Codebuf
pub mod Driver
pub mod Tests
