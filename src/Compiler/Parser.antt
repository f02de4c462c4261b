-- ===== src/Compiler/Parser.antt =====
-- compiler/parser.c: recursive descent with backtracking over tables of productions.
pub mod Grammar
pub mod Match
pub mod Total
pub mod Ends
