-- ===== src/Compiler/Ast.antt =====
-- compiler/ast.c: the nodes of the syntax tree, and the semantic checks made when a node is
-- created. A node is a value, so a routine that changes the node given to it returns the new one;
-- freeing is not modelled, and allocation succeeds.
pub mod Nodes
pub mod Literals
pub mod Register
pub mod Create
