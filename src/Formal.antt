-- ===== src/Formal.antt =====
-- The finite formal core (src/rci/formal): the code-free expression language and its independent
-- exhaustive semantics over bounded universes.
pub mod Ast
pub mod Universe
pub mod Exhaustive
