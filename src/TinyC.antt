-- ===== src/TinyC.antt =====
-- src/bin/paradigms/tiny_c/tinyc.c: the Tiny-C compiler. Its lexer, parser, code generator and
-- virtual machine, each in a child.
pub mod Outcome
pub mod Syntax
pub mod Code
pub mod Vm
pub mod Emit
pub mod Lexer
pub mod Parser
pub mod Meaning
pub mod Correct
pub mod Examples
