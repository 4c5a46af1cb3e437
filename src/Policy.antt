-- ===== src/Policy.antt =====
-- internal/policy: the frame rules, and the rules on a shell command behind a lexer.
pub mod Text
pub mod Lexer
pub mod Resolve
pub mod Rules
pub mod Inspect
