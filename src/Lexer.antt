-- ===== src/Lexer.antt =====
-- The lexer: compiler/hash-lexer.
pub mod Text
pub mod Token
pub mod State
pub mod Number
pub mod Literal
pub mod Trivia
pub mod Tokens
pub mod At
pub mod Comment
pub mod Nested
pub mod Step
pub mod Word
pub mod Names
pub mod Unclosed
pub mod Tests
