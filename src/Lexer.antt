-- ===== src/Lexer.antt =====
-- src/frontend/lexer: source text to tokens.
pub mod Token
pub mod Chars
pub mod Keywords
pub mod Operators
pub mod Cursor
pub mod Tokenize
pub mod Position
pub mod Blanks
pub mod Spelling
pub mod Lexemes
pub mod Order
