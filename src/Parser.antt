-- ===== src/Parser.antt =====
-- include/fix/parser/parser.hpp and src/parser/parser.cpp: the streaming parser.
pub mod Field
pub mod Frame
pub mod Stream
