-- ===== src/Dictionary.antt =====
-- src/dictionary/data_dictionary.cpp and include/fix/dictionary/data_dictionary.hpp.
pub mod Definitions
pub mod Tables
pub mod Builtin
pub mod Validation
pub mod Names
pub mod Admin
