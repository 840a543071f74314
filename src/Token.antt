-- ===== src/Token.antt =====
-- include/tokens.hpp and lib/tokens.cpp: operators and primitive types in one namespace of tokens.
pub mod Kinds
pub mod Underlying
pub mod Family
pub mod Predicate
pub mod Strings
pub mod Classification
