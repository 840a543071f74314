-- ===== src/Symbols.antt =====
-- include/semantics/symbols.hpp, lib/semantics/symbols.cpp, include/semantics/symdata.hpp and
-- include/semantics/linkage.hpp: the symbol table and the walker that builds and queries it.
pub mod Name
pub mod Scope
pub mod Tree
pub mod Grow
pub mod Place
pub mod Enter
pub mod Leave
pub mod Reach
pub mod Resolve
pub mod Shadowing
pub mod Owned
pub mod Define
pub mod Table
pub mod Insertion
pub mod Reconcile
pub mod Params
pub mod Defaults
pub mod Nesting
pub mod Walk
pub mod Lookup
pub mod Insert
