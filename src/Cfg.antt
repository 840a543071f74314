-- ===== src/Cfg.antt =====
-- lib/lowering/cfg/walker.cpp and include/lowering/cfg/walker.hpp: the depth-first walk over the
-- blocks of a function. A block is a number; `graph` gives the successors of each in the order of
-- its terminator.
pub mod Walker
pub mod Unvisited
pub mod Visits
pub mod Order
