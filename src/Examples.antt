-- ===== src/Examples.antt =====
-- The theorems at concrete inputs, module by module.
mod Trees
mod Counts
mod Rows
mod Compiler
mod Builders
mod Queues
mod Frontends
mod XgBoosts
mod Models
