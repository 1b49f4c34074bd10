-- ===== src/Algorithm.antt =====
-- algorithm/: the candidate elimination over the parts of a table, and the merge of their results.
pub mod Elimination
pub mod Finalize
pub mod Split
pub mod Learning
pub mod Packages
