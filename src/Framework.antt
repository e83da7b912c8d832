-- ===== src/Framework.antt =====
-- framework: the words of a command's use string, and the format of its output.
pub mod Use
pub mod Output
mod Tests
