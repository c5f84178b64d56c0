-- ===== src/Core.antt =====
-- core/: the parts that the rest of the program calls for its texts.
pub mod Logging
