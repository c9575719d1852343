-- ===== src/Util/Glob/Compile.antt =====
-- A compiled pattern matches what the pattern means.
