-- ===== src/Chunks.antt =====
-- The output chunks of macho/chunks: the tables that the linker builds for the loader.
pub mod ExportTrie
pub mod Segments
pub mod Bind
pub mod FunctionStarts
pub mod LazyBind
pub mod WeakBind
pub mod Rebase
pub mod Unwind
