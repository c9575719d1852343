-- ===== src/Lib.antt =====
-- mold_macho: a model of parts of mold's Mach-O linker (the directory macho/), with their theorems.
--
-- The linker reads object files and archives, resolves symbols, lays out the sections, with thunks
-- for the branches that do not reach, and writes an image whose __LINKEDIT tables tell the loader
-- what to fix. This library models:
--
-- - Module Util.Align is about align_to, align_to_mod, bits and sign_extend of macho/util/mod.rs.
-- - Module Util.Leb is about encode_uleb, encode_sleb, write_uleb, uleb_size and read_uleb of
--   macho/util/mod.rs, and Reader::sleb of macho/dwarf.rs.
-- - Module Util.Words is about read16/32/64 and push16/32/64 of macho/util/mod.rs.
-- - Module Util.Names is about name_sort_key of macho/util/mod.rs.
-- - Module Util.Text is about is_space, trim_space and lines of macho/util/mod.rs.
-- - Module Util.Glob is about Pattern and bracket of macho/util/glob.rs, which the options that take
--   symbol patterns match with.
-- - Module Util.SipHash is about macho/util/siphash.rs, which the code folding hashes with.
-- - Module Util.CityHash is about macho/util/cityhash.rs, which the mergeable records hash names with.
-- - Module Chunks.Segments is about segment_and_offset of macho/chunks/mod.rs, which the streams
--   call.
-- - Module Chunks.Rebase is about macho/chunks/rebase_info.rs; its opcodes' operands are written
--   by Util.Leb.
-- - Module Chunks.Bind is about macho/chunks/bind_info.rs, and its Machine about the loader's
--   reading.
-- - Module Chunks.LazyBind is about macho/chunks/lazy_bind_info.rs.
-- - Module Chunks.WeakBind is about macho/chunks/weak_bind_info.rs; it uses the opcodes of
--   Chunks.Bind.
-- - Module Chunks.FunctionStarts is about macho/chunks/function_starts.rs.
-- - Module Chunks.Unwind is about the records and passes of macho/chunks/unwind_info.rs, and the
--   UnwindRecord of macho/input_sections.rs; its Encode is about write_table and encode_page.
-- - Module Chunks.ExportTrie is about macho/chunks/export_trie.rs: the trie, its numbering (Number),
--   placement (Placing) and bytes (Write), which it writes by Util.Leb, and a loader's Reader.
-- - Module Archive is about macho/archive_file.rs, but for the opening of members as mapped files.
--   Archive.Names says how the bytes of an entry name a member, Archive.Holding what an archive holds.
-- - Module Thunks is about create_thunks, need_thunks and code_span of macho/thunks.rs with what they
--   call, align_offset of
--   macho/input_sections.rs, and the mark of macho/symbol.rs. Thunks.Data has the data, Thunks.Scan
--   the scan of a batch; Thunks.Layout, Batch, Prune, Claims, Valid, Round and Loop follow the loop.
--   Thunks.Span has need_thunks, on the headers of the chunks.
-- - Module Arch.Arm64 is about instruction immediates and thunks of macho/arch/arm64.rs, and write32
--   of macho/util/mod.rs; its Masks has lemmas on bit masks.
-- - Module Tests is about runs at concrete inputs.
-- - Module Prelude is about shared names, and lemmas on lists, bits, orders and words.
--
-- The loaders of Chunks.Rebase.Machine and Chunks.Bind.Machine refuse a slot that does not begin
-- inside the current segment, as the comment of rebase_ops says of dyld.
--
-- Correspondence. A byte buffer is a list of natural numbers; a u64 is a natural number with its
-- wrap-around written out; an i64 is an integer or its 64-bit pattern. A function that writes to
-- a `&mut` buffer returns the new one, and a reader returns the value and the bytes behind it.
-- `none` stands for a panic or a fatal error. What a function takes from the linker's context
-- (the segments, the addresses of input sections, the architecture, whether the image is slid) is
-- an argument of the definition, as is memchr's search for a literal, of which the theorems assume
-- that it finds the first place (Util.Glob.Places.Finds); so are the slots, binds and starts that `construct`
-- gathers from the input. The const generic parameters of SipHashTmpl are arguments too.
--
-- Fuel. encode_sleb_loop and write_uleb_loop have ten rounds: a round takes seven bits of a 64-bit
-- value. rebase_ops_loop and split_pages_loop have as many rounds as there are locations or
-- records, since a round takes one at least. trim_end has one more round than there are
-- bytes. encode_uleb_loop and uleb_size_loop recur on the
-- accessibility of the value. compile_loop has a round for each byte of the pattern, and members_loop
-- one for each byte of the archive and one more. matches_loop has (|s| + 1) * (|tokens| + 1) + 1:
-- each retry moves the last star's end on, and between two the tokens are used up. create_loop and
-- batches_left have a round for each member. That the fuel is enough is shown by the theorems that
-- these loops give a result, for compile_loop in Util.Glob.WellFormed and for batches_left in
-- Thunks.Batches.
--
-- build_trie has a round for each byte of the longest name and one more, split_groups one for each
-- name of a node, and place_loop two for each node of the trie: one for each edge and one for each
-- node are enough. The trie's walks over disjoint subtrees, which may run in parallel, run one after
-- another, and the array of its nodes holds the nodes instead of pointers to them.
--
-- A member of a section that gets thunks goes by its position, the offsets are the list of those
-- placed, the marks the list of the marked symbols, and the parallel scan is a sequential one, as
-- what is claimed is sorted. The debug assertion on a thunk's size is a hypothesis.
--
-- Not modelled: Reach::new, the matchers of many patterns, reading of object files, resolution,
-- the passes that lay out the image, the targets' relocations and optimization hints,
-- and the tables other than those above. The sort of the rebase locations is the
-- insertion sort of Prelude.Sort, as sort_unstable on integers is determined by its result;
-- that of the binds is the stable insertion sort of Prelude.SortBy.
pub mod Prelude
pub mod Util
pub mod Arch
pub mod Archive
pub mod Thunks
pub mod Chunks
pub mod Tests
