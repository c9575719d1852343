-- ===== src/Chunks/ExportTrie/Write.antt =====
-- write_nodes, write_node and encode_export_trie of macho/chunks/export_trie.rs. A slice that is
-- written to is its bytes and the number of those written, `p`.
use mold_macho.Chunks.ExportTrie.{
  addr, Export, terminal_size, longest, reexport, no_child, Children, TrieNode, Entry, child,
  index_of, build_trie, trie_node,
}
use mold_macho.Chunks.ExportTrie.Number.{number_nodes}
use mold_macho.Chunks.ExportTrie.Placing.{Placement, place_nodes}
use mold_macho.Prelude.{
  ◌-◌, suc, Option, replicate, get_elem?, [], ◌%◌, some, List, ◌++◌, ℕ, ◌∷◌, leb, none, take,
  length, drop, ◌+◌, Bool, if◌then◌else◌,
}
use mold_macho.Prelude.Bytes.{pad_to}
use mold_macho.Prelude.Fallible.{◌>>=◌}
use mold_macho.Util.Leb.{write_uleb}

abbrev pub Slice : Type 0
Slice = List ℕ × ℕ

-- `p += write_uleb(&mut dst[p..], value)`.
unfoldable pub put_uleb : ℕ → Slice → Option Slice
put_uleb value (dst, p) =
    write_uleb (drop p dst) value >>= (λ (tail, n). some (take p dst ++ tail, p + n))

-- `dst[p..p + bytes.len()].copy_from_slice(bytes); p += bytes.len()`.
unfoldable pub put_bytes : List ℕ → Slice → Option Slice
put_bytes bytes (dst, p) =
    if leb (p + length bytes) (length dst)
    then some (take p dst ++ (bytes ++ drop (p + length bytes) dst), p + length bytes)
    else none

unfoldable pub put_terminal : Option Export → Slice → Option Slice
unfolding put_uleb put_bytes terminal_size
put_terminal none s = put_bytes (0 ∷ []) s
put_terminal (some (addr flags a)) s =
    put_uleb (terminal_size (addr flags a)) s >>= put_uleb flags >>= put_uleb a
put_terminal (some (reexport ordinal name)) s =
    put_uleb (terminal_size (reexport ordinal name)) s
    >>= put_uleb 0x08
    >>= put_uleb ordinal
    >>= put_bytes name
    >>= put_bytes (0 ∷ [])

unfoldable pub put_edges : List ℕ → Children → Slice → Option Slice
unfolding put_uleb put_bytes
put_edges offs no_child s = some s
put_edges offs (child label node edges) s = put_bytes label s >>= put_bytes (0 ∷ []) >>= (λ s'.
    get_elem? offs (index_of node)
    >>= (λ off. put_uleb off s' >>= (λ s''. put_edges offs edges s'')))

unfoldable pub count_edges : Children → ℕ
count_edges no_child = 0
count_edges (child label node edges) = suc (count_edges edges)

unfoldable pub write_node : TrieNode → List ℕ → List ℕ → Option (List ℕ)
unfolding put_terminal put_edges put_bytes count_edges
write_node (trie_node edges export i s) offs dst =
    put_terminal export (dst, 0)
    >>= put_bytes ((count_edges edges % 256) ∷ [])
    >>= put_edges offs edges
    >>= (λ s'. some s'.0)

-- The slices of `room` zero bytes, one after another in file order.
unfoldable pub write_slices : List TrieNode → Placement → List ℕ → ℕ → Option (List ℕ)
unfolding write_node
write_slices nodes placement [] room = some (replicate room 0)
write_slices nodes placement (i ∷ order) room = get_elem? placement.sizes i >>= (λ size.
    get_elem? nodes i >>= (λ node.
      if leb size room
      then write_node node placement.offs (replicate size 0) >>= (λ bytes.
        write_slices nodes placement order (room - size) >>= (λ more. some (bytes ++ more)))
      else none))

unfoldable pub write_nodes : List TrieNode → Placement → Option (List ℕ)
unfolding write_slices
write_nodes nodes placement = write_slices nodes placement placement.order placement.total

-- `without_dyld` says that no loader reads the image; `none` is a panic.
unfoldable pub encode_export_trie : Bool → List Entry → Option (List ℕ)
unfolding build_trie longest number_nodes place_nodes write_nodes pad_to
encode_export_trie without_dyld [] = if without_dyld then some [] else some (replicate 8 0)
encode_export_trie without_dyld (e ∷ exports) =
    let trie =
      build_trie (suc (longest (e ∷ exports))) (e ∷ exports) 0
      >>= number_nodes
      >>= (λ (root, nodes).
          place_nodes nodes
          >>= (λ placement. write_nodes nodes placement >>= (λ buf. some (pad_to 8 buf)))) in
    if without_dyld then some [] else trie
