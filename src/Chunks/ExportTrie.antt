-- ===== src/Chunks/ExportTrie.antt =====
-- macho/chunks/export_trie.rs: dyld's index of the exported symbols, a radix tree. This file builds
-- the tree and numbers its nodes.
pub mod Order
pub mod Lookup
pub mod Groups
pub mod Shape
pub mod Common
pub mod Build
pub mod Number
pub mod Placing
pub mod Write
pub mod Numbered
pub mod Slots
pub mod Walk
pub mod Loop
pub mod Tops
pub mod Layout
pub mod Rooms
pub mod Written
pub mod WriteNode
pub mod Slices
pub mod Reader
pub mod ReadNode
pub mod Descent
pub mod ReadBack
use mold_macho.Prelude.{
  length, some, take, none, ◌==◌, drop, zero, ◌∷◌, List, max, get_elem?, ℕ, ◌+◌, [], Option,
  if◌then◌else◌, suc,
}
use mold_macho.Prelude.Fallible.{◌>>=◌}
use mold_macho.Util.Leb.{uleb_size}

-- A terminal: a symbol of the image, or one re-exported from a dylib.
pub data Export : Type 0 where
  addr : ℕ → ℕ → Export
  reexport : ℕ → List ℕ → Export

unfoldable pub terminal_size : Export → ℕ
terminal_size (addr flags a) = uleb_size flags + uleb_size a
terminal_size (reexport ordinal name) = uleb_size 0x08 + uleb_size ordinal + length name + 1

-- A node: its edges, its export, its pre-order index and the number of its subtree's nodes.
mutual
  pub data TrieNode : Type 0 where
    trie_node : Children → Option Export → ℕ → ℕ → TrieNode

  pub data Children : Type 0 where
    no_child : Children
    child : List ℕ → TrieNode → Children → Children

abbrev pub children_of : TrieNode → Children
children_of (trie_node cs e i s) = cs

abbrev pub export_of : TrieNode → Option Export
export_of (trie_node cs e i s) = e

abbrev pub index_of : TrieNode → ℕ
index_of (trie_node cs e i s) = i

abbrev pub size_of : TrieNode → ℕ
size_of (trie_node cs e i s) = s

abbrev pub Entry : Type 0
Entry = List ℕ × Export

-- `take_while(|(n, _)| n[depth] == b).count()`; `none` is the panic of a name that is too short.
unfoldable pub count_group : ℕ → ℕ → List Entry → Option ℕ
count_group depth b [] = some 0
count_group depth b ((name, e) ∷ rest) = get_elem? name depth >>= (λ c.
    let more = count_group depth b rest in if c == b then more >>= (λ n. some (suc n)) else some 0)

-- The groups of names by the byte at `depth`: a group has a name at least, so as many rounds as
-- there are names are enough.
unfoldable pub split_groups : ℕ → ℕ → List Entry → Option (List (List Entry))
unfolding count_group
split_groups fuel depth [] = some []
split_groups zero depth (first ∷ rest) = none
split_groups (suc fuel) depth (first ∷ rest) = get_elem? first.0 depth >>= (λ b.
    count_group depth b (first ∷ rest) >>= (λ n.
      split_groups fuel depth (drop n (first ∷ rest))
      >>= (λ groups. some (take n (first ∷ rest) ∷ groups))))

-- `zip(..).take_while(|(a, b)| a == b).count()`.
unfoldable pub common_len : List ℕ → List ℕ → ℕ
common_len [] ys = 0
common_len (x ∷ xs) [] = 0
common_len (x ∷ xs) (y ∷ ys) = let more = common_len xs ys in if x == y then suc more else 0

abbrev pub last_of {ℓ} : {A : Type ℓ} → A → List A → A
last_of x [] = x
last_of x (y ∷ ys) = last_of y ys

-- `build_child`: the edge to a group's subtree, which `build` makes; `none` is an empty group.
unfoldable pub build_child :
    (List Entry → ℕ → Option TrieNode) → ℕ → List Entry → Option (List ℕ × TrieNode)
unfolding common_len
build_child build depth [] = none
build_child build depth (first ∷ more) =
    let n = common_len (drop depth first.0) (drop depth (last_of first more).0) in
    build (first ∷ more) (depth + n) >>= (λ node. some (take n (drop depth first.0), node))

unfoldable pub build_children :
    (List Entry → ℕ → Option TrieNode) → ℕ → List (List Entry) → Option Children
unfolding build_child
build_children build depth [] = some no_child
build_children build depth (group ∷ groups) = build_child build depth group >>= (λ (label, node).
    build_children build depth groups >>= (λ edges. some (child label node edges)))

unfoldable pub build_node :
    (List Entry → ℕ → Option TrieNode) → ℕ → Option Export → List Entry → Option TrieNode
unfolding split_groups build_children
build_node build depth export rest = split_groups (length rest) depth rest >>= (λ groups.
    build_children build depth groups >>= (λ edges. some (trie_node edges export 0 0)))

-- A subtree's names share more bytes than its parent's, so as many rounds as a name has bytes, and
-- one, are enough.
unfoldable pub build_trie : ℕ → List Entry → ℕ → Option TrieNode
unfolding build_node
build_trie zero names depth = none
build_trie (suc fuel) [] depth = build_node (build_trie fuel) depth none []
build_trie (suc fuel) ((name, export) ∷ rest) depth =
    let here = build_node (build_trie fuel) depth (some export) rest in
    let below = build_node (build_trie fuel) depth none ((name, export) ∷ rest) in
    if length name == depth then here else below

-- The greatest length of the names.
unfoldable pub longest : List Entry → ℕ
longest [] = 0
longest ((name, e) ∷ names) = max (length name) (longest names)
