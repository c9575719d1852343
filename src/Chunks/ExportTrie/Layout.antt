-- ===== src/Chunks/ExportTrie/Layout.antt =====
-- Where place_nodes of macho/chunks/export_trie.rs puts the nodes of a subtree: its children's
-- subtrees one after another, then the node.
use mold_macho.Chunks.ExportTrie.{trie_node, Children, TrieNode, no_child, child}
use mold_macho.Chunks.ExportTrie.Numbered.{AreNumbered, node_counts, IsNumbered, node_count}
use mold_macho.Chunks.ExportTrie.Placing.{fixed_size}
use mold_macho.Chunks.ExportTrie.Walk.{edge_total, node_size, off_of}
use mold_macho.Chunks.ExportTrie.Write.{count_edges}
use mold_macho.Prelude.{
  ◌≡◌, get_elem?, some, ◌<◌, none, ◌≤◌, ◌∷◌, ◌*◌, ◌+◌, Option, ℕ, refl, [], ap₂, arith, ap, List,
  ◌++◌, ◌∙◌, sym,
}
use mold_macho.Util.Leb.{uleb_size}

-- The subtree's bytes go from `p` to `e`.
unfoldable mutual
  unfolding node_size

  pub LaidOut : List ℕ → List ℕ → ℕ → TrieNode → ℕ → Type 0
  LaidOut offs sizes p (trie_node edges export i s) e =
      (q : ℕ) × LaidAll offs sizes p edges q
      × (get_elem? offs i ≡ some q)
      × (get_elem? sizes i ≡ some (node_size offs (trie_node edges export i s)))
      × (e ≡ q + node_size offs (trie_node edges export i s))

  pub LaidAll : List ℕ → List ℕ → ℕ → Children → ℕ → Type 0
  LaidAll offs sizes p no_child e = e ≡ p
  LaidAll offs sizes p (child label node edges) e =
      (m : ℕ) × LaidOut offs sizes p node m × LaidAll offs sizes m edges e

-- The bytes that a subtree needs at most.
unfoldable mutual
  pub room : TrieNode → ℕ
  room (trie_node edges export i s) =
      fixed_size (trie_node edges export i s) + 5 * count_edges edges + room_all edges

  pub room_all : Children → ℕ
  room_all no_child = 0
  room_all (child label node edges) = room node + room_all edges

-- The indices in the order in which the nodes are placed.
unfoldable mutual
  pub postorder : TrieNode → List ℕ
  postorder (trie_node edges export i s) = postorder_all edges ++ i ∷ []

  pub postorder_all : Children → List ℕ
  postorder_all no_child = []
  postorder_all (child label node edges) = postorder node ++ postorder_all edges

-- Two arrays that are the same at the indices from `b` on, `n` of them.
abbrev pub SameAt : List ℕ → List ℕ → ℕ → ℕ → Type 0
SameAt xs ys b n = (j : ℕ) → b ≤ j → j < b + n → get_elem? ys j ≡ get_elem? xs j

pub edge_total-SameAt :
    (b : ℕ) (edges : Children) (offs offs' : List ℕ)
    → AreNumbered b edges
    → SameAt offs offs' b (node_counts edges)
    → edge_total offs' edges ≡ edge_total offs edges
unfolding edge_total IsNumbered node_count
edge_total-SameAt b no_child offs offs' are same = refl
edge_total-SameAt b (child label (trie_node es e i s) edges) offs offs' ((here, more), are) same =
    let first : get_elem? offs' i ≡ get_elem? offs i = same i (omega arith) (omega arith) in
    let off : off_of offs' i ≡ off_of offs i =
      ap (λ (o : Option ℕ). elim o as (λ q. ℕ) [ some x ↦ x | none ↦ 0 ]) first in
    ap₂ (λ x y. uleb_size x + y) off
      (edge_total-SameAt (b + node_count (trie_node es e i s)) edges offs offs' are
        (λ j h k. same j (omega arith) (omega arith)))

-- A layout stands as long as the arrays stay the same at the subtree's indices.
mutual
  unfolding LaidOut IsNumbered node_count node_size

  LaidOut-SameAt_lem :
      (b : ℕ) (node : TrieNode) (offs offs' sizes sizes' : List ℕ) (p e : ℕ)
      → IsNumbered b node
      → SameAt offs offs' b (node_count node)
      → SameAt sizes sizes' b (node_count node)
      → LaidOut offs sizes p node e
      → LaidOut offs' sizes' p node e
  LaidOut-SameAt_lem b (trie_node edges export i s) offs offs' sizes sizes' p e (here, are) so ss
        (q, laid, off, size, end) =
      let total : edge_total offs' edges ≡ edge_total offs edges =
        edge_total-SameAt (b + 1) edges offs offs' are
          (λ j h k. so j (omega arith) (omega arith)) in
      let f = fixed_size (trie_node edges export i s) in
      (
        q,
        LaidAll-SameAt (b + 1) edges offs offs' sizes sizes' p q are
            (λ j h k. so j (omega arith) (omega arith)) (λ j h k. ss j (omega arith) (omega arith))
            laid,
        so i (omega arith) (omega arith) ∙ off,
        ss i (omega arith) (omega arith) ∙ (size ∙ ap (λ n. some (f + n)) (sym total)),
        end ∙ ap (λ n. q + (f + n)) (sym total),
      )

  pub LaidAll-SameAt :
      (b : ℕ) (edges : Children) (offs offs' sizes sizes' : List ℕ) (p e : ℕ)
      → AreNumbered b edges
      → SameAt offs offs' b (node_counts edges)
      → SameAt sizes sizes' b (node_counts edges)
      → LaidAll offs sizes p edges e
      → LaidAll offs' sizes' p edges e
  LaidAll-SameAt b no_child offs offs' sizes sizes' p e are so ss laid = laid
  LaidAll-SameAt b (child label node edges) offs offs' sizes sizes' p e (is_numbered, are) so ss
        (m, first, rest) =
      (
        m,
        LaidOut-SameAt_lem b node offs offs' sizes sizes' p m is_numbered
            (λ j h k. so j (omega arith) (omega arith)) (λ j h k. ss j (omega arith) (omega arith))
            first,
        LaidAll-SameAt (b + node_count node) edges offs offs' sizes sizes' m e are
            (λ j h k. so j (omega arith) (omega arith)) (λ j h k. ss j (omega arith) (omega arith))
            rest,
      )

pub LaidOut-SameAt :
    (b : ℕ) (node : TrieNode) (offs offs' sizes sizes' : List ℕ) (p e : ℕ)
    → IsNumbered b node
    → SameAt offs offs' b (node_count node)
    → SameAt sizes sizes' b (node_count node)
    → LaidOut offs sizes p node e
    → LaidOut offs' sizes' p node e
LaidOut-SameAt b node offs offs' sizes sizes' p e is_numbered so ss laid =
    LaidOut-SameAt_lem b node offs offs' sizes sizes' p e is_numbered so ss laid
