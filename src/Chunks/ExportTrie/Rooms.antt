-- ===== src/Chunks/ExportTrie/Rooms.antt =====
-- The recursion over the tree lays each subtree out, in the room that five bytes for each child
-- offset give it, for macho/chunks/export_trie.rs.
use mathlib.Core.Path.{subst}
use mold_macho.Chunks.ExportTrie.{TrieNode, trie_node, Children, child, Export, no_child}
use mold_macho.Chunks.ExportTrie.Layout.{
  LaidOut, room, room_all, LaidAll, postorder, postorder_all, LaidOut-SameAt, SameAt,
  LaidAll-SameAt, edge_total-SameAt,
}
use mold_macho.Chunks.ExportTrie.Numbered.{node_counts, node_count, IsNumbered, AreNumbered}
use mold_macho.Chunks.ExportTrie.Placing.{Placement, fixed_size}
use mold_macho.Chunks.ExportTrie.Walk.{
  off_of, edge_total, node_size, put_node, length-place_all, length-place, place, place_all,
}
use mold_macho.Chunks.ExportTrie.Write.{count_edges}
use mold_macho.Prelude.{
  ◌%◌, Bool-cases, [], Option, ◌≢◌, ◌≤◌, some, get_elem?-set_ne, get_elem?, inl, ◌+◌, List, arith,
  ◌++◌, zero, ◌∷◌, ◌*◌, inr, ◌⊎◌, ◌≡◌, ℕ, ◌^◌, ap, ◌<◌, ◌∙◌, append_assoc, length, suc, none, ltb,
  ◌/◌, append-nil, sym, refl, get_elem?-set_self, set,
}
use mold_macho.Util.Leb.{uleb_size}
use mold_macho.Util.Leb.Encoding.{groups, uleb_size-groups}
use native.Mathlib.Nat.{mod-eq_of_lt}

pub length-groups : (k value : ℕ) → length (groups k value) ≤ suc k
unfolding groups
length-groups zero value = omega arith
length-groups (suc k) value = elim (Bool-cases (ltb value 128)) [
  | inl small ↦ rw small (omega arith)
  | inr large ↦ rw large (omega (arith, length-groups k (value / 128)))
]

pub uleb_size-le : (value : ℕ) → value < 2 ^ 32 → uleb_size value ≤ 5
uleb_size-le value h = omega (arith, uleb_size-groups 4 value (omega arith), length-groups 4 value)

mutual
  unfolding LaidOut

  pub LaidOut-le :
      (offs sizes : List ℕ) (p : ℕ) (node : TrieNode) (e : ℕ) → LaidOut offs sizes p node e → p ≤ e
  LaidOut-le offs sizes p (trie_node edges export i s) e (q, laid, off, size, end) =
      omega (arith, LaidAll-le offs sizes p edges q laid)

  pub LaidAll-le :
      (offs sizes : List ℕ) (p : ℕ) (edges : Children) (e : ℕ)
      → LaidAll offs sizes p edges e
      → p ≤ e
  LaidAll-le offs sizes p no_child e laid = omega arith
  LaidAll-le offs sizes p (child label node edges) e (m, first, rest) =
      omega (arith, LaidOut-le offs sizes p node m first, LaidAll-le offs sizes m edges e rest)

pub LaidAll-edge_total :
    (offs sizes : List ℕ) (p : ℕ) (edges : Children) (e : ℕ)
    → LaidAll offs sizes p edges e
    → e < 2 ^ 32
    → edge_total offs edges ≤ 5 * count_edges edges
unfolding LaidOut edge_total count_edges
LaidAll-edge_total offs sizes p no_child e laid h = omega arith
LaidAll-edge_total offs sizes p (child label (trie_node es ex i s) edges) e
      (m, (q, below, off, size, end), rest) h =
    let le = LaidAll-le offs sizes m edges e rest in
    let here : off_of offs i ≡ q =
      ap (λ (o : Option ℕ). elim o as (λ r. ℕ) [ some x ↦ x | none ↦ 0 ]) off in
    let small : uleb_size (off_of offs i) ≤ 5 = rw here (uleb_size-le q (omega arith)) in
    omega (arith, LaidAll-edge_total offs sizes m edges e rest h)

-- What placing the nodes with the indices from `b` on, `n` of them, in `bytes` bytes at most, makes
-- of `p`.
abbrev pub Extends : ℕ → ℕ → ℕ → List ℕ → Placement → Placement → Type 0
Extends b n bytes post p p' =
    ((j : ℕ)
      → (j < b) ⊎ (b + n ≤ j)
      → (get_elem? p'.offs j ≡ get_elem? p.offs j) × (get_elem? p'.sizes j ≡ get_elem? p.sizes j))
    × (p'.order ≡ p.order ++ post)
    × (p'.total ≤ p.total + bytes)

put_node-Extends :
    (edges : Children) (export : Option Export) (i s : ℕ) (p q : Placement)
    → Extends (i + 1) (node_counts edges) (room_all edges) (postorder_all edges) p q
    → edge_total q.offs edges ≤ 5 * count_edges edges
    → p.total + room (trie_node edges export i s) < 2 ^ 32
    → let me = trie_node edges export i s in
      Extends i (node_count me) (room me) (postorder me) p (put_node me q)
      × ((put_node me q).total ≡ q.total + node_size q.offs me)
      × (node_size q.offs me % 2 ^ 32 ≡ node_size q.offs me)
unfolding put_node room postorder node_count node_size
put_node-Extends edges export i s p q (frame, order, total) few fits =
    let me = trie_node edges export i s in
    let n = node_size q.offs me in
    let small : n % 2 ^ 32 ≡ n = mod-eq_of_lt (omega arith) in
    let exact : (q.total + n % 2 ^ 32) % 2 ^ 32 ≡ q.total + n =
      ap (λ (k : ℕ). (q.total + k) % 2 ^ 32) small ∙ mod-eq_of_lt (omega arith) in
    (
      (
        (λ j out.
            let ne : i ≢ j = λ same. absurd (omega arith) in
            let out' : (j < i + 1) ⊎ (i + 1 + node_counts edges ≤ j) = elim out [
              | inl lt ↦ inl (omega arith)
              | inr ge ↦ inr (omega arith)
            ] in
            let (fo, fs) = frame j out' in
            (
              get_elem?-set_ne q.offs q.total ne ∙ fo,
              get_elem?-set_ne q.sizes (n % 2 ^ 32) ne ∙ fs,
            )),
        ap (λ l. l ++ i ∷ []) order ∙ append_assoc p.order (postorder_all edges) (i ∷ []),
        omega arith,
      ),
      exact,
      small,
    )

-- One subtree after another.
Extends-then :
    (b n n' bytes bytes' : ℕ) (post post' : List ℕ) (p p1 p2 : Placement)
    → Extends b n bytes post p p1
    → Extends (b + n) n' bytes' post' p1 p2
    → Extends b (n + n') (bytes + bytes') (post ++ post') p p2
Extends-then b n n' bytes bytes' post post' p p1 p2 (frame, order, total) (frame', order', total') =
    (
      (λ j out.
          let first : (j < b) ⊎ (b + n ≤ j) = elim out [
            | inl lt ↦ inl (omega arith)
            | inr ge ↦ inr (omega arith)
          ] in
          let next : (j < b + n) ⊎ (b + n + n' ≤ j) = elim out [
            | inl lt ↦ inl (omega arith)
            | inr ge ↦ inr (omega arith)
          ] in
          let (fo, fs) = frame j first in let (fo', fs') = frame' j next in (fo' ∙ fo, fs' ∙ fs)),
      order' ∙ (ap (λ l. l ++ post') order ∙ append_assoc p.order post post'),
      omega arith,
    )

node_size-edge_total :
    (edges : Children) (export : Option Export) (i s : ℕ) (offs offs' : List ℕ)
    → edge_total offs edges ≡ edge_total offs' edges
    → node_size offs (trie_node edges export i s) ≡ node_size offs' (trie_node edges export i s)
unfolding node_size
node_size-edge_total edges export i s offs offs' e =
    ap (λ (k : ℕ). fixed_size (trie_node edges export i s) + k) e

abbrev pub FitsIn : ℕ → ℕ → ℕ → Placement → Type 0
FitsIn b n bytes p = (b + n ≤ length p.offs) × (b + n ≤ length p.sizes) × (p.total + bytes < 2 ^ 32)

mutual
  unfolding place LaidOut IsNumbered node_count room postorder

  place-LaidOut_lem :
      (b : ℕ) (node : TrieNode) (p : Placement)
      → IsNumbered b node
      → FitsIn b (node_count node) (room node) p
      → Extends b (node_count node) (room node) (postorder node) p (place node p)
        × LaidOut (place node p).offs (place node p).sizes p.total node (place node p).total
  place-LaidOut_lem b (trie_node edges export i s) p (here, are) (ho, hs, fits) =
      let q = place_all edges p in
      let (extends, laid) =
        place_all-LaidAll (b + 1) edges p are (omega arith, omega arith, omega arith) in
      let me = trie_node edges export i s in
      let few =
        LaidAll-edge_total q.offs q.sizes p.total edges q.total laid (omega (arith, extends.2)) in
      let extends' =
        subst (λ (k : ℕ). Extends k (node_counts edges) (room_all edges) (postorder_all edges) p q)
          (ap (λ (k : ℕ). k + 1) (sym here)) extends in
      let (whole, total, small) = put_node-Extends edges export i s p q extends' few fits in
      let (len, len') = length-place_all edges p in
      let n = node_size q.offs me in
      let offs = set q.offs i q.total in
      let sizes = set q.sizes i (n % 2 ^ 32) in
      let kept : SameAt q.offs offs (b + 1) (node_counts edges) =
        λ j h k. get_elem?-set_ne q.offs q.total (λ e. absurd (omega arith)) in
      let kept' : SameAt q.sizes sizes (b + 1) (node_counts edges) =
        λ j h k. get_elem?-set_ne q.sizes (n % 2 ^ 32) (λ e. absurd (omega arith)) in
      let edges_kept = edge_total-SameAt (b + 1) edges q.offs offs are kept in
      let same : n ≡ node_size offs me =
        node_size-edge_total edges export i s q.offs offs (sym edges_kept) in
      (
        subst (λ (k : ℕ). Extends k (node_count me) (room me) (postorder me) p (put_node me q)) here
            whole,
        (
          q.total,
          LaidAll-SameAt (b + 1) edges q.offs offs q.sizes sizes p.total q.total are kept kept'
              laid,
          get_elem?-set_self q.offs i q.total (omega arith),
          get_elem?-set_self q.sizes i (n % 2 ^ 32) (omega arith) ∙ ap some (small ∙ same),
          total ∙ ap (λ (k : ℕ). q.total + k) same,
        ),
      )

  pub place_all-LaidAll :
      (b : ℕ) (edges : Children) (p : Placement)
      → AreNumbered b edges
      → FitsIn b (node_counts edges) (room_all edges) p
      → Extends b (node_counts edges) (room_all edges) (postorder_all edges) p (place_all edges p)
        × LaidAll
            (place_all edges p).offs
            (place_all edges p).sizes
            p.total
            edges
            (place_all edges p).total
  place_all-LaidAll b no_child p are fits =
      (((λ j out. (refl, refl)), sym (append-nil p.order), omega arith), refl)
  place_all-LaidAll b (child label node edges) p (is_numbered, are) (ho, hs, fits) =
      let p1 = place node p in
      let p2 = place_all edges p1 in
      let (extends, laid) =
        place-LaidOut_lem b node p is_numbered (omega arith, omega arith, omega arith) in
      let (len, len') = length-place node p in
      let (extends', laid') =
        place_all-LaidAll (b + node_count node) edges p1 are
          (omega arith, omega arith, omega (arith, extends.2)) in
      (
        Extends-then b (node_count node) (node_counts edges) (room node) (room_all edges)
            (postorder node) (postorder_all edges) p p1 p2 extends extends',
        (
          p1.total,
          LaidOut-SameAt b node p1.offs p2.offs p1.sizes p2.sizes p.total p1.total is_numbered
              (λ j h k. (extends'.0 j (inl k)).0) (λ j h k. (extends'.0 j (inl k)).1) laid,
          laid',
        ),
      )
