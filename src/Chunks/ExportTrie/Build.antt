-- ===== src/Chunks/ExportTrie/Build.antt =====
-- build_trie of macho/chunks/export_trie.rs makes a trie in which each name has its export.
use mathlib.Core.Path.{subst}
use mold_macho.Chunks.ExportTrie.{
  Children, Entry, TrieNode, child, Export, build_child, build_trie, common_len, last_of,
  build_children, build_node, trie_node, no_child, longest,
}
use mold_macho.Chunks.ExportTrie.Common.{group-label, prepend-prepend, last_of-prepend}
use mold_macho.Chunks.ExportTrie.Groups.{
  GroupsOf, prepends, IsBare, split_groups-GroupsOf, length-prepend,
}
use mold_macho.Chunks.ExportTrie.Lookup.{
  find, strip_label, lookup-append, lookup-prepend-none, lookup, find_below, strip_label-some,
  lookup-HeadAbove, find_below-taken, find_below-passed, lookup-prepend, lookup-append_none,
}
use mold_macho.Chunks.ExportTrie.Number.{count}
use mold_macho.Chunks.ExportTrie.Order.{
  HeadAbove, prepend, All-first, HeadIs, IsSorted, IsSorted-prepend, IsSorted-append, name_cmp-nil,
}
use mold_macho.Chunks.ExportTrie.Shape.{IsNameByte, IsTrie, AreEdges, IsEntry, Above, IsTerminal}
use mold_macho.Prelude.{
  some, arith, ◌<◌, refl, sym, ◌≡◌, length-append, [], ◌++◌, length, ◌∙◌, ◌∷◌, List, none, Option,
  suc, ℕ, ap, ◌+◌, drop, take, ◌==◌, true, Ordering, zero, false,
}
use mold_macho.Prelude.Bytes.{All, All-take, bytes_eq}
use mold_macho.Prelude.Slices.{drop_all}
use mold_macho.Util.Names.{name_cmp}

-- A subtree for names that stand without what they share.
abbrev Builds : List Entry → Option TrieNode → Type 0
Builds names made =
    (node : TrieNode) × (made ≡ some node)
    × ((name : List ℕ) → find node name ≡ lookup name names)
    × IsTrie node

abbrev BuildsBelow : List Entry → Option Children → Type 0
BuildsBelow names made =
    (edges : Children) × (made ≡ some edges)
    × ((b : ℕ) (name : List ℕ) → find_below edges (b ∷ name) ≡ lookup (b ∷ name) names)
    × AreEdges edges
    × ((b : ℕ) → All (HeadAbove b) names → Above b edges)

-- The names below a node are shorter than those above it.
abbrev Shorter : ℕ → Entry → Type 0
Shorter fuel e = length e.0 < fuel

Shorter-prepend :
    (fuel b : ℕ) (l : List ℕ) (names : List Entry)
    → All (Shorter (suc fuel)) (prepend (b ∷ l) names)
    → All (Shorter fuel) names
Shorter-prepend fuel b l [] h = tt
Shorter-prepend fuel b l ((n, e) ∷ names) (h, hs) =
    (omega (arith, length-append l n), Shorter-prepend fuel b l names hs)

IsEntry-prepend :
    (l : List ℕ) (names : List Entry) → All IsEntry (prepend l names) → All IsEntry names
IsEntry-prepend l [] h = tt
IsEntry-prepend l ((n, e) ∷ names) ((h, k), hs) =
    (((All-first IsNameByte l n h).1, k), IsEntry-prepend l names hs)

-- The names of one group, and those of the rest; `stripped` is what an edge's label leaves.
lookup_either :
    (b : ℕ) (l name : List ℕ) (names rest : List Entry) (node : TrieNode) (edges : Children)
    → All (HeadAbove b) rest
    → ((n : List ℕ) → find node n ≡ lookup n names)
    → ((c : ℕ) (n : List ℕ) → find_below edges (c ∷ n) ≡ lookup (c ∷ n) rest)
    → (c : ℕ) (stripped : Option (List ℕ)) → strip_label (b ∷ l) (c ∷ name) ≡ stripped
    → find_below (child (b ∷ l) node edges) (c ∷ name)
      ≡ lookup (c ∷ name) (prepend (b ∷ l) names ++ rest)
lookup_either b l name names rest node edges aboves finds below c none e =
    find_below-passed (b ∷ l) (c ∷ name) node edges e
    ∙ (below c name
        ∙ sym (
            lookup-append (c ∷ name) (prepend (b ∷ l) names) rest
            ∙ rw (lookup-prepend-none (b ∷ l) (c ∷ name) names e) refl))
lookup_either b l name names rest node edges aboves finds below c (some s) e =
    let split = strip_label-some (b ∷ l) (c ∷ name) s e in
    let gone = lookup-HeadAbove b (l ++ s) rest aboves in
    let one = finds s ∙ sym (lookup-prepend (b ∷ l) s names) in
    let whole = lookup-append_none (b ∷ l ++ s) (prepend (b ∷ l) names) rest gone in
    ap (find_below (child (b ∷ l) node edges)) split
    ∙ (find_below-taken (b ∷ l) s node edges
        ∙ (one ∙ (sym whole ∙ ap (λ n. lookup n (prepend (b ∷ l) names ++ rest)) (sym split))))

fuel-pos :
    (fuel : ℕ) (first : Entry) (more : List Entry) (l : List ℕ) (names : List Entry)
    → first ∷ more ≡ prepend l names
    → All (Shorter fuel) names
    → 0 < fuel
fuel-pos fuel first more l [] same h = absurd cc
fuel-pos fuel first more l ((n, e) ∷ names) same (h, hs) = omega arith

label_bytes :
    (label name : List ℕ) (n : ℕ) → take n name ≡ label → All IsNameByte name → All IsNameByte label
label_bytes label name n e h = subst (All IsNameByte) e (All-take IsNameByte n name h)

head_byte : (b c : ℕ) (e : Entry) → HeadIs b e → HeadAbove c e → c < b
head_byte b c e (s, es) (x, t, et, lt) =
    let same : b ∷ s ≡ x ∷ t = sym es ∙ et in let head : b ≡ x = cc in omega arith

module _ (fuel : ℕ) (pre : List ℕ)
    (ih : (l : List ℕ) (names : List Entry)
      → IsSorted names
      → All (Shorter fuel) names
      → 0 < fuel
      → All IsEntry names
      → Builds names (build_trie fuel (prepend l names) (length l))) where
  build_child-Builds :
      (b : ℕ) (first : Entry) (more : List Entry)
      → IsSorted (first ∷ more)
      → All (HeadIs b) (first ∷ more)
      → All (Shorter (suc fuel)) (first ∷ more)
      → All IsEntry (first ∷ more)
      → (l : List ℕ) × (names : List Entry) × (node : TrieNode) × (build_child
            (build_trie fuel)
            (length pre)
            (prepend pre (first ∷ more))
          ≡ some (b ∷ l, node))
        × (first ∷ more ≡ prepend (b ∷ l) names)
        × ((name : List ℕ) → find node name ≡ lookup name names)
        × IsTrie node
        × All IsNameByte (b ∷ l)
  unfolding build_child
  build_child-Builds b first more sorted heads short entries =
      let (l, names, label, count, same) = group-label b first more sorted heads in
      let last = (last_of first more).0 in
      let first_part : drop (length pre) (pre ++ first.0) ≡ first.0 =
        drop_all (length pre) pre first.0 refl in
      let last_part : drop (length pre) (last_of (pre ++ first.0, first.1) (prepend pre more)).0
          ≡ last =
        ap (drop (length pre)) (last_of-prepend pre first more)
        ∙ drop_all (length pre) pre last refl in
      let depth : length pre + length (b ∷ l) ≡ length (pre ++ b ∷ l) =
        omega (arith, length-append pre (b ∷ l)) in
      let group : prepend pre (first ∷ more) ≡ prepend (pre ++ b ∷ l) names =
        ap (prepend pre) same ∙ prepend-prepend pre (b ∷ l) names in
      let below = subst (All IsEntry) same entries in
      let short' = Shorter-prepend fuel b l names (subst (All (Shorter (suc fuel))) same short) in
      let (node, made, finds, is_trie) =
        ih (pre ++ b ∷ l) names (IsSorted-prepend (b ∷ l) names (subst IsSorted same sorted)) short'
          (fuel-pos fuel first more (b ∷ l) names same short')
          (IsEntry-prepend (b ∷ l) names below) in
      (
        l,
        names,
        node,
        rw (first_part, last_part, label, count, depth, group, made) refl,
        same,
        finds,
        is_trie,
        label_bytes (b ∷ l) first.0 (common_len first.0 last) label entries.0.0,
      )

  split_groups-Builds :
      (names : List Entry) (groups : List (List Entry))
      → IsSorted names
      → All (Shorter (suc fuel)) names
      → All IsEntry names
      → GroupsOf names groups
      → BuildsBelow names (build_children (build_trie fuel) (length pre) (prepends pre groups))
  unfolding build_children prepends find lookup IsTrie Above
  split_groups-Builds names [] sorted short entries is_groups =
      rw is_groups (no_child, refl, (λ b name. refl), tt, (λ b h. tt))
  split_groups-Builds names (group ∷ groups) sorted short entries
        (b, first, more, rest, eg, en, heads, aboves, is_groups) =
      let whole : names ≡ (first ∷ more) ++ rest = en ∙ ap (λ g. g ++ rest) eg in
      let (sorted-group, sorted-rest) =
        IsSorted-append (first ∷ more) rest (subst IsSorted whole sorted) in
      let (short-group, short-rest) =
        All-first (Shorter (suc fuel)) (first ∷ more) rest
          (subst (All (Shorter (suc fuel))) whole short) in
      let (ok-group, ok-rest) =
        All-first IsEntry (first ∷ more) rest (subst (All IsEntry) whole entries) in
      let heads' = subst (All (HeadIs b)) eg heads in
      let (l, names', node, made, same, finds, is_trie, bytes) =
        build_child-Builds b first more sorted-group heads' short-group ok-group in
      let (edges, made', below, are, above) =
        split_groups-Builds rest groups sorted-rest short-rest ok-rest is_groups in
      let split : names ≡ prepend (b ∷ l) names' ++ rest = whole ∙ ap (λ g. g ++ rest) same in
      (
        child (b ∷ l) node edges,
        rw (eg, made, made') refl,
        (λ c name.
            lookup_either b l name names' rest node edges aboves finds below c
              (strip_label (b ∷ l) (c ∷ name)) refl
            ∙ ap (lookup (c ∷ name)) (sym split)),
        ((b, (l, refl), above b aboves), bytes, is_trie, are),
        (λ c h.
            let (above-group, above-rest) =
              All-first (HeadAbove c) (first ∷ more) rest (subst (All (HeadAbove c)) whole h) in
            (((b, head_byte b c first heads'.0 above-group.0, (l, refl)), above c above-rest))),
      )

  build_node-Builds :
      (export : Option Export) (names : List Entry)
      → IsTerminal export
      → IsSorted names
      → All IsBare names
      → All (Shorter (suc fuel)) names
      → All IsEntry names
      → (edges : Children) × (build_node (build_trie fuel) (length pre) export (prepend pre names)
          ≡ some (trie_node edges export 0 0))
        × ((b : ℕ) (name : List ℕ) → find_below edges (b ∷ name) ≡ lookup (b ∷ name) names)
        × IsTrie (trie_node edges export 0 0)
  unfolding build_node
  build_node-Builds export names terminal sorted bare short entries =
      let (groups, split, is_groups) =
        split_groups-GroupsOf (length names) pre names sorted bare (omega arith) in
      let (edges, made, below, are, above) =
        split_groups-Builds names groups sorted short entries is_groups in
      let len = length-prepend pre names in
      (edges, rw (len, split, made) refl, below, (unfold IsTrie in (terminal, are)))

-- Names after another one are not empty.
IsBare-after :
    (x : Entry) (names : List Entry)
    → All (λ (y : Entry). name_cmp x.0 y.0 ≡ Ordering.lt) names
    → All IsBare names
IsBare-after x [] h = tt
IsBare-after x (([], e) ∷ names) (h, hs) = absurd (name_cmp-nil x.0 h)
IsBare-after x ((y ∷ ys, e) ∷ names) (h, hs) = ((y, ys, refl), IsBare-after x names hs)

lookup_empty : (names : List Entry) → All IsBare names → lookup [] names ≡ none
unfolding lookup bytes_eq
lookup_empty [] h = refl
lookup_empty ((n, e) ∷ names) ((x, s, en), h) = rw en (lookup_empty names h)

find_by :
    (edges : Children) (export : Option Export) (names : List Entry)
    → export ≡ lookup [] names
    → ((b : ℕ) (name : List ℕ) → find_below edges (b ∷ name) ≡ lookup (b ∷ name) names)
    → (name : List ℕ) → find (trie_node edges export 0 0) name ≡ lookup name names
unfolding find
find_by edges export names here below [] = here
find_by edges export names here below (b ∷ name) = below b name

ends_here : (pre : List ℕ) → (length (pre ++ []) == length pre) ≡ true
ends_here pre = ground (arith, length-append {A = ℕ} pre [])

goes_below : (pre : List ℕ) (x : ℕ) (n : List ℕ) → (length (pre ++ x ∷ n) == length pre) ≡ false
goes_below pre x n = ground (arith, length-append pre (x ∷ n))

build_trie-Builds :
    (fuel : ℕ) (pre : List ℕ) (names : List Entry)
    → IsSorted names
    → All (Shorter fuel) names
    → 0 < fuel
    → All IsEntry names
    → Builds names (build_trie fuel (prepend pre names) (length pre))
unfolding build_trie lookup bytes_eq
build_trie-Builds zero pre names sorted short some_fuel entries = absurd (omega arith)
build_trie-Builds (suc fuel) pre [] sorted short some_fuel entries =
    let (edges, made, below, is_trie) =
      build_node-Builds fuel pre (build_trie-Builds fuel) none [] tt tt tt tt tt in
    (trie_node edges none 0 0, made, find_by edges none [] refl below, is_trie)
build_trie-Builds (suc fuel) pre (([], e) ∷ names) (lt, sorted) (s, short) some_fuel
      (entry, entries) =
    let bare = IsBare-after ([], e) names lt in
    let (edges, made, below, is_trie) =
      build_node-Builds fuel pre (build_trie-Builds fuel) (some e) names entry.1 sorted bare short
        entries in
    (
      trie_node edges (some e) 0 0,
      rw (ends_here pre, made) refl,
      find_by edges (some e) ((([], e) ∷ names)) refl (λ b name. below b name),
      is_trie,
    )
build_trie-Builds (suc fuel) pre ((x ∷ n, e) ∷ names) (lt, sorted) (s, short) some_fuel
      (entry, entries) =
    let whole = (x ∷ n, e) ∷ names in
    let bare = IsBare-after (x ∷ n, e) names lt in
    let (edges, made, below, is_trie) =
      build_node-Builds fuel pre (build_trie-Builds fuel) none whole tt (lt, sorted)
        ((x, n, refl), bare) (s, short) (entry, entries) in
    (
      trie_node edges none 0 0,
      rw (goes_below pre x n, made) refl,
      find_by edges none whole (sym (lookup_empty whole ((x, n, refl), bare))) below,
      is_trie,
    )

longest-Shorter : (names : List Entry) (k : ℕ) → longest names < k → All (Shorter k) names
unfolding longest
longest-Shorter [] k h = tt
longest-Shorter ((n, e) ∷ names) k h = (omega arith, longest-Shorter names k (omega arith))

prepend-nil : (names : List Entry) → prepend [] names ≡ names
prepend-nil [] = refl
prepend-nil ((n, e) ∷ names) = ap (λ l. (n, e) ∷ l) (prepend-nil names)

-- Of names that are in strictly increasing order, without zero bytes, with their exports, the trie
-- is made, with as many rounds as the longest name has bytes and one. Its walk finds for every
-- byte string just what the list has for it. Each edge's label is non-empty, and a node's labels
-- are in the order of their first bytes, which differ.
pub build_trie-find :
    (names : List Entry)
    → IsSorted names
    → All IsEntry names
    → (root : TrieNode) × (build_trie (suc (longest names)) names 0 ≡ some root)
      × ((name : List ℕ) → find root name ≡ lookup name names)
      × IsTrie root
build_trie-find names sorted entries =
    let (root, made, finds, is_trie) =
      build_trie-Builds (suc (longest names)) [] names sorted
        (longest-Shorter names (suc (longest names)) (omega arith)) (omega arith) entries in
    let plain = prepend-nil names in (root, rw plain at made, finds, is_trie)
