-- ===== src/Chunks/ExportTrie/Lookup.antt =====
-- A symbol's lookup by its name, in a list of exports and in a trie, for
-- macho/chunks/export_trie.rs.
use mold_macho.Chunks.ExportTrie.{TrieNode, trie_node, child, Export, Entry, Children, no_child}
use mold_macho.Chunks.ExportTrie.Order.{prepend, HeadAbove}
use mold_macho.Prelude.{
  sym, ℕ, none, ◌≡◌, ◌==◌, ◌∙◌, List, ◌++◌, Bool-cases, refl, Option, if◌then◌else◌, inl, inr, some,
  arith, ◌∷◌, ap, [], ap₂,
}
use mold_macho.Prelude.Bytes.{bytes_eq_iff, bytes_eq, All}
use mold_macho.Prelude.Fallible.{some_inj}

unfoldable pub lookup : List ℕ → List Entry → Option Export
unfolding bytes_eq
lookup name [] = none
lookup name ((n, e) ∷ entries) = if bytes_eq n name then some e else lookup name entries

-- What follows an edge's label in a name.
unfoldable pub strip_label : List ℕ → List ℕ → Option (List ℕ)
strip_label [] name = some name
strip_label (x ∷ label) [] = none
strip_label (x ∷ label) (y ∷ name) =
    let more = strip_label label name in if x == y then more else none

-- The walk from a node down the first edge whose label the name starts with.
unfoldable mutual
  pub find : TrieNode → List ℕ → Option Export
  find (trie_node edges export i s) [] = export
  find (trie_node edges export i s) (b ∷ name) = find_below edges (b ∷ name)

  pub find_below : Children → List ℕ → Option Export
  find_below no_child name = none
  find_below (child label node edges) name = elim (strip_label label name) [
    | some rest ↦ find node rest
    | none ↦ find_below edges name
  ]

pub strip_label-some :
    (label name rest : List ℕ) → strip_label label name ≡ some rest → name ≡ label ++ rest
unfolding strip_label
strip_label-some [] name rest h = some_inj h
strip_label-some (x ∷ label) [] rest h = absurd cc
strip_label-some (x ∷ label) (y ∷ name) rest h = elim (Bool-cases (x == y)) [
  | inl e ↦
      let h' : strip_label label name ≡ some rest = rw e at h in
      let same : y ≡ x = ground arith in ap₂ ◌∷◌ same (strip_label-some label name rest h')
  | inr ne ↦ let h' : none ≡ some rest = rw ne at h in absurd cc
]

pub strip_label-append : (label rest : List ℕ) → strip_label label (label ++ rest) ≡ some rest
unfolding strip_label
strip_label-append [] rest = refl
strip_label-append (x ∷ label) rest = ground (arith, strip_label-append label rest)

bytes_eq-append : (l xs ys : List ℕ) → bytes_eq (l ++ xs) (l ++ ys) ≡ bytes_eq xs ys
unfolding bytes_eq
bytes_eq-append [] xs ys = refl
bytes_eq-append (x ∷ l) xs ys = ground (arith, bytes_eq-append l xs ys)

-- The names that start with a label, below its edge.
pub lookup-prepend :
    (l rest : List ℕ) (names : List Entry)
    → lookup (l ++ rest) (prepend l names) ≡ lookup rest names
unfolding lookup
lookup-prepend l rest [] = refl
lookup-prepend l rest ((n, e) ∷ names) =
    rw (bytes_eq-append l n rest, lookup-prepend l rest names) refl

pub lookup-prepend-none :
    (l name : List ℕ) (names : List Entry)
    → strip_label l name ≡ none
    → lookup name (prepend l names) ≡ none
unfolding lookup
lookup-prepend-none l name [] h = refl
lookup-prepend-none l name ((n, e) ∷ names) h = elim (Bool-cases (bytes_eq (l ++ n) name)) [
  | inl eq ↦
      let same : l ++ n ≡ name = (bytes_eq_iff (l ++ n) name).0 eq in
      let found : strip_label l name ≡ some n =
        ap (strip_label l) (sym same) ∙ strip_label-append l n in
      absurd cc
  | inr ne ↦ rw (ne, lookup-prepend-none l name names h) refl
]

-- A name is not among names with greater first bytes.
pub lookup-HeadAbove :
    (b : ℕ) (name : List ℕ) (names : List Entry)
    → All (HeadAbove b) names
    → lookup (b ∷ name) names ≡ none
unfolding lookup bytes_eq
lookup-HeadAbove b name [] h = refl
lookup-HeadAbove b name ((n, e) ∷ names) ((x, s, en, lt), h) =
    rw en (ground (arith, lookup-HeadAbove b name names h))

pub lookup-append :
    (name : List ℕ) (xs ys : List Entry)
    → lookup name (xs ++ ys) ≡ elim (lookup name xs) [ none ↦ lookup name ys | some e ↦ some e ]
unfolding lookup
lookup-append name [] ys = refl
lookup-append name ((n, e) ∷ xs) ys = elim (Bool-cases (bytes_eq n name)) [
  | inl eq ↦ rw eq refl
  | inr ne ↦ rw ne (lookup-append name xs ys)
]

pub find_below_by :
    (label : List ℕ) (node : TrieNode) (edges : Children) (name : List ℕ)
    (stripped : Option (List ℕ))
    → strip_label label name ≡ stripped
    → find_below (child label node edges) name
      ≡ elim stripped [ some rest ↦ find node rest | none ↦ find_below edges name ]
unfolding find
find_below_by label node edges name stripped e =
    ap
      (λ (o : Option (List ℕ)). elim o as (λ q. Option Export) [
        | some rest ↦ find node rest
        | none ↦ find_below edges name
      ])
      e

-- The walk takes an edge whose label the name starts with, and passes the others by.
pub find_below-taken :
    (label rest : List ℕ) (node : TrieNode) (edges : Children)
    → find_below (child label node edges) (label ++ rest) ≡ find node rest
find_below-taken label rest node edges =
    find_below_by label node edges (label ++ rest) (some rest) (strip_label-append label rest)

pub find_below-passed :
    (label name : List ℕ) (node : TrieNode) (edges : Children)
    → strip_label label name ≡ none
    → find_below (child label node edges) name ≡ find_below edges name
find_below-passed label name node edges e = find_below_by label node edges name none e

pub lookup-append_none :
    (name : List ℕ) (xs ys : List Entry)
    → lookup name ys ≡ none
    → lookup name (xs ++ ys) ≡ lookup name xs
unfolding lookup
lookup-append_none name [] ys h = h
lookup-append_none name ((n, e) ∷ xs) ys h = rw (lookup-append_none name xs ys h) refl
