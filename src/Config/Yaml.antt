-- ===== src/Config/Yaml.antt =====
-- The node trees of gopkg.in/yaml.v3 that internal/configctl/secret.go edits, and its functions on
-- them that know no path. A node's kind is its constructor; a mapping holds its keys and values in
-- pairs, as the parser makes them.
use hustmirrors_waf_backend.Base.{
  ℕ, String, Bool, true, false, Option, none, some, str_eq, if◌then◌else◌, is_empty, ◌||◌,
}

-- yaml.Style: the zero value, DoubleQuotedStyle, or any other.
pub data Style : Type 0 where
  no_style double_quoted : Style
  other_style : ℕ → Style

-- What else a node holds. The target of an alias is a number, and `notes` is what the code copies and
-- never reads: the comments, the anchor and the position.
pub record Attrs : Type 0 where
  pub tag : String
  pub value : String
  pub style : Style
  pub alias : Option ℕ
  pub notes : String

mutual
  pub data Node : Type 0 where
    document : Attrs → Nodes → Node
    mapping : Attrs → Entries → Node
    sequence : Attrs → Nodes → Node
    scalar : Attrs → Node
    alias_node : Attrs → Node

  pub data Nodes : Type 0 where
    no_nodes : Nodes
    node : Node → Nodes → Nodes

  pub data Entries : Type 0 where
    no_entries : Entries
    pair : (key value : Node) → Entries → Entries

unfoldable pub attrs_of : Node → Attrs
attrs_of (document a ns) = a
attrs_of (mapping a es) = a
attrs_of (sequence a ns) = a
attrs_of (scalar a) = a
attrs_of (alias_node a) = a

-- `key.Value`.
abbrev pub key_of : Node → String
key_of n = (attrs_of n).value

-- setPlaceholder: the comments and the anchor stay.
unfoldable pub set_placeholder : Node → String → Node
unfolding attrs_of
set_placeholder n text =
    scalar (record (attrs_of n) { tag = "!!str"; value = text; style = no_style; alias = none })

unfoldable mutual
  pub deep_copy : Node → Node
  deep_copy (document a ns) = document (record a { alias = none }) (copy_nodes ns)
  deep_copy (mapping a es) = mapping (record a { alias = none }) (copy_entries es)
  deep_copy (sequence a ns) = sequence (record a { alias = none }) (copy_nodes ns)
  deep_copy (scalar a) = scalar (record a { alias = none })
  deep_copy (alias_node a) = alias_node (record a { alias = none })

  pub copy_nodes : Nodes → Nodes
  copy_nodes no_nodes = no_nodes
  copy_nodes (node n ns) = node (deep_copy n) (copy_nodes ns)

  pub copy_entries : Entries → Entries
  copy_entries no_entries = no_entries
  copy_entries (pair k v es) = pair (deep_copy k) (deep_copy v) (copy_entries es)

unfoldable pub doc_root : Node → Node
doc_root (document a (node n no_nodes)) = n
doc_root n = n

unfoldable pub is_sequence : Node → Bool
is_sequence (sequence a ns) = true
is_sequence n = false

unfoldable pub is_mapping : Node → Bool
is_mapping (mapping a es) = true
is_mapping n = false

abbrev pub blank : String → Style → Attrs
blank tag style = record { tag = tag; value = ""; style = style; alias = none; notes = "" }

-- emptyNode.
unfoldable pub empty_node : Node → Node
unfolding doc_root is_sequence
empty_node base =
    if is_sequence (doc_root base)
    then sequence (blank "!!seq" no_style) no_nodes
    else scalar (blank "!!str" double_quoted)

-- mappingEntries, looked up at a key: the last pair counts.
unfoldable pub entry_of : String → Entries → Option Node
unfolding attrs_of
entry_of k no_entries = none
entry_of k (pair key v es) = elim (entry_of k es) [
  | some w ↦ some w
  | none ↦ if str_eq (key_of key) k then some v else none
]

-- scalarText, past docRoot.
unfoldable pub text_of : Node → Option String
text_of (scalar a) = if str_eq a.tag "!!str" || is_empty a.tag then some a.value else none
text_of n = none

unfoldable pub scalar_text : Node → Option String
unfolding doc_root text_of
scalar_text n = text_of (doc_root n)

-- The pairs of a mapping past docRoot; nothing for another node.
unfoldable pub pairs_of : Node → Entries
pairs_of (mapping a es) = es
pairs_of n = no_entries

unfoldable pub with_pairs : Entries → Node → Node
with_pairs es (mapping a ds) = mapping a es
with_pairs es n = n

-- A change of docRoot, in place.
unfoldable pub change_root : (Node → Node) → Node → Node
change_root f (document a (node n no_nodes)) = document a (node (f n) no_nodes)
change_root f n = f n

-- A change of the node that entry_of finds, in place.
unfoldable pub set_entry : String → Node → Entries → Entries
unfolding entry_of attrs_of
set_entry k w no_entries = no_entries
set_entry k w (pair key v es) =
    let rest = set_entry k w es in
    elim (entry_of k es) [
      | some x ↦ pair key v rest
      | none ↦ if str_eq (key_of key) k then pair key w es else pair key v es
    ]
