-- ===== src/Config/Secret.antt =====
-- internal/configctl/secret.go: the values of a configuration that are never shown, and how an edited
-- configuration gets them back. A function that changes a node in place gives the changed tree.
pub mod Redact
pub mod Shape
pub mod Merge
pub mod Held
pub mod Entry
pub mod Kept
pub mod Below
use Prim.Native.String
use hustmirrors_waf_backend.Base.{
  ℕ, String, Bool, true, false, not, ◌||◌, ◌&&◌, Option, none, some, str_eq, if◌then◌else◌,
  is_empty, Fallible, ok, err, ◌>>=◌, ◌>>◌, require, List, [], ◌∷◌, contains,
}
use hustmirrors_waf_backend.Platform.{Platform, to_lower, has_prefix}
use hustmirrors_waf_backend.Config.Yaml.{
  Attrs, Node, Nodes, Entries, document, mapping, sequence, scalar, alias_node, no_nodes, node,
  no_entries, pair, key_of, attrs_of, set_placeholder, deep_copy, doc_root, is_mapping, empty_node,
  entry_of, scalar_text, pairs_of, with_pairs, change_root, set_entry,
}

-- The errors of the merge, with the path that they name.
pub data MergeError : Type 0 where
  removed no_base_value placeholder_required stray_placeholder added : String → MergeError
  no_base bad_candidate bad_base bad_encoding : MergeError

abbrev pub sensitive_config_paths : List String
sensitive_config_paths =
    "pow.public_salt" ∷ "pow.allowed_previous_salts" ∷ "storage.postgres.dsn"
    ∷ "storage.redis.password" ∷ "logging.log_salt" ∷ []

abbrev pub keep : String
keep = "${SECRET:KEEP}"

abbrev pub clear : String
clear = "${SECRET:CLEAR}"

abbrev pub secret_mark : String
secret_mark = "${SECRET:"

unfoldable pub join_path : String → String → String
join_path prefix key = if is_empty prefix then key else String.◌++◌ prefix (String.◌++◌ "." key)

-- What scalarText gives: an empty text where there is none.
unfoldable pub text_or_empty : Option String → String
text_or_empty none = ""
text_or_empty (some text) = text

-- The test for a placeholder that is not allowed where it stands.
unfoldable pub is_stray : Node → Bool
unfolding scalar_text
is_stray n = elim (scalar_text n) [ none ↦ false | some text ↦ has_prefix text secret_mark ]

module _ (g : Platform) where
  unfoldable pub is_sensitive_path : String → Bool
  unfolding to_lower
  is_sensitive_path path = contains (to_lower g path) sensitive_config_paths

  -- redactNode.
  unfoldable mutual
    unfolding attrs_of join_path set_placeholder is_sensitive_path

    pub redact_node : String → Node → Node
    redact_node prefix (document a ns) = document a (redact_nodes prefix ns)
    redact_node prefix (mapping a es) = mapping a (redact_entries prefix es)
    redact_node prefix (sequence a ns) = sequence a (redact_nodes prefix ns)
    redact_node prefix (scalar a) = scalar a
    redact_node prefix (alias_node a) = alias_node a

    pub redact_nodes : String → Nodes → Nodes
    redact_nodes prefix no_nodes = no_nodes
    redact_nodes prefix (node n ns) = node (redact_node prefix n) (redact_nodes prefix ns)

    pub redact_entries : String → Entries → Entries
    redact_entries prefix no_entries = no_entries
    redact_entries prefix (pair k v es) =
        let path = join_path prefix (key_of k) in
        let below = redact_node path v in
        pair k (if is_sensitive_path path then set_placeholder v keep else below)
          (redact_entries prefix es)

  -- rejectSecretPlaceholderMap.
  unfoldable mutual
    unfolding attrs_of join_path is_sensitive_path is_stray

    pub reject_placeholders : String → Node → Fallible MergeError (Unit {0})
    reject_placeholders prefix (mapping a es) = reject_entries prefix es
    reject_placeholders prefix (document a (node (mapping b es) no_nodes)) =
        reject_entries prefix es
    reject_placeholders prefix n = ok tt

    pub reject_entries : String → Entries → Fallible MergeError (Unit {0})
    reject_entries prefix no_entries = ok tt
    reject_entries prefix (pair k v es) = do
      require (not (is_sensitive_path (join_path prefix (key_of k))))
          (added (join_path prefix (key_of k)))
      require (not (is_stray v)) (stray_placeholder (join_path prefix (key_of k)))
      reject_placeholders (join_path prefix (key_of k)) v
      reject_entries prefix es

  -- The first loop at one key: the candidate keeps a sensitive field, and a mapping of both is merged.
  unfoldable pub merge_shared :
      String
      → String
      → Node
      → Option Node
      → (Node → Fallible MergeError Node)
      → Entries
      → Fallible MergeError Entries
  unfolding is_sensitive_path doc_root is_mapping set_entry
  merge_shared path key base none below es =
      if is_sensitive_path path then err (removed path) else ok es
  merge_shared path key base (some v) below es =
      if not (is_sensitive_path path) && is_mapping (doc_root base)
      then (below v >>= λ v'. ok (set_entry key v' es))
      else ok es

  module _ (equal_value : Node → Node → Bool) where
    -- The sensitive value of the candidate, given that of the base. `equal_value` compares what the two
    -- nodes decode to.
    unfoldable pub resolve : String → Node → Option Node → Fallible MergeError Node
    unfolding scalar_text text_or_empty deep_copy empty_node
    resolve path v none = err (no_base_value path)
    resolve path v (some base) =
        let text = text_or_empty (scalar_text v) in
        if str_eq text keep
        then ok (deep_copy base)
        else if str_eq text clear
        then ok (empty_node base)
        else if equal_value v base
        then ok v
        else err (placeholder_required path)

    unfoldable pub check_plain : String → Node → Option Node → Fallible MergeError Node
    unfolding is_stray doc_root is_mapping reject_placeholders
    check_plain path v base = do
      require (not (is_stray v)) (stray_placeholder path)
      elim base as (λ b. Fallible MergeError Node) [
        | some b ↦ ok v
        | none ↦ if is_mapping (doc_root v) then reject_placeholders path v >> ok v else ok v
      ]

    -- The second loop.
    unfoldable pub merge_candidate : String → Entries → Entries → Fallible MergeError Entries
    unfolding attrs_of entry_of join_path is_sensitive_path resolve check_plain
    merge_candidate prefix base no_entries = ok no_entries
    merge_candidate prefix base (pair k v es) =
        let path = join_path prefix (key_of k) in
        let found = entry_of (key_of k) base in
        do
          v' ← if is_sensitive_path path then resolve path v found else check_plain path v found
          es' ← merge_candidate prefix base es
          ok (pair k v' es')

    -- mergeSecretNode.
    unfoldable mutual
      unfolding attrs_of entry_of join_path merge_shared merge_candidate doc_root pairs_of
          with_pairs change_root

      pub merge_secret_node : String → Node → Node → Fallible MergeError Node
      merge_secret_node prefix cand (mapping a bs) = do
        shared ← merge_base prefix bs (pairs_of (doc_root cand))
        merged ← merge_candidate prefix bs shared
        ok (change_root (with_pairs merged) cand)
      merge_secret_node prefix cand (document a (node (mapping b bs) no_nodes)) = do
        shared ← merge_base prefix bs (pairs_of (doc_root cand))
        merged ← merge_candidate prefix bs shared
        ok (change_root (with_pairs merged) cand)
      merge_secret_node prefix cand base = ok cand

      -- The first loop.
      pub merge_base : String → Entries → Entries → Fallible MergeError Entries
      merge_base prefix no_entries es = ok es
      merge_base prefix (pair k v bs) es = do
        es' ←
            merge_shared (join_path prefix (key_of k)) (key_of k) v (entry_of (key_of k) es)
              (λ w. merge_secret_node (join_path prefix (key_of k)) w v) es
        merge_base prefix bs es'
