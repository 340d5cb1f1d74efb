-- ===== src/Config/Secret/Merge.antt =====
-- The merge of internal/configctl/secret.go, applied to what the redaction shows.
use hustmirrors_waf_backend.Base.{
  ◌≡◌, refl, sym, ap, ◌∙◌, ◌⊎◌, inl, inr, String, Bool, true, false, not, ◌&&◌, none, some, str_eq,
  if◌then◌else◌, Fallible, ok, ◌>>=◌, Bool-cases, Option-cases,
}
use mathlib.Core.Path.{subst}
use hustmirrors_waf_backend.Platform.{Platform}
use hustmirrors_waf_backend.Config.Yaml.{
  Attrs, Node, Entries, document, mapping, sequence, scalar, alias_node, no_nodes, node, no_entries,
  pair, key_of, set_placeholder, doc_root, is_mapping, entry_of, pairs_of, with_pairs, change_root,
}
use hustmirrors_waf_backend.Config.Secret.{
  MergeError, join_path, is_sensitive_path, is_stray, redact_node, redact_entries, keep,
  merge_shared, resolve, check_plain, merge_candidate, merge_secret_node, merge_base,
}
use hustmirrors_waf_backend.Config.Secret.Shape.{
  is_copied, is_editable, are_editable, and_true, copied_node, unchanged_nodes, append, append_snoc,
  entry_of-append, set_entry-append, entry_of_first, set_entry_first, pair_editable, below_editable,
}

-- A mapping after the first loop: everything is back but the sensitive values.
unfoldable half : Platform → String → Entries → Entries
half g p no_entries = no_entries
half g p (pair k v es) =
    pair k (if is_sensitive_path g (join_path p (key_of k)) then set_placeholder v keep else v)
      (half g p es)

pub pair_absent :
    (k : String) (a b : Node) (ds : Entries)
    → entry_of k (pair a b ds) ≡ none
    → (entry_of k ds ≡ none) × (str_eq (key_of a) k ≡ false)
unfolding entry_of
pair_absent k a b ds h = elim (Option-cases (entry_of k ds)) [
  | inr (w, e) ↦ let f : some w ≡ none = rw e at h in cc
  | inl e ↦ elim (Bool-cases (str_eq (key_of a) k)) [
    | inl t ↦ let f : some b ≡ none = rw (e, t) at h in cc
    | inr f ↦ (e, f)
  ]
]

module _ (g : Platform) where
  absent_redacted :
      (p k : String) (es : Entries)
      → entry_of k es ≡ none
      → entry_of k (redact_entries g p es) ≡ none
  unfolding redact_entries entry_of
  absent_redacted p k no_entries h = refl
  absent_redacted p k (pair a b ds) h =
      let (e, f) = pair_absent k a b ds h in rw (absent_redacted p k ds e, f) refl

  module _ (equal_value : Node → Node → Bool) where
    candidate_step :
        (path : String) (v : Node) (b below : Bool)
        → (if b then is_copied v else not (is_stray v) && below) ≡ true
        → (if b
            then resolve g equal_value path (if b then set_placeholder v keep else v) (some v)
            else check_plain g equal_value path (if b then set_placeholder v keep else v) (some v))
          ≡ ok v
    unfolding resolve check_plain set_placeholder
    candidate_step path v true below h = ap ok (copied_node v h)
    candidate_step path v false below h =
        let (s, _) = and_true (not (is_stray v)) below h in rw s refl

    candidate_back :
        (p : String) (r pre : Entries)
        → are_editable g p r ≡ true
        → merge_candidate g equal_value p (append pre r) (half g p r) ≡ ok r
    unfolding merge_candidate half are_editable
    candidate_back p no_entries pre h = refl
    candidate_back p (pair k v es) pre h =
        let (a, c, h2) = pair_editable g p k v es h in
        let found = entry_of-append (key_of k) v pre (pair k v es) (entry_of_first k v es a) in
        let rest = candidate_back p es (append pre (pair k v no_entries)) h2 in
        let rest' =
          subst (λ x. merge_candidate g equal_value p x (half g p es) ≡ ok es)
            (append_snoc pre k v es) rest in
        rw (found, candidate_step (join_path p (key_of k)) v _ _ c, rest') refl

    -- What the first loop does at a key, of a sensitive value and of another.
    shared_secret :
        (path : String) (k v w : Node) (below : Node → Fallible MergeError Node) (es : Entries)
        → is_sensitive_path g path ≡ true
        → merge_shared g path (key_of k) v (some w) below es ≡ ok es
    unfolding merge_shared
    shared_secret path k v w below es s = rw s refl

    shared_plain :
        (path : String) (k v : Node) (below : Node → Fallible MergeError Node) (pre es : Entries)
        → is_sensitive_path g path ≡ false
        → entry_of (key_of k) es ≡ none
        → ((redact_node g path v ≡ v) × (is_mapping (doc_root v) ≡ false))
          ⊎ ((below (redact_node g path v) ≡ ok v) × (is_mapping (doc_root v) ≡ true))
        → merge_shared g path
            (key_of k)
            v
            (some (redact_node g path v))
            below
            (append pre (pair k (redact_node g path v) es))
          ≡ ok (append pre (pair k v es))
    unfolding merge_shared
    shared_plain path k v below pre es s a (inl (c, d)) = rw (s, d, c) refl
    shared_plain path k v below pre es s a (inr (c, d)) =
        let w = redact_node g path v in
        let put =
          set_entry-append (key_of k) w v pre (pair k w es) (entry_of_first k w es a)
          ∙ ap (append pre) (set_entry_first k w v es a) in
        rw (s, d, c, put) refl

    -- One round of the first loop.
    base_step :
        (p : String) (k v w u : Node) (bs rs hs pre : Entries)
        → entry_of (key_of k) rs ≡ none
        → merge_shared g
            (join_path p (key_of k))
            (key_of k)
            v
            (some w)
            (λ x. merge_secret_node g equal_value (join_path p (key_of k)) x v)
            (append pre (pair k w rs))
          ≡ ok (append pre (pair k u rs))
        → merge_base g equal_value p bs (append (append pre (pair k u no_entries)) rs)
          ≡ ok (append (append pre (pair k u no_entries)) hs)
        → merge_base g equal_value p (pair k v bs) (append pre (pair k w rs))
          ≡ ok (append pre (pair k u hs))
    unfolding merge_base
    base_step p k v w u bs rs hs pre a shared rest =
        let found = entry_of-append (key_of k) w pre (pair k w rs) (entry_of_first k w rs a) in
        rw (found, shared, sym (append_snoc pre k u rs), rest, append_snoc pre k u hs) refl

    merge_base_end : (p : String) (es : Entries) → merge_base g equal_value p no_entries es ≡ ok es
    unfolding merge_base
    merge_base_end p es = refl

    mapping_merged :
        (p : String) (a b : Attrs) (bs es fs hs : Entries)
        → merge_base g equal_value p bs es ≡ ok fs
        → merge_candidate g equal_value p bs fs ≡ ok hs
        → merge_secret_node g equal_value p (mapping a es) (mapping b bs) ≡ ok (mapping a hs)
    unfolding merge_secret_node doc_root pairs_of with_pairs change_root
    mapping_merged p a b bs es fs hs h k =
        ap
          (λ r. r >>= λ shared.
            merge_candidate g equal_value p bs shared >>= λ merged. ok (mapping a merged))
          h
        ∙ ap (λ r. r >>= λ merged. ok (mapping a merged)) k

    mutual
      unfolding redact_node is_editable half append is_mapping doc_root

      base_back :
          (p : String) (r pre : Entries)
          → are_editable g p r ≡ true
          → merge_base g equal_value p r (append pre (redact_entries g p r))
            ≡ ok (append pre (half g p r))
      base_back p no_entries pre h = merge_base_end p (append pre no_entries)
      base_back p (pair k v es) pre h =
          let (a, c, h2) = pair_editable g p k v es h in
          let gone = absent_redacted p (key_of k) es a in
          let path = join_path p (key_of k) in
          elim (Bool-cases (is_sensitive_path g path)) [
            | inl s ↦
                let w = set_placeholder v keep in
                rw s (
                  base_step p k v w w es (redact_entries g p es) (half g p es) pre gone
                    (shared_secret path k v w _ _ s)
                    (base_back p es (append pre (pair k w no_entries)) h2))
            | inr s ↦
                let e = below_editable g path v c s in
                rw s (
                  base_step p k v (redact_node g path v) v es (redact_entries g p es) (half g p es)
                    pre gone
                    (shared_plain path k v _ pre (redact_entries g p es) s gone
                      (value_back path v e))
                    (base_back p es (append pre (pair k v no_entries)) h2))
          ]

      value_back :
          (path : String) (v : Node)
          → is_editable g path v ≡ true
          → ((redact_node g path v ≡ v) × (is_mapping (doc_root v) ≡ false))
            ⊎ ((merge_secret_node g equal_value path (redact_node g path v) v ≡ ok v)
                × (is_mapping (doc_root v) ≡ true))
      value_back path (document a ns) h = cc
      value_back path (mapping a es) h = inr (
        mapping_merged path a a es _ (half g path es) es (base_back path es no_entries h)
            (candidate_back path es no_entries h),
        refl,
      )
      value_back path (sequence a ns) h = inl (ap (sequence a) (unchanged_nodes g path ns h), refl)
      value_back path (scalar a) h = inl (refl, refl)
      value_back path (alias_node a) h = inl (refl, refl)

    -- An edit that changes nothing gives the configuration back, secrets included: the merge of what
    -- redaction shows of a mapping with that mapping is the mapping. The document has no key twice in a
    -- mapping, no placeholder of its own, no sensitive path below a sequence, and no alias in a
    -- sensitive value.
    pub merge_secret_node-redact_node :
        (a b : Attrs) (es : Entries)
        → are_editable g "" es ≡ true
        → merge_secret_node g equal_value ""
            (redact_node g "" (document a (node (mapping b es) no_nodes)))
            (document a (node (mapping b es) no_nodes))
          ≡ ok (document a (node (mapping b es) no_nodes))
    unfolding merge_secret_node redact_node doc_root pairs_of with_pairs change_root append
    merge_secret_node-redact_node a b es h =
        ap
          (λ r. r >>= λ shared. merge_candidate g equal_value "" es shared >>= λ merged.
            ok (document a (node (mapping b merged) no_nodes)))
          (base_back "" es no_entries h)
        ∙ ap (λ r. r >>= λ merged. ok (document a (node (mapping b merged) no_nodes)))
            (candidate_back "" es no_entries h)
