-- ===== src/Config/Secret/Held.antt =====
-- Which sensitive values the merge of internal/configctl/secret.go lets through.
use hustmirrors_waf_backend.Base.{
  ◌≡◌, ◌⊎◌, inl, inr, String, Bool, true, false, Option, none, some, str_eq, if◌then◌else◌, ok, err,
  ◌>>=◌, Bool-cases, >>=-eq-ok,
}
use mathlib.Core.Path.{subst}
use hustmirrors_waf_backend.Platform.{Platform}
use hustmirrors_waf_backend.Config.Yaml.{
  Node, Entries, document, mapping, sequence, scalar, alias_node, no_nodes, node, no_entries, pair,
  key_of, deep_copy, empty_node, doc_root, entry_of, pairs_of, with_pairs, change_root, scalar_text,
}
use hustmirrors_waf_backend.Config.Secret.{
  join_path, is_sensitive_path, text_or_empty, keep, clear, resolve, check_plain, merge_candidate,
  placeholder_required,
}

module _ (g : Platform) (equal_value : Node → Node → Bool) where
  -- A value that the base has, as it is or cleared, or one that decodes to the same.
  abbrev pub IsFrom : Node → Option Node → Type 0
  IsFrom v none = ⊥
  IsFrom v (some b) = (v ≡ deep_copy b) ⊎ ((v ≡ empty_node b) ⊎ (equal_value v b ≡ true))

  -- Every sensitive value of a mapping is from the base.
  abbrev pub Held : String → Entries → Entries → Type 0
  Held p base no_entries = Unit {0}
  Held p base (pair k v es) =
      ((is_sensitive_path g (join_path p (key_of k)) ≡ false) ⊎ IsFrom v (entry_of (key_of k) base))
      × Held p base es

  resolve-IsFrom :
      (path : String) (v v' : Node) (base : Option Node)
      → resolve g equal_value path v base ≡ ok v'
      → IsFrom v' base
  unfolding resolve
  resolve-IsFrom path v v' none h = cc
  resolve-IsFrom path v v' (some b) h =
      let text = text_or_empty (scalar_text v) in
      elim (Bool-cases (str_eq text keep)) [
        | inl k ↦ let e : ok (deep_copy b) ≡ ok v' = rw k at h in inl cc
        | inr k ↦ elim (Bool-cases (str_eq text clear)) [
          | inl c ↦ let e : ok (empty_node b) ≡ ok v' = rw (k, c) at h in inr (inl cc)
          | inr c ↦ elim (Bool-cases (equal_value v b)) [
            | inl q ↦
                let e : ok v ≡ ok v' = rw (k, c, q) at h in
                let same : v ≡ v' = cc in inr (inr (subst (λ x. equal_value x b ≡ true) same q))
            | inr q ↦ let e : err (placeholder_required path) ≡ ok v' = rw (k, c, q) at h in cc
          ]
        ]
      ]

  pub merge_candidate-Held :
      (p : String) (base es out : Entries)
      → merge_candidate g equal_value p base es ≡ ok out
      → Held p base out
  unfolding merge_candidate
  merge_candidate-Held p base no_entries out h =
      let e : no_entries ≡ out = cc in subst (Held p base) e tt
  merge_candidate-Held p base (pair k v es) out h =
      let path = join_path p (key_of k) in
      let (v', a, h1) =
        >>=-eq-ok
          (if is_sensitive_path g path
            then resolve g equal_value path v (entry_of (key_of k) base)
            else check_plain g equal_value path v (entry_of (key_of k) base))
          (λ w. merge_candidate g equal_value p base es >>= λ fs. ok (pair k w fs)) h in
      let (es', b, h2) =
        >>=-eq-ok (merge_candidate g equal_value p base es) (λ fs. ok (pair k v' fs)) h1 in
      let e : pair k v' es' ≡ out = cc in
      subst (Held p base) e (
        elim (Bool-cases (is_sensitive_path g path)) [
          | inl s ↦ inr (resolve-IsFrom path v v' (entry_of (key_of k) base) (rw s at a))
          | inr s ↦ inl s
        ],
        merge_candidate-Held p base es es' b,
      )

  -- What holds of some pairs and of none holds of the pairs that are put into a node.
  pairs_of-with_pairs :
      (P : Entries → Type 0) (es : Entries) (n : Node)
      → P es
      → P no_entries
      → P (pairs_of (with_pairs es n))
  unfolding pairs_of with_pairs
  pairs_of-with_pairs P es (mapping a ds) h z = h
  pairs_of-with_pairs P es (document a ns) h z = z
  pairs_of-with_pairs P es (sequence a ns) h z = z
  pairs_of-with_pairs P es (scalar a) h z = z
  pairs_of-with_pairs P es (alias_node a) h z = z

  pub root_pairs :
      (P : Entries → Type 0) (es : Entries) (n : Node)
      → P es
      → P no_entries
      → P (pairs_of (doc_root (change_root (with_pairs es) n)))
  unfolding pairs_of with_pairs change_root doc_root
  root_pairs P es (mapping a ds) h z = h
  root_pairs P es (document a no_nodes) h z = z
  root_pairs P es (document a (node n no_nodes)) h z = pairs_of-with_pairs P es n h z
  root_pairs P es (document a (node n (node m ns))) h z = z
  root_pairs P es (sequence a ns) h z = z
  root_pairs P es (scalar a) h z = z
  root_pairs P es (alias_node a) h z = z
