-- ===== src/Config/Secret/Below.antt =====
-- The merge of internal/configctl/secret.go, in every section that the base configuration has.
use mathlib.Core.Path.{subst}
use hustmirrors_waf_backend.Base.{
  ◌≡◌, refl, sym, ◌⊎◌, inl, inr, String, Bool, true, Option, none, some, ok, ◌>>=◌, Bool-cases,
  >>=-eq-ok,
}
use hustmirrors_waf_backend.Platform.{Platform}
use hustmirrors_waf_backend.Config.Yaml.{
  Node, Entries, document, mapping, no_nodes, node, no_entries, pair, key_of, doc_root, is_mapping,
  entry_of, set_entry, pairs_of, with_pairs, change_root,
}
use hustmirrors_waf_backend.Config.Secret.{
  join_path, is_sensitive_path, merge_shared, merge_candidate, merge_secret_node, merge_base,
}
use hustmirrors_waf_backend.Config.Secret.Shape.{is_absent, absent, and_true}
use hustmirrors_waf_backend.Config.Secret.Held.{Held, merge_candidate-Held, root_pairs}
use hustmirrors_waf_backend.Config.Secret.Entry.{
  has_distinct_keys, are_distinct, entry_of-set_entry,
}
use hustmirrors_waf_backend.Config.Secret.Kept.{
  IsAt, IsKept, AreKept, no_section, plain_entry, absent_entry,
}

module _ (g : Platform) (equal_value : Node → Node → Bool) where
  -- What the first loop leaves at its key, if what the merge below it gives is kept.
  shared-IsKept :
      (path key : String) (v : Node) (o : Option Node) (es out : Entries)
      → ((x v' : Node)
          → merge_secret_node g equal_value path x v ≡ ok v'
          → IsKept g equal_value path v v')
      → entry_of key es ≡ o
      → merge_shared g path key v o (λ w. merge_secret_node g equal_value path w v) es ≡ ok out
      → (is_sensitive_path g path ≡ true)
        ⊎ IsAt (λ w. IsKept g equal_value path v w) (entry_of key out)
  unfolding merge_shared
  shared-IsKept path key v none es out ih n h = elim (Bool-cases (is_sensitive_path g path)) [
    | inl s ↦ inl s
    | inr s ↦
        let same : ok es ≡ ok out = rw s at h in
        let last : es ≡ out = cc in
        inr (
          subst (λ x. IsAt (λ w. IsKept g equal_value path v w) (entry_of key x)) last
            (subst (IsAt (λ w. IsKept g equal_value path v w)) (sym n) tt))
  ]
  shared-IsKept path key v (some x) es out ih n h = elim (Bool-cases (is_sensitive_path g path)) [
    | inl s ↦ inl s
    | inr s ↦ elim (Bool-cases (is_mapping (doc_root v))) [
      | inr f ↦
          let same : ok es ≡ ok out = rw (s, f) at h in
          let last : es ≡ out = cc in
          inr (
            subst (λ y. IsAt (λ w. IsKept g equal_value path v w) (entry_of key y)) last
              (subst (IsAt (λ w. IsKept g equal_value path v w)) (sym n)
                (no_section g equal_value path v x f)))
      | inl t ↦
          let (v', a, b) =
            >>=-eq-ok (merge_secret_node g equal_value path x v) (λ y. ok (set_entry key y es))
              (rw (s, t) at h) in
          let last : set_entry key v' es ≡ out = cc in
          inr (
            subst (λ y. IsAt (λ w. IsKept g equal_value path v w) (entry_of key y)) last
              (subst (IsAt (λ w. IsKept g equal_value path v w))
                (sym (entry_of-set_entry key v' x es n)) (ih x v' a)))
    ]
  ]

  -- The second loop keeps what the first has left below a mapping.
  candidate_kept :
      (p : String) (all bs es out : Entries)
      → merge_candidate g equal_value p all es ≡ ok out
      → AreKept g equal_value p bs es
      → AreKept g equal_value p bs out
  unfolding AreKept
  candidate_kept p all no_entries es out h kept = tt
  candidate_kept p all (pair k v bs) es out h (here, kept) =
      let path = join_path p (key_of k) in
      let rest = candidate_kept p all bs es out h kept in
      elim here [
        | inl s ↦ (inl s, rest)
        | inr at_key ↦ elim (Bool-cases (is_sensitive_path g path)) [
          | inl s ↦ (inl s, rest)
          | inr s ↦ (
            inr (
                subst (IsAt (λ w. IsKept g equal_value path v w))
                  (sym (plain_entry g equal_value p (key_of k) all es out s h)) at_key),
            rest,
          )
        ]
      ]

  none_kept : (p : String) (bs : Entries) → AreKept g equal_value p bs no_entries
  unfolding AreKept
  none_kept p no_entries = tt
  none_kept p (pair k v bs) = (inr tt, none_kept p bs)

  none-Held : (p : String) (bs : Entries) → Held g equal_value p bs no_entries
  none-Held p bs = tt

  -- The two loops on a mapping.
  mapping_kept :
      (p : String) (cand out : Node) (bs : Entries)
      → ((es fs : Entries)
          → merge_base g equal_value p bs es ≡ ok fs
          → AreKept g equal_value p bs fs)
      → ((merge_base g equal_value p bs (pairs_of (doc_root cand))) >>= λ es.
          merge_candidate g equal_value p bs es >>= λ fs. ok (change_root (with_pairs fs) cand))
        ≡ ok out
      → Held g equal_value p bs (pairs_of (doc_root out))
        × AreKept g equal_value p bs (pairs_of (doc_root out))
  mapping_kept p cand out bs ih h =
      let (shared, x, h1) =
        >>=-eq-ok (merge_base g equal_value p bs (pairs_of (doc_root cand)))
          (λ es.
            merge_candidate g equal_value p bs es >>= λ fs. ok (change_root (with_pairs fs) cand))
          h in
      let (merged, y, h2) =
        >>=-eq-ok (merge_candidate g equal_value p bs shared)
          (λ fs. ok (change_root (with_pairs fs) cand)) h1 in
      let e : change_root (with_pairs merged) cand ≡ out = cc in
      let kept = candidate_kept p bs bs shared merged y (ih (pairs_of (doc_root cand)) shared x) in
      subst
        (λ n.
          Held g equal_value p bs (pairs_of (doc_root n))
          × AreKept g equal_value p bs (pairs_of (doc_root n)))
        e
        (
          root_pairs g equal_value (Held g equal_value p bs) merged cand
              (merge_candidate-Held g equal_value p bs shared merged y) (none-Held p bs),
          root_pairs g equal_value (AreKept g equal_value p bs) merged cand kept (none_kept p bs),
        )

  mutual
    unfolding IsKept has_distinct_keys merge_secret_node

    node-IsKept :
        (p : String) (base cand out : Node)
        → has_distinct_keys base ≡ true
        → merge_secret_node g equal_value p cand base ≡ ok out
        → IsKept g equal_value p base out
    node-IsKept p (mapping a bs) cand out d h =
        mapping_kept p cand out bs (λ es fs q. pairs_kept p bs es fs d q) h
    node-IsKept p (document a (node (mapping b bs) no_nodes)) cand out d h =
        mapping_kept p cand out bs (λ es fs q. pairs_kept p bs es fs d q) h
    node-IsKept p base cand out d h = tt

    pairs_kept :
        (p : String) (bs es out : Entries)
        → are_distinct bs ≡ true
        → merge_base g equal_value p bs es ≡ ok out
        → AreKept g equal_value p bs out
    pairs_kept p no_entries es out d h = tt
    pairs_kept p (pair k v bs) es out d h =
        let path = join_path p (key_of k) in
        let (alone, d1) = and_true (is_absent (entry_of (key_of k) bs)) _ d in
        let (dv, ds) = and_true (has_distinct_keys v) (are_distinct bs) d1 in
        let (es', a, b) =
          >>=-eq-ok
            (merge_shared g path (key_of k) v (entry_of (key_of k) es)
              (λ w. merge_secret_node g equal_value path w v) es)
            (λ fs. merge_base g equal_value p bs fs) h in
        let unchanged = absent_entry g equal_value p (key_of k) bs es' out (absent _ alone) b in
        let here =
          shared-IsKept path (key_of k) v (entry_of (key_of k) es) es es'
            (λ x v' q. node-IsKept path v x v' dv q) refl a in
        (
          elim here [
            | inl s ↦ inl s
            | inr at_key ↦
                inr (subst (IsAt (λ w. IsKept g equal_value path v w)) (sym unchanged) at_key)
          ],
          pairs_kept p bs es' out ds b,
        )

  -- An edit cannot give a sensitive field another value: in every section that the base configuration has as a
  -- mapping and the result still has, at any depth, each sensitive value of the result is the base's own value, the
  -- cleared form of that, or one that decodes to the same. The base has no key twice in such a mapping.
  pub merge_secret_node-IsKept :
      (p : String) (base cand out : Node)
      → has_distinct_keys base ≡ true
      → merge_secret_node g equal_value p cand base ≡ ok out
      → IsKept g equal_value p base out
  merge_secret_node-IsKept p base cand out d h = node-IsKept p base cand out d h
