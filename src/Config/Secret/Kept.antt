-- ===== src/Config/Secret/Kept.antt =====
-- What the two loops of internal/configctl/secret.go leave alone, and what it is to keep the secrets of every section.
use mathlib.Core.Path.{subst}
use hustmirrors_waf_backend.Base.{
  ◌≡◌, sym, ap, ◌∙◌, ◌⊎◌, inl, inr, String, Bool, true, false, not, ◌&&◌, Option, none, some,
  str_eq, eq_iff, if◌then◌else◌, Fallible, ok, err, ◌>>=◌, ◌>>◌, Bool-cases, >>=-eq-ok,
  require->>-eq-ok,
}
use hustmirrors_waf_backend.Platform.{Platform}
use hustmirrors_waf_backend.Config.Yaml.{
  Node, Entries, document, mapping, sequence, scalar, alias_node, no_nodes, node, no_entries, pair,
  key_of, attrs_of, doc_root, is_mapping, entry_of, set_entry, pairs_of,
}
use hustmirrors_waf_backend.Config.Secret.{
  MergeError, removed, join_path, is_sensitive_path, is_stray, stray_placeholder,
  reject_placeholders, resolve, check_plain, merge_shared, merge_candidate, merge_secret_node,
  merge_base,
}
use hustmirrors_waf_backend.Config.Secret.Merge.{pair_absent}
use hustmirrors_waf_backend.Config.Secret.Held.{Held}
use hustmirrors_waf_backend.Config.Secret.Entry.{entry_cong, entry_not, entry_of-set_other}

-- Of a value, if there is one.
abbrev pub IsAt : (Node → Type 0) → Option Node → Type 0
IsAt P none = Unit {0}
IsAt P (some w) = P w

pub >>_ok : {E : Type 0} (c : Fallible E (Unit {0})) (v v' : Node) → (c >> ok v) ≡ ok v' → v ≡ v'
>>_ok (err e) v v' h = cc
>>_ok (ok u) v v' h = cc

module _ (g : Platform) (equal_value : Node → Node → Bool) where
  -- Section by section of the base: a sensitive value of the result is the base's own value, the cleared form
  -- of that, or one that decodes to the same.
  unfoldable mutual
    unfolding join_path is_sensitive_path entry_of attrs_of pairs_of doc_root

    pub IsKept : String → Node → Node → Type 0
    IsKept p (mapping a bs) out =
        let es = pairs_of (doc_root out) in Held g equal_value p bs es × AreKept p bs es
    IsKept p (document a (node (mapping b bs) no_nodes)) out =
        let es = pairs_of (doc_root out) in Held g equal_value p bs es × AreKept p bs es
    IsKept p base out = Unit {0}

    pub AreKept : String → Entries → Entries → Type 0
    AreKept p no_entries es = Unit {0}
    AreKept p (pair k v bs) es =
        let path = join_path p (key_of k) in
        ((is_sensitive_path g path ≡ true) ⊎ IsAt (λ w. IsKept path v w) (entry_of (key_of k) es))
        × AreKept p bs es

  pub no_section : (path : String) (v w : Node) → is_mapping (doc_root v) ≡ false → IsKept path v w
  unfolding IsKept is_mapping doc_root
  no_section path (document a no_nodes) w h = tt
  no_section path (document a (node (document b ns) no_nodes)) w h = tt
  no_section path (document a (node (mapping b es) no_nodes)) w h = cc
  no_section path (document a (node (sequence b ns) no_nodes)) w h = tt
  no_section path (document a (node (scalar b) no_nodes)) w h = tt
  no_section path (document a (node (alias_node b) no_nodes)) w h = tt
  no_section path (document a (node (document b bs) (node m ns))) w h = tt
  no_section path (document a (node (mapping b bs) (node m ns))) w h = tt
  no_section path (document a (node (sequence b bs) (node m ns))) w h = tt
  no_section path (document a (node (scalar b) (node m ns))) w h = tt
  no_section path (document a (node (alias_node b) (node m ns))) w h = tt
  no_section path (mapping a es) w h = cc
  no_section path (sequence a ns) w h = tt
  no_section path (scalar a) w h = tt
  no_section path (alias_node a) w h = tt

  -- The second loop leaves the other values alone.
  pub check_plain-same :
      (path : String) (v v' : Node) (base : Option Node)
      → check_plain g equal_value path v base ≡ ok v'
      → v ≡ v'
  unfolding check_plain
  check_plain-same path v v' none h =
      let (_, h1) = require->>-eq-ok (not (is_stray v)) (stray_placeholder path) _ h in
      elim (Bool-cases (is_mapping (doc_root v))) [
        | inl t ↦ >>_ok (reject_placeholders g path v) v v' (rw t at h1)
        | inr f ↦ let same : ok v ≡ ok v' = rw f at h1 in cc
      ]
  check_plain-same path v v' (some b) h =
      let (_, h1) = require->>-eq-ok (not (is_stray v)) (stray_placeholder path) _ h in cc

  -- One pair of the second loop.
  pub candidate_pair :
      (p : String) (base es out : Entries) (k v : Node)
      → merge_candidate g equal_value p base (pair k v es) ≡ ok out
      → (v' : Node) × (es' : Entries) × (out ≡ pair k v' es')
        × (merge_candidate g equal_value p base es ≡ ok es')
        × ((is_sensitive_path g (join_path p (key_of k)) ≡ true) ⊎ (v ≡ v'))
  unfolding merge_candidate
  candidate_pair p base es out k v h =
      let path = join_path p (key_of k) in
      let found = entry_of (key_of k) base in
      let (v', a, h1) =
        >>=-eq-ok
          (if is_sensitive_path g path
            then resolve g equal_value path v found
            else check_plain g equal_value path v found)
          (λ w. merge_candidate g equal_value p base es >>= λ fs. ok (pair k w fs)) h in
      let (es', b, h2) =
        >>=-eq-ok (merge_candidate g equal_value p base es) (λ fs. ok (pair k v' fs)) h1 in
      (
        v',
        es',
        cc,
        b,
        elim (Bool-cases (is_sensitive_path g path)) [
          | inl s ↦ inl s
          | inr s ↦ inr (check_plain-same path v v' found (rw s at a))
        ],
      )

  pub plain_entry :
      (p key : String) (base es out : Entries)
      → is_sensitive_path g (join_path p key) ≡ false
      → merge_candidate g equal_value p base es ≡ ok out
      → entry_of key out ≡ entry_of key es
  unfolding merge_candidate
  plain_entry p key base no_entries out s h =
      let same : no_entries ≡ out = cc in ap (entry_of key) (sym same)
  plain_entry p key base (pair k v es) out s h =
      let (v', es', e, b, c) = candidate_pair p base es out k v h in
      let rest = plain_entry p key base es es' s b in
      ap (entry_of key) e
      ∙ entry_cong key k v' es' es rest
      ∙ elim (Bool-cases (str_eq (key_of k) key)) [
        | inr f ↦ entry_not key k v' es f ∙ sym (entry_not key k v es f)
        | inl t ↦ elim c [
          | inr same ↦ ap (λ x. entry_of key (pair k x es)) (sym same)
          | inl bad ↦
              let here : is_sensitive_path g (join_path p (key_of k)) ≡ false =
                subst (λ x. is_sensitive_path g (join_path p x) ≡ false)
                  (sym ((eq_iff (key_of k) key).0 t)) s in
              cc
        ]
      ]

  -- The first loop leaves the values of other keys alone.
  pub shared_entry :
      (path key j : String) (base : Node) (o : Option Node)
      (below : Node → Fallible MergeError Node) (es out : Entries)
      → str_eq key j ≡ false
      → merge_shared g path key base o below es ≡ ok out
      → entry_of j out ≡ entry_of j es
  unfolding merge_shared
  shared_entry path key j base none below es out f h =
      elim (Bool-cases (is_sensitive_path g path)) [
        | inl s ↦ let bad : err (removed path) ≡ ok out = rw s at h in cc
        | inr s ↦
            let same : ok es ≡ ok out = rw s at h in
            let last : es ≡ out = cc in ap (entry_of j) (sym last)
      ]
  shared_entry path key j base (some v) below es out f h =
      elim (Bool-cases (not (is_sensitive_path g path) && is_mapping (doc_root base))) [
        | inl s ↦
            let (v', a, b) = >>=-eq-ok (below v) (λ x. ok (set_entry key x es)) (rw s at h) in
            let same : set_entry key v' es ≡ out = cc in
            ap (entry_of j) (sym same) ∙ entry_of-set_other key j v' es f
        | inr s ↦
            let same : ok es ≡ ok out = rw s at h in
            let last : es ≡ out = cc in ap (entry_of j) (sym last)
      ]

  pub absent_entry :
      (p j : String) (bs es out : Entries)
      → entry_of j bs ≡ none
      → merge_base g equal_value p bs es ≡ ok out
      → entry_of j out ≡ entry_of j es
  unfolding merge_base
  absent_entry p j no_entries es out n h = let same : es ≡ out = cc in ap (entry_of j) (sym same)
  absent_entry p j (pair k v bs) es out n h =
      let (n', f) = pair_absent j k v bs n in
      let (es', a, b) =
        >>=-eq-ok
          (merge_shared g (join_path p (key_of k)) (key_of k) v (entry_of (key_of k) es)
            (λ w. merge_secret_node g equal_value (join_path p (key_of k)) w v) es)
          (λ fs. merge_base g equal_value p bs fs) h in
      absent_entry p j bs es' out n' b
      ∙ shared_entry (join_path p (key_of k)) (key_of k) j v (entry_of (key_of k) es) _ es es' f a
