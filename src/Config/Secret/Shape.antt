-- ===== src/Config/Secret/Shape.antt =====
-- The configurations that an edit can bring back, and the lemmas on their pairs.
use hustmirrors_waf_backend.Base.{
  ◌≡◌, refl, sym, ap, inl, inr, String, Bool, true, false, not, ◌&&◌, Option, none, some, eq_refl,
  if◌then◌else◌, Option-cases,
}
use hustmirrors_waf_backend.Platform.{Platform}
use hustmirrors_waf_backend.Config.Yaml.{
  Attrs, Node, Nodes, Entries, document, mapping, sequence, scalar, alias_node, no_nodes, node,
  no_entries, pair, key_of, attrs_of, deep_copy, copy_nodes, copy_entries, entry_of, set_entry,
}
use hustmirrors_waf_backend.Config.Secret.{
  join_path, is_sensitive_path, is_stray, redact_node, redact_nodes, redact_entries,
}

unfoldable pub is_absent : Option Node → Bool
is_absent none = true
is_absent (some n) = false

unfoldable pub has_target : Attrs → Bool
has_target a = elim a.alias [ none ↦ false | some t ↦ true ]

-- No alias in a tree: a deep copy is the tree itself.
unfoldable mutual
  unfolding has_target

  pub is_copied : Node → Bool
  is_copied (document a ns) = not (has_target a) && are_copied ns
  is_copied (mapping a es) = not (has_target a) && are_copied_pairs es
  is_copied (sequence a ns) = not (has_target a) && are_copied ns
  is_copied (scalar a) = not (has_target a)
  is_copied (alias_node a) = not (has_target a)

  pub are_copied : Nodes → Bool
  are_copied no_nodes = true
  are_copied (node n ns) = is_copied n && are_copied ns

  pub are_copied_pairs : Entries → Bool
  are_copied_pairs no_entries = true
  are_copied_pairs (pair k v es) = is_copied k && (is_copied v && are_copied_pairs es)

-- No sensitive path at all.
unfoldable mutual
  unfolding is_sensitive_path join_path attrs_of

  pub has_no_secret : Platform → String → Node → Bool
  has_no_secret g p (document a ns) = have_no_secret g p ns
  has_no_secret g p (mapping a es) = pairs_have_no_secret g p es
  has_no_secret g p (sequence a ns) = have_no_secret g p ns
  has_no_secret g p (scalar a) = true
  has_no_secret g p (alias_node a) = true

  pub have_no_secret : Platform → String → Nodes → Bool
  have_no_secret g p no_nodes = true
  have_no_secret g p (node n ns) = has_no_secret g p n && have_no_secret g p ns

  pub pairs_have_no_secret : Platform → String → Entries → Bool
  pairs_have_no_secret g p no_entries = true
  pairs_have_no_secret g p (pair k v es) =
      not (is_sensitive_path g (join_path p (key_of k)))
      && (has_no_secret g (join_path p (key_of k)) v && pairs_have_no_secret g p es)

-- A configuration as the loader accepts it: no key twice, no placeholder where it does not belong, and
-- sensitive values below mappings alone and without an alias.
unfoldable mutual
  unfolding is_sensitive_path join_path attrs_of entry_of is_absent is_stray

  pub is_editable : Platform → String → Node → Bool
  is_editable g p (document a ns) = false
  is_editable g p (mapping a es) = are_editable g p es
  is_editable g p (sequence a ns) = have_no_secret g p ns
  is_editable g p (scalar a) = true
  is_editable g p (alias_node a) = true

  pub are_editable : Platform → String → Entries → Bool
  are_editable g p no_entries = true
  are_editable g p (pair k v es) =
      let below = is_editable g (join_path p (key_of k)) v in
      is_absent (entry_of (key_of k) es)
      && ((if is_sensitive_path g (join_path p (key_of k))
            then is_copied v
            else not (is_stray v) && below)
          && are_editable g p es)

pub and_true : (a b : Bool) → (a && b) ≡ true → (a ≡ true) × (b ≡ true)
and_true true b h = (refl, h)
and_true false b h = cc

not-true : (a : Bool) → not a ≡ true → a ≡ false
not-true false h = refl
not-true true h = cc

-- A pair alone: what its value is, where its path is sensitive and where it is not.
abbrev pub IsGoodValue : Platform → String → Node → Type 0
IsGoodValue g path v =
    (if is_sensitive_path g path then is_copied v else not (is_stray v) && is_editable g path v)
    ≡ true

no_target : (a : Attrs) → not (has_target a) ≡ true → record a { alias = none } ≡ a
unfolding has_target
no_target a h = elim (Option-cases a.alias) [
  | inl e ↦ ap (λ x. record a { alias = x }) (sym e)
  | inr (t, e) ↦ let f : not true ≡ true = rw e at h in cc
]

mutual
  unfolding is_copied deep_copy

  pub copied_node : (n : Node) → is_copied n ≡ true → deep_copy n ≡ n
  copied_node (document a ns) h =
      let (t, r) = and_true _ _ h in rw (no_target a t, copied_nodes ns r) refl
  copied_node (mapping a es) h =
      let (t, r) = and_true _ _ h in rw (no_target a t, copied_pairs es r) refl
  copied_node (sequence a ns) h =
      let (t, r) = and_true _ _ h in rw (no_target a t, copied_nodes ns r) refl
  copied_node (scalar a) h = ap scalar (no_target a h)
  copied_node (alias_node a) h = ap alias_node (no_target a h)

  copied_nodes : (ns : Nodes) → are_copied ns ≡ true → copy_nodes ns ≡ ns
  copied_nodes no_nodes h = refl
  copied_nodes (node n ns) h =
      let (t, r) = and_true _ _ h in rw (copied_node n t, copied_nodes ns r) refl

  copied_pairs : (es : Entries) → are_copied_pairs es ≡ true → copy_entries es ≡ es
  copied_pairs no_entries h = refl
  copied_pairs (pair k v es) h =
      let (t, r) = and_true _ _ h in
      let (u, r') = and_true _ _ r in rw (copied_node k t, copied_node v u, copied_pairs es r') refl

module _ (g : Platform) where
  mutual
    unfolding has_no_secret redact_node

    pub unchanged_node :
        (p : String) (n : Node) → has_no_secret g p n ≡ true → redact_node g p n ≡ n
    unchanged_node p (document a ns) h = ap (document a) (unchanged_nodes p ns h)
    unchanged_node p (mapping a es) h = ap (mapping a) (unchanged_pairs p es h)
    unchanged_node p (sequence a ns) h = ap (sequence a) (unchanged_nodes p ns h)
    unchanged_node p (scalar a) h = refl
    unchanged_node p (alias_node a) h = refl

    pub unchanged_nodes :
        (p : String) (ns : Nodes) → have_no_secret g p ns ≡ true → redact_nodes g p ns ≡ ns
    unchanged_nodes p no_nodes h = refl
    unchanged_nodes p (node n ns) h =
        let (t, r) = and_true _ _ h in rw (unchanged_node p n t, unchanged_nodes p ns r) refl

    unchanged_pairs :
        (p : String) (es : Entries)
        → pairs_have_no_secret g p es ≡ true
        → redact_entries g p es ≡ es
    unchanged_pairs p no_entries h = refl
    unchanged_pairs p (pair k v es) h =
        let (s, r) = and_true _ _ h in
        let (t, u) = and_true _ _ r in
        let shown : is_sensitive_path g (join_path p (key_of k)) ≡ false = not-true _ s in
        rw (shown, unchanged_node (join_path p (key_of k)) v t, unchanged_pairs p es u) refl

-- Pairs before pairs.
unfoldable pub append : Entries → Entries → Entries
append no_entries es = es
append (pair k v ds) es = pair k v (append ds es)

pub append_snoc :
    (pre : Entries) (k v : Node) (es : Entries)
    → append (append pre (pair k v no_entries)) es ≡ append pre (pair k v es)
unfolding append
append_snoc no_entries k v es = refl
append_snoc (pair a b pre) k v es = ap (pair a b) (append_snoc pre k v es)

pub entry_of-append :
    (k : String) (v : Node) (pre es : Entries)
    → entry_of k es ≡ some v
    → entry_of k (append pre es) ≡ some v
unfolding append entry_of
entry_of-append k v no_entries es h = h
entry_of-append k v (pair a b pre) es h = rw (entry_of-append k v pre es h) refl

pub set_entry-append :
    (k : String) (v w : Node) (pre es : Entries)
    → entry_of k es ≡ some v
    → set_entry k w (append pre es) ≡ append pre (set_entry k w es)
unfolding append set_entry
set_entry-append k v w no_entries es h = refl
set_entry-append k v w (pair a b pre) es h =
    rw (entry_of-append k v pre es h, set_entry) (ap (pair a b) (set_entry-append k v w pre es h))

pub absent : (o : Option Node) → is_absent o ≡ true → o ≡ none
unfolding is_absent
absent none h = refl
absent (some v) h = cc

pub entry_of_first :
    (k v : Node) (es : Entries)
    → entry_of (key_of k) es ≡ none
    → entry_of (key_of k) (pair k v es) ≡ some v
unfolding entry_of
entry_of_first k v es h = rw (h, eq_refl (key_of k)) refl

pub set_entry_first :
    (k v w : Node) (es : Entries)
    → entry_of (key_of k) es ≡ none
    → set_entry (key_of k) w (pair k v es) ≡ pair k w es
unfolding set_entry
set_entry_first k v w es h = rw (h, eq_refl (key_of k), set_entry) refl

pub pair_editable :
    (g : Platform) (p : String) (k v : Node) (es : Entries)
    → are_editable g p (pair k v es) ≡ true
    → (entry_of (key_of k) es ≡ none)
      × IsGoodValue g (join_path p (key_of k)) v
      × (are_editable g p es ≡ true)
unfolding is_editable
pair_editable g p k v es h =
    let (a, h1) = and_true _ _ h in let (c, h2) = and_true _ _ h1 in (absent _ a, c, h2)

pub below_editable :
    (g : Platform) (path : String) (v : Node)
    → IsGoodValue g path v
    → is_sensitive_path g path ≡ false
    → is_editable g path v ≡ true
below_editable g path v h s =
    let (_, e) = and_true (not (is_stray v)) (is_editable g path v) (rw s at h) in e
