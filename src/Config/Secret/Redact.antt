-- ===== src/Config/Secret/Redact.antt =====
-- What redactNode of internal/configctl/secret.go shows.
use hustmirrors_waf_backend.Base.{◌≡◌, refl, ap, String, true, false}
use hustmirrors_waf_backend.Platform.{Platform}
use hustmirrors_waf_backend.Config.Yaml.{
  Attrs, Node, Nodes, Entries, document, mapping, sequence, no_nodes, node, no_entries, pair,
  key_of, attrs_of, set_placeholder,
}
use hustmirrors_waf_backend.Config.Secret.{
  join_path, is_sensitive_path, redact_node, redact_nodes, redact_entries, keep,
}

-- Two trees that differ at sensitive paths only; there, in all but the comments and the anchor.
mutual
  pub data Alike (g : Platform) : String → Node → Node → Type 0 where
    same : (p : String) (n : Node) → Alike g p n n
    documents :
        (p : String) (a : Attrs) (ns ms : Nodes)
        → AlikeNodes g p ns ms
        → Alike g p (document a ns) (document a ms)
    sequences :
        (p : String) (a : Attrs) (ns ms : Nodes)
        → AlikeNodes g p ns ms
        → Alike g p (sequence a ns) (sequence a ms)
    mappings :
        (p : String) (a : Attrs) (es fs : Entries)
        → AlikeEntries g p es fs
        → Alike g p (mapping a es) (mapping a fs)

  pub data AlikeNodes (g : Platform) : String → Nodes → Nodes → Type 0 where
    both_end : (p : String) → AlikeNodes g p no_nodes no_nodes
    both_node :
        (p : String) (n m : Node) (ns ms : Nodes)
        → Alike g p n m
        → AlikeNodes g p ns ms
        → AlikeNodes g p (node n ns) (node m ms)

  pub data AlikeEntries (g : Platform) : String → Entries → Entries → Type 0 where
    both_no_entries : (p : String) → AlikeEntries g p no_entries no_entries
    secret :
        (p : String) (k v w : Node) (es fs : Entries)
        → is_sensitive_path g (join_path p (key_of k)) ≡ true
        → (attrs_of v).notes ≡ (attrs_of w).notes
        → AlikeEntries g p es fs
        → AlikeEntries g p (pair k v es) (pair k w fs)
    shown :
        (p : String) (k v w : Node) (es fs : Entries)
        → is_sensitive_path g (join_path p (key_of k)) ≡ false
        → Alike g (join_path p (key_of k)) v w
        → AlikeEntries g p es fs
        → AlikeEntries g p (pair k v es) (pair k w fs)

set_placeholder-notes :
    (v w : Node) (text : String)
    → (attrs_of v).notes ≡ (attrs_of w).notes
    → set_placeholder v text ≡ set_placeholder w text
unfolding set_placeholder
set_placeholder-notes v w text e = rw e refl

module _ (g : Platform) where
  mutual
    unfolding redact_node

    redacted_node :
        {p : String} {n m : Node} → Alike g p n m → redact_node g p n ≡ redact_node g p m
    redacted_node (same p n) = refl
    redacted_node (documents p a ns ms r) = ap (document a) (redacted_nodes r)
    redacted_node (sequences p a ns ms r) = ap (sequence a) (redacted_nodes r)
    redacted_node (mappings p a es fs r) = ap (mapping a) (redacted_entries r)

    redacted_nodes :
        {p : String} {ns ms : Nodes}
        → AlikeNodes g p ns ms
        → redact_nodes g p ns ≡ redact_nodes g p ms
    redacted_nodes (both_end p) = refl
    redacted_nodes (both_node p n m ns ms r rs) = rw (redacted_node r, redacted_nodes rs) refl

    redacted_entries :
        {p : String} {es fs : Entries}
        → AlikeEntries g p es fs
        → redact_entries g p es ≡ redact_entries g p fs
    redacted_entries (both_no_entries p) = refl
    redacted_entries (secret p k v w es fs s e rs) =
        rw (s, set_placeholder-notes v w keep e, redacted_entries rs) refl
    redacted_entries (shown p k v w es fs s r rs) =
        rw (s, redacted_node r, redacted_entries rs) refl

  -- Redaction shows nothing of a sensitive value: two configurations that differ at sensitive paths
  -- only, and there in anything but comments and anchors, are shown alike.
  pub redact_node-Alike :
      {p : String} {n m : Node} → Alike g p n m → redact_node g p n ≡ redact_node g p m
  redact_node-Alike r = redacted_node r
