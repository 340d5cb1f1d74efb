-- ===== src/Tests/Secrets.antt =====
-- The theorems on the secrets of a configuration, at a concrete document.
use hustmirrors_waf_backend.Base.{◌≡◌, refl, String, false, none, ok}
use hustmirrors_waf_backend.Config.Yaml.{
  Attrs, no_style, Node, Entries, document, mapping, scalar, no_nodes, node, no_entries, pair,
  pairs_of, doc_root,
}
use hustmirrors_waf_backend.Config.Secret.{redact_node, merge_secret_node}
use hustmirrors_waf_backend.Config.Secret.Redact.{
  Alike, same, documents, mappings, both_end, both_node, both_no_entries, secret, shown,
  redact_node-Alike,
}
use hustmirrors_waf_backend.Config.Secret.Merge.{merge_secret_node-redact_node}
use hustmirrors_waf_backend.Config.Secret.Kept.{IsKept}
use hustmirrors_waf_backend.Config.Secret.Below.{merge_secret_node-IsKept}
use hustmirrors_waf_backend.Fixtures.{platform}

abbrev plain : String → Attrs
plain value = record { tag = "!!str"; value = value; style = no_style; alias = none; notes = "" }

abbrev word : String → Node
word value = scalar (plain value)

-- pow: {public_salt: <salt>, algorithm: sha256}
abbrev pow_entries : String → Entries
pow_entries salt =
    pair (word "public_salt") (word salt) (pair (word "algorithm") (word "sha256") no_entries)

abbrev top_entries : String → Entries
top_entries salt = pair (word "pow") (mapping (plain "") (pow_entries salt)) no_entries

abbrev config : String → Node
config salt = document (plain "") (node (mapping (plain "") (top_entries salt)) no_nodes)

alike : Alike platform "" (config "abc") (config "xyz")
unfolding hustmirrors_waf_backend.Config.Secret.is_sensitive_path
    hustmirrors_waf_backend.Config.Secret.join_path hustmirrors_waf_backend.Config.Yaml.attrs_of
alike = documents "" (plain "") _ _ (
    both_node "" _ _ _ _
      (mappings "" (plain "") _ _ (
        shown "" (word "pow") _ _ _ _ refl
          (mappings "pow" (plain "") _ _ (
            secret "pow" (word "public_salt") (word "abc") (word "xyz") _ _ refl refl (
              shown "pow" (word "algorithm") _ _ _ _ refl (same "pow.algorithm" (word "sha256"))
                (both_no_entries "pow"))))
          (both_no_entries "")))
      (both_end ""))

redact_node-Alike_example :
    redact_node platform "" (config "abc") ≡ redact_node platform "" (config "xyz")
redact_node-Alike_example = redact_node-Alike platform alike

merge_secret_node-redact_node_example :
    merge_secret_node platform
      (λ a b. false)
      ""
      (redact_node platform "" (config "abc"))
      (config "abc")
    ≡ ok (config "abc")
unfolding hustmirrors_waf_backend.Config.Secret.Shape.are_editable
    hustmirrors_waf_backend.Config.Secret.Shape.is_copied
merge_secret_node-redact_node_example =
    merge_secret_node-redact_node platform (λ a b. false) (plain "") (plain "") (top_entries "abc")
      refl

merge_secret_node-IsKept_example : IsKept platform (λ a b. false) "" (config "abc") (config "abc")
unfolding merge_secret_node hustmirrors_waf_backend.Config.Secret.Entry.has_distinct_keys
merge_secret_node-IsKept_example =
    merge_secret_node-IsKept platform (λ a b. false) "" (config "abc") (config "${SECRET:KEEP}")
      (config "abc") refl refl
