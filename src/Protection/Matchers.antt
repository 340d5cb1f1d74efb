-- ===== src/Protection/Matchers.antt =====
-- internal/matcher, but normalize.go. A matcher that may be nil is an Option.
use Prim.Native.String
use hustmirrors_waf_backend.Base.{
  String, Bool, true, false, not, ◌||◌, Option, none, some, List, [], ◌∷◌, ◌++◌, any, contains,
  if◌then◌else◌, is_empty, Fallible, ok, err,
}
use hustmirrors_waf_backend.Platform.{Platform, to_lower, trim_space, has_prefix, has_suffix}
use hustmirrors_waf_backend.Protection.Normalize.{normalize_path}

-- The types that implement the interface Matcher, but Composite. An ExtensionMatcher is known by its
-- slice exts, which has the elements of extSet; a compiled expression by its pattern.
pub data Matcher : Type 0 where
  noop always : Matcher
  extension : List String → Matcher
  regex : List String → Matcher
  union : Matcher → Matcher → Matcher

pub record Composite : Type 0 where
  pub protected : Option Matcher
  pub excluded : Option Matcher

unfoldable pub add_extension : List String → String → List String
add_extension exts e = if is_empty e || contains e exts then exts else exts ++ (e ∷ [])

module _ (g : Platform) where
  -- One extension of NewExtensionMatcher, in lower case and with its dot; empty where it is skipped.
  unfoldable pub clean_extension : String → String
  unfolding trim_space to_lower
  clean_extension e =
      let e' = trim_space (to_lower g e) in
      if is_empty e' || has_prefix e' "." then e' else String.◌++◌ "." e'

  unfoldable pub add_extensions : List String → List String → List String
  unfolding clean_extension add_extension
  add_extensions exts [] = exts
  add_extensions exts (e ∷ es) = add_extensions (add_extension exts (clean_extension e)) es

  unfoldable pub new_extension_matcher : List String → Matcher
  unfolding add_extensions
  new_extension_matcher es = extension (add_extensions [] es)

  unfoldable pub good_patterns : List String → List String
  good_patterns [] = []
  good_patterns (p ∷ ps) =
      let rest = good_patterns ps in
      if is_empty p || not (g.regexp_compiles p) then rest else p ∷ rest

  unfoldable pub bad_patterns : List String → List String
  bad_patterns [] = []
  bad_patterns (p ∷ ps) =
      let rest = bad_patterns ps in if is_empty p || g.regexp_compiles p then rest else p ∷ rest

  -- The error names the patterns that do not compile.
  unfoldable pub new_regex_matcher : List String → Fallible (List String) Matcher
  unfolding good_patterns bad_patterns
  new_regex_matcher ps = elim (bad_patterns ps) [
    | [] ↦ ok (regex (good_patterns ps))
    | b ∷ bs ↦ err (b ∷ bs)
  ]

  unfoldable pub matches : Matcher → String → Bool
  unfolding to_lower has_suffix
  matches noop path = false
  matches always path = true
  matches (extension exts) path =
      if is_empty path then false else any (λ e. has_suffix (to_lower g path) e) exts
  matches (regex ps) path = if is_empty path then false else any (λ p. g.regexp_match p path) ps
  matches (union a b) path = matches a path || matches b path

  unfoldable pub excludes : Option Matcher → String → Bool
  unfolding matches
  excludes none path = false
  excludes (some m) path = matches m path

  -- Composite.ShouldProtect; `unescape` is url.PathUnescape.
  unfoldable pub should_protect : (String → Option String) → Composite → String → Bool
  unfolding matches excludes normalize_path
  should_protect unescape c path = elim c.protected [
    | none ↦ false
    | some m ↦
        let p = normalize_path unescape path in
        if not (matches m p) then false else not (excludes c.excluded p)
  ]
