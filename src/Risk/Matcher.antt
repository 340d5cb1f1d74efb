-- ===== src/Risk/Matcher.antt =====
-- internal/risk/matcher.go: when a compiled matcher accepts a request.
use Prim.Native.Char.{code}
use hustmirrors_waf_backend.Base.{
  String, Bool, true, false, not, ◌&&◌, Option, none, some, List, ◌==◌, str_eq, if◌then◌else◌, any,
  contains, is_empty, all_chars,
}
use hustmirrors_waf_backend.Base.Int.{ℤ, ltb_ℤ, leb_ℤ, eq_ℤ}
use hustmirrors_waf_backend.Platform.{Platform, Addr, to_upper, to_lower, has_prefix, bool_eq}
use hustmirrors_waf_backend.Risk.Types.{
  RequestContext, CounterResolver, CounterMatch, Matcher, Matchers, match_all, path_regex,
  path_prefix, extension, method, ip_cidr, ua_regex, pow_status, pow_status_in, pow_mode,
  bool_matcher, counter, and_matcher, nil, cons,
}

-- path.Ext: from the last dot of the last segment on, empty if there is none.
unfoldable pub path_ext : String → String
path_ext String.[] = ""
path_ext (String.◌∷◌ c s) = elim (path_ext s) [
  | String.[] ↦ if code c == b'.' && all_chars (λ d. not (d == b'/')) s then String.◌∷◌ c s else ""
  | String.◌∷◌ d r ↦ String.◌∷◌ d r
]

unfoldable pub compare_counter : ℤ → String → ℤ → Bool
compare_counter v op target =
    if str_eq op ">="
    then leb_ℤ target v
    else if str_eq op ">"
    then ltb_ℤ target v
    else if str_eq op "=="
    then eq_ℤ v target
    else if str_eq op "!="
    then not (eq_ℤ v target)
    else if str_eq op "<="
    then leb_ℤ v target
    else if str_eq op "<"
    then ltb_ℤ v target
    else false

unfoldable pub counter_matches : CounterMatch → Option CounterResolver → Bool
unfolding compare_counter
counter_matches c none = false
counter_matches c (some get) = compare_counter (get c.name) c.op c.value

module _ (g : Platform) where
  unfoldable pub extension_matches : List String → RequestContext → Bool
  unfolding path_ext
  extension_matches exts ctx =
      let ext = to_lower g (path_ext ctx.path) in if is_empty ext then false else contains ext exts

  unfoldable pub ip_matches : List String → Option Addr → Bool
  ip_matches nets none = false
  ip_matches nets (some addr) = any (λ n. g.cidr_contains n addr) nets

  unfoldable pub bool_matches : String → Bool → RequestContext → Bool
  bool_matches field want ctx =
      if str_eq field "is_protected"
      then bool_eq ctx.is_protected want
      else if str_eq field "is_range_request"
      then bool_eq ctx.is_range_request want
      else false

  unfoldable mutual
    unfolding extension_matches ip_matches bool_matches counter_matches

    pub matches : Matcher → RequestContext → Bool
    matches match_all ctx = true
    matches (path_regex re) ctx = g.regexp_match re ctx.path
    matches (path_prefix p) ctx = has_prefix ctx.path p
    matches (extension exts) ctx = extension_matches exts ctx
    matches (method methods) ctx = contains (to_upper g ctx.method) methods
    matches (ip_cidr nets) ctx = ip_matches nets (g.parse_addr ctx.ip)
    matches (ua_regex re) ctx = g.regexp_match re ctx.user_agent
    matches (pow_status s) ctx = str_eq ctx.pow_status s
    matches (pow_status_in s) ctx = contains ctx.pow_status s
    matches (pow_mode m) ctx = str_eq ctx.pow_mode m
    matches (bool_matcher field want) ctx = bool_matches field want ctx
    matches (counter c) ctx = counter_matches c ctx.counters
    matches (and_matcher parts) ctx = all_match parts ctx

    pub all_match : Matchers → RequestContext → Bool
    all_match nil ctx = true
    all_match (cons p parts) ctx = matches p ctx && all_match parts ctx
