-- ===== src/Risk/Counter.antt =====
-- internal/risk/counter.go. The map of definitions is a list of pairs; Go visits it in any order. The
-- store that may be nil is an Option.
pub mod Requests
use Prim.Native.String
use hustmirrors_waf_backend.Base.{
  ℕ, String, Bool, true, false, not, ◌&&◌, ◌||◌, Option, none, some, List, [], ◌∷◌, str_eq,
  if◌then◌else◌, is_empty, Fallible, ok, err, map_get, map_put,
}
use hustmirrors_waf_backend.Base.Int.{ℤ, pos}
use hustmirrors_waf_backend.Platform.{bool_eq}
use hustmirrors_waf_backend.Storage.Types.{StoreError, CounterStoreOps}
use hustmirrors_waf_backend.Risk.Types.{RequestContext, CounterResolver, noop_counter_resolver}

pub record CounterWhenConfig : Type 0 where
  pub is_protected : Option Bool
  pub is_range_request : Option Bool
  pub pow_status : String
  pub pow_mode : String

pub record CounterConfig : Type 0 where
  pub key : String
  pub window : ℤ
  pub when : CounterWhenConfig
  pub storage : String

abbrev pub CounterDefs : Type 0
CounterDefs = List (String × CounterConfig)

pub record CounterRegistry (C : Type 0) : Type 0 where
  pub defs : CounterDefs
  pub store : Option (CounterStoreOps C)

abbrev pub flag_differs : Option Bool → Bool → Bool
flag_differs none b = false
flag_differs (some a) b = not (bool_eq a b)

abbrev pub text_differs : String → String → Bool
text_differs a b = not (is_empty a) && not (str_eq a b)

unfoldable pub counter_when_matches : CounterWhenConfig → RequestContext → Bool
counter_when_matches when req =
    not (flag_differs when.is_protected req.is_protected)
    && not (flag_differs when.is_range_request req.is_range_request)
    && not (text_differs when.pow_status req.pow_status)
    && not (text_differs when.pow_mode req.pow_mode)

unfoldable pub counter_key : String → RequestContext → String
counter_key field req =
    if str_eq field "ip"
    then req.ip
    else if str_eq field "path"
    then req.path
    else if str_eq field "ip_path"
    then String.◌++◌ req.ip (String.◌++◌ "|" req.path)
    else ""

-- Whether a request counts under a definition.
abbrev pub counts_under : CounterConfig → RequestContext → Bool
counts_under def req = counter_when_matches def.when req && not (is_empty (counter_key def.key req))

unfoldable pub add_error : List StoreError → Fallible StoreError (ℤ × ℕ) → List StoreError
add_error errs (err e) = e ∷ errs
add_error errs (ok v) = errs

unfoldable pub keep_read : String → ℤ × Bool → List (String × ℤ) → List (String × ℤ) × ℤ
keep_read name (v, true) cache = (map_put name v cache, v)
keep_read name (v, false) cache = (cache, v)

module _ {C : Type 0} where
  -- The loop over the definitions.
  unfoldable pub increment_defs :
      CounterStoreOps C → RequestContext → CounterDefs → C → C × List StoreError
  unfolding add_error counter_when_matches counter_key
  increment_defs ops req [] c = (c, [])
  increment_defs ops req ((name, def) ∷ defs) c =
      let (c1, out) =
        if counts_under def req
        then ops.incr name (counter_key def.key req) def.window c
        else (c, ok (pos 0, 0)) in
      let (c2, errs) = increment_defs ops req defs c1 in (c2, add_error errs out)

  unfoldable pub increment_for_request :
      CounterRegistry C → RequestContext → C → C × List StoreError
  unfolding increment_defs
  increment_for_request r req c = elim r.store [
    | none ↦ (c, [])
    | some ops ↦ increment_defs ops req r.defs c
  ]

  -- What cachingResolver.Get does for a name that it has not kept: the value, and whether it is kept.
  unfoldable pub read_counter :
      CounterStoreOps C → RequestContext → C → String → Option CounterConfig → ℤ × Bool
  unfolding counter_key
  read_counter ops req c name none = (pos 0, false)
  read_counter ops req c name (some def) =
      let key = counter_key def.key req in
      if is_empty key
      then (pos 0, false)
      else elim (ops.get name key def.window c) [ err e ↦ (pos 0, false) | ok v ↦ (v, true) ]

  -- cachingResolver.Get, on the cache.
  unfoldable pub resolver_get :
      CounterDefs
      → CounterStoreOps C
      → RequestContext
      → C
      → String
      → List (String × ℤ)
      → List (String × ℤ) × ℤ
  unfolding read_counter keep_read map_get
  resolver_get defs ops req c name cache = elim (map_get name cache) [
    | some v ↦ (cache, v)
    | none ↦ keep_read name (read_counter ops req c name (map_get name defs)) cache
  ]

  -- The resolver, with an empty cache at each name.
  unfoldable pub lookup_resolver : CounterRegistry C → RequestContext → C → CounterResolver
  unfolding resolver_get
  lookup_resolver r req c name = elim r.store [
    | none ↦ noop_counter_resolver name
    | some ops ↦ (resolver_get r.defs ops req c name []).1
  ]
