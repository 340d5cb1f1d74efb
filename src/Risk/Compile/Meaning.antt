-- ===== src/Risk/Compile/Meaning.antt =====
-- A compiled matcher accepts a request exactly when every field that is set accepts it.
use hustmirrors_waf_backend.Base.{
  if◌then◌else◌, not, any, String, Bool, true, false, ◌&&◌, ◌||◌, Option, none, some, List, [], ◌∷◌,
  ◌++◌, ◌≡◌, refl, sym, ap, ◌∙◌, all, contains, is_empty, map, Fallible, ok, err, >>=-eq-ok,
  require->>-eq-ok, arith, Bool-cases, inl, inr,
}
use Prim.Native.String
use hustmirrors_waf_backend.Platform.{Platform, to_upper, to_lower, trim_space, has_prefix, bool_eq}
use hustmirrors_waf_backend.Base.{str_eq}
use hustmirrors_waf_backend.Risk.Types.{
  RequestContext, CounterMatch, Matcher, path_regex, path_prefix, extension, method, ua_regex,
  pow_status, pow_status_in, pow_mode, bool_matcher,
}
use hustmirrors_waf_backend.Risk.Matcher.{
  path_ext, matches, bool_matches, all_match, counter_matches, extension_matches, ip_matches,
}
use hustmirrors_waf_backend.Risk.Compile.{
  MatchConfig, CompileError, bad_regexp, bad_cidr, text_part, list_part, bool_part, counter_part,
  to_matchers, join_parts, gather, part_lists, normalize_extensions, extension_part, method_part,
  regex_part, parse_cidrs, cidr_part, compile_matcher,
}

ok-injective : {A : Type 0} {a b : A} → ◌≡◌ {A = Fallible CompileError A} (ok a) (ok b) → a ≡ b
ok-injective e = cc

module _ (g : Platform) (ctx : RequestContext) where
  abbrev pub accepts : List Matcher → Bool
  accepts = all (λ p. matches g p ctx)

  -- An absent flag, or one that the request has.
  flag_accepts : Option Bool → Bool → Bool
  flag_accepts none b = true
  flag_accepts (some want) b = bool_eq b want

  list_accepts : List String → Bool → Bool
  list_accepts [] b = true
  list_accepts (x ∷ xs) b = b

  counter_accepts : Option CounterMatch → Bool
  counter_accepts none = true
  counter_accepts (some c) = counter_matches c ctx.counters

  every : List Bool → Bool
  every = all (λ b. b)

  -- Whether an extension, as a configuration writes it, is the one of a path: in small letters, without white
  -- space and with a dot. One of white space alone is none.
  unfoldable is_extension : String → String → Bool
  is_extension ext e =
      let wanted = to_lower g (trim_space e) in
      let dotted = str_eq (String.◌++◌ "." wanted) ext in
      let whole = str_eq wanted ext in
      not (is_empty wanted) && (if has_prefix wanted "." then whole else dotted)

  unfoldable extension_accepts : List String → Bool
  unfolding is_extension
  extension_accepts xs =
      let ext = to_lower g (path_ext ctx.path) in
      not (is_empty ext) && any (λ e. is_extension ext e) xs

  -- One test for each field: unset, or satisfied by the request.
  unfoldable pub config_tests : MatchConfig → List Bool
  unfolding flag_accepts list_accepts counter_accepts extension_accepts
  config_tests m =
      (is_empty m.path_regex || g.regexp_match m.path_regex ctx.path)
      ∷ (is_empty m.path_prefix || has_prefix ctx.path m.path_prefix)
      ∷ (list_accepts m.extension_in (extension_accepts m.extension_in))
      ∷ (list_accepts m.method_in
          (contains (to_upper g ctx.method) (map (λ x. to_upper g (trim_space x)) m.method_in)))
      ∷ (list_accepts m.ip_cidr_in (ip_matches g m.ip_cidr_in (g.parse_addr ctx.ip)))
      ∷ (is_empty m.user_agent_regex || g.regexp_match m.user_agent_regex ctx.user_agent)
      ∷ (is_empty m.pow_status || str_eq ctx.pow_status m.pow_status)
      ∷ (list_accepts m.pow_status_in (contains ctx.pow_status m.pow_status_in))
      ∷ (is_empty m.pow_mode || str_eq ctx.pow_mode m.pow_mode)
      ∷ (flag_accepts m.is_protected ctx.is_protected)
      ∷ (flag_accepts m.is_range_request ctx.is_range_request)
      ∷ (counter_accepts m.counter)
      ∷ []

  -- Every field that is set accepts the request.
  unfoldable pub config_accepts : MatchConfig → Bool
  unfolding every config_tests
  config_accepts m = every (config_tests m)

  contains-normalize_extensions :
      (ext : String) (xs : List String)
      → contains ext (normalize_extensions g xs) ≡ any (λ e. is_extension ext e) xs
  unfolding normalize_extensions is_extension
  contains-normalize_extensions ext [] = refl
  contains-normalize_extensions ext (x ∷ xs) =
      elim (Bool-cases (is_empty (to_lower g (trim_space x)))) [
        | inl t ↦ rw t (contains-normalize_extensions ext xs)
        | inr f ↦ elim (Bool-cases (has_prefix (to_lower g (trim_space x)) ".")) [
          | inl d ↦ rw (f, d, contains-normalize_extensions ext xs) refl
          | inr d ↦ rw (f, d, contains-normalize_extensions ext xs) refl
        ]
      ]

  extension_matches-accepts :
      (xs : List String)
      → extension_matches g (normalize_extensions g xs) ctx ≡ extension_accepts xs
  unfolding extension_matches extension_accepts
  extension_matches-accepts xs = elim (Bool-cases (is_empty (to_lower g (path_ext ctx.path)))) [
    | inl t ↦ rw t refl
    | inr f ↦ rw f (contains-normalize_extensions (to_lower g (path_ext ctx.path)) xs)
  ]

  and_true : (b : Bool) → b && true ≡ b
  and_true true = refl
  and_true false = refl

  and_assoc : (a b c : Bool) → (a && b) && c ≡ a && (b && c)
  and_assoc true b c = refl
  and_assoc false b c = refl

  accepts-append : (xs ys : List Matcher) → accepts (xs ++ ys) ≡ accepts xs && accepts ys
  accepts-append [] ys = refl
  accepts-append (x ∷ xs) ys =
      ap (λ b. matches g x ctx && b) (accepts-append xs ys)
      ∙ sym (and_assoc (matches g x ctx) (accepts xs) (accepts ys))

  all_match-accepts : (ps : List Matcher) → all_match g (to_matchers ps) ctx ≡ accepts ps
  unfolding matches to_matchers
  all_match-accepts [] = refl
  all_match-accepts (p ∷ ps) = ap (λ b. matches g p ctx && b) (all_match-accepts ps)

  join_parts-accepts : (ps : List Matcher) → matches g (join_parts ps) ctx ≡ accepts ps
  unfolding matches join_parts
  join_parts-accepts [] = refl
  join_parts-accepts (p ∷ []) = sym (and_true (matches g p ctx))
  join_parts-accepts (p ∷ q ∷ ps) =
      ap (λ b. matches g p ctx && b) (ap (λ b. matches g q ctx && b) (all_match-accepts ps))

  text_part-accepts :
      (f : String → Matcher) (s : String) (b : Bool)
      → matches g (f s) ctx ≡ b
      → accepts (text_part f s) ≡ is_empty s || b
  text_part-accepts f String.[] b h = refl
  text_part-accepts f (String.◌∷◌ c s) b h = and_true _ ∙ h

  list_part-accepts :
      (f : List String → Matcher) (xs : List String) (b : Bool)
      → matches g (f xs) ctx ≡ b
      → accepts (list_part f xs) ≡ list_accepts xs b
  unfolding list_accepts
  list_part-accepts f [] b h = refl
  list_part-accepts f (x ∷ xs) b h = and_true _ ∙ h

  regex_part-accepts :
      (f : String → Matcher) (s : String) (b : Bool) {ps : List Matcher}
      → matches g (f s) ctx ≡ b
      → regex_part g f s ≡ ok ps
      → accepts ps ≡ is_empty s || b
  unfolding regex_part
  regex_part-accepts f String.[] b h e = ap accepts (ok-injective (sym e))
  regex_part-accepts f (String.◌∷◌ c s) b h e =
      elim (Bool-cases (g.regexp_compiles (String.◌∷◌ c s))) [
        | inl t ↦ ap accepts (ok-injective (sym (rw (t, regex_part) at e))) ∙ and_true _ ∙ h
        | inr t ↦ let bad : err (bad_regexp (String.◌∷◌ c s)) ≡ ok _ = rw (t, regex_part) at e in cc
      ]

  parse_cidrs-eq : (cs : List String) {ns : List String} → parse_cidrs g cs ≡ ok ns → ns ≡ cs
  unfolding parse_cidrs
  parse_cidrs-eq [] e = ground arith
  parse_cidrs-eq (c ∷ cs) e =
      let (_, rest) = require->>-eq-ok (g.cidr_parses c) (bad_cidr c) _ e in
      let (ms, found, e') = >>=-eq-ok (parse_cidrs g cs) _ rest in
      let same = parse_cidrs-eq cs found in ground arith

  cidr_part-accepts :
      (cs : List String) {ps : List Matcher}
      → cidr_part g cs ≡ ok ps
      → accepts ps ≡ list_accepts cs (ip_matches g cs (g.parse_addr ctx.ip))
  unfolding cidr_part matches list_accepts
  cidr_part-accepts [] e = ap accepts (ok-injective (sym e))
  cidr_part-accepts (c ∷ cs) e =
      let (ns, found, e') = >>=-eq-ok (parse_cidrs g (c ∷ cs)) _ e in
      ap accepts (ok-injective (sym e'))
      ∙ and_true _
      ∙ ap (λ l. ip_matches g l (g.parse_addr ctx.ip)) (parse_cidrs-eq (c ∷ cs) found)

  bool_part-accepts :
      (field : String) (o : Option Bool) (b : Bool)
      → ((want : Bool) → matches g (bool_matcher field want) ctx ≡ bool_eq b want)
      → accepts (bool_part field o) ≡ flag_accepts o b
  unfolding bool_part flag_accepts
  bool_part-accepts field none b h = refl
  bool_part-accepts field (some want) b h = and_true _ ∙ h want

  counter_part-accepts : (o : Option CounterMatch) → accepts (counter_part o) ≡ counter_accepts o
  unfolding counter_part counter_accepts matches
  counter_part-accepts none = refl
  counter_part-accepts (some c) = and_true _

  and-cong : {a b c d : Bool} → a ≡ b → c ≡ d → a && c ≡ b && d
  and-cong p q = λ i. p i && q i

  -- Part by part, what the matchers accept is what the tests say.
  abbrev Agree : List (List Matcher) → List Bool → Type 0
  Agree [] [] = Unit
  Agree (ps ∷ pss) (b ∷ bs) = (accepts ps ≡ b) × Agree pss bs
  Agree _ _ = ⊥

  gather-accepts :
      (pss : List (List Matcher)) (bs : List Bool) → Agree pss bs → accepts (gather pss) ≡ every bs
  unfolding gather every
  gather-accepts [] [] a = refl
  gather-accepts [] (b ∷ bs) a = elim a [ ]
  gather-accepts (ps ∷ pss) [] a = elim a [ ]
  gather-accepts (ps ∷ pss) (b ∷ bs) (e, a) =
      accepts-append ps (gather pss) ∙ and-cong e (gather-accepts pss bs a)

  -- When a match condition compiles, the matcher accepts exactly the requests that every field of
  -- the condition that is set accepts.
  pub compile_matcher-matches :
      (m : MatchConfig) {mm : Matcher}
      → compile_matcher g m ≡ ok mm
      → matches g mm ctx ≡ config_accepts m
  unfolding compile_matcher config_accepts extension_part method_part matches bool_matches every
      part_lists
  compile_matcher-matches m e =
      let (path, pe, e1) = >>=-eq-ok (regex_part g path_regex m.path_regex) _ e in
      let (nets, ne, e2) = >>=-eq-ok (cidr_part g m.ip_cidr_in) _ e1 in
      let (agent, ae, e3) = >>=-eq-ok (regex_part g ua_regex m.user_agent_regex) _ e2 in
      ap (λ x. matches g x ctx) (ok-injective (sym e3))
      ∙ join_parts-accepts (gather (part_lists g m path nets agent))
      ∙ gather-accepts (part_lists g m path nets agent) (config_tests m) (
        regex_part-accepts path_regex m.path_regex _ refl pe,
        (
          text_part-accepts path_prefix m.path_prefix _ refl,
          (
            list_part-accepts (λ ys. extension (normalize_extensions g ys)) m.extension_in _
                (extension_matches-accepts m.extension_in),
            (
              list_part-accepts (λ ys. method (map (λ x. to_upper g (trim_space x)) ys)) m.method_in
                  _ refl,
              (
                cidr_part-accepts m.ip_cidr_in ne,
                (
                  regex_part-accepts ua_regex m.user_agent_regex _ refl ae,
                  (
                    text_part-accepts pow_status m.pow_status _ refl,
                    (
                      list_part-accepts pow_status_in m.pow_status_in _ refl,
                      (
                        text_part-accepts pow_mode m.pow_mode _ refl,
                        (
                          bool_part-accepts "is_protected" m.is_protected _ (λ w. refl),
                          (
                            bool_part-accepts "is_range_request" m.is_range_request _ (λ w. refl),
                            (counter_part-accepts m.counter, tt),
                          ),
                        ),
                      ),
                    ),
                  ),
                ),
              ),
            ),
          ),
        ),
      )
