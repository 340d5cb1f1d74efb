-- ===== src/Risk/Engine/Verdict.antt =====
-- What evalChain decides, against a reference reading of rule chains without visit counters.
use hustmirrors_waf_backend.Base.{
  ◌≡◌, sym, ap, ◌∙◌, String, Bool, true, false, Option, none, some, List, [], ◌∷◌, ◌++◌, is_empty,
  if◌then◌else◌, arith,
}
use mathlib.Core.List.{append_assoc}
use hustmirrors_waf_backend.Platform.{Platform}
use hustmirrors_waf_backend.Risk.Types.{RequestContext, Decision, Rule, Chain, ChainMap}
use hustmirrors_waf_backend.Risk.Matcher.{matches}
use hustmirrors_waf_backend.Risk.Engine.{
  Action, decide, jump, give_policy, set_mark, proceed, action, fill_reason, lookup_chain,
  decision_from_rule,
}

-- A decision without its marks.
abbrev pub strip : Decision → Decision
strip d = record d { marks = [] }

unfoldable pub policy_decision : String → Chain → Decision
policy_decision name c = record {
  target = c.policy.target;
  status_code = c.policy.status;
  limit_rate = c.policy.limit_rate;
  reason = c.policy.reason;
  chain = name;
  rule_name = "policy";
  marks = [];
}

-- Whether an action ends the walk through a chain whose jumps end it.
unfoldable pub hit_of : Action → Rule → Option Rule → Option Rule
hit_of set_mark r rest = rest
hit_of proceed r rest = rest
hit_of decide r rest = some r
hit_of jump r rest = some r
hit_of give_policy r rest = some r

abbrev pub stops : Action → Bool
stops set_mark = false
stops proceed = false
stops _ = true

unfoldable pub own_mark : Rule → List String
own_mark r = if is_empty r.mark then [] else r.mark ∷ []

unfoldable pub marks_of : Action → Rule → List String → List String
unfolding own_mark
marks_of set_mark r rest = own_mark r ++ rest
marks_of proceed r rest = rest
marks_of decide r rest = []
marks_of jump r rest = []
marks_of give_policy r rest = []

module _ (g : Platform) (ctx : RequestContext) where
  -- The first matching rule that is neither LOG nor MARK.
  unfoldable pub first_hit : List Rule → Option Rule
  first_hit [] = none
  first_hit (r ∷ rs) =
      let rest = first_hit rs in
      if matches g r.match ctx then hit_of (action r.target) r rest else rest

  -- The marks of the matching MARK rules before it.
  unfoldable pub marks_before : List Rule → List String
  marks_before [] = []
  marks_before (r ∷ rs) =
      let rest = marks_before rs in
      if matches g r.match ctx then marks_of (action r.target) r rest else rest

  -- The reference reading: the first hit decides, a jump hands over to its chain, and a chain
  -- without a hit, or with a RETURN, gives its policy.
  pub data Decides (chains : ChainMap)
      : String → Chain → List Rule → List String → Decision → Type 0 where
    by_policy :
        {name : String} {c : Chain} {rules : List Rule} {ms : List String} {d : Decision}
        → first_hit rules ≡ none
        → ms ≡ marks_before rules
        → d ≡ policy_decision name c
        → Decides chains name c rules ms d
    by_return :
        {name : String} {c : Chain} {rules : List Rule} {ms : List String} {d : Decision} {r : Rule}
        → first_hit rules ≡ some r
        → action r.target ≡ give_policy
        → ms ≡ marks_before rules
        → d ≡ policy_decision name c
        → Decides chains name c rules ms d
    by_rule :
        {name : String} {c : Chain} {rules : List Rule} {ms : List String} {d : Decision} {r : Rule}
        → first_hit rules ≡ some r
        → action r.target ≡ decide
        → ms ≡ marks_before rules
        → d ≡ decision_from_rule name r
        → Decides chains name c rules ms d
    by_jump :
        {name : String} {c : Chain} {rules : List Rule} {ms : List String} {d : Decision} {r : Rule}
        {target : Chain} {ms' : List String} {d' : Decision}
        → first_hit rules ≡ some r
        → action r.target ≡ jump
        → lookup_chain g chains r.chain ≡ some target
        → Decides chains r.chain target target.rules ms' d'
        → ms ≡ marks_before rules ++ ms'
        → d ≡ fill_reason r d'
        → Decides chains name c rules ms d

  -- A rule that does not end the walk adds its marks in front.
  pub Decides-skip :
      (chains : ChainMap) {name : String} {c : Chain} {rules : List Rule} {ms : List String}
      {d : Decision} (rule : Rule) (own : List String)
      → first_hit (rule ∷ rules) ≡ first_hit rules
      → marks_before (rule ∷ rules) ≡ own ++ marks_before rules
      → Decides chains name c rules ms d
      → Decides chains name c (rule ∷ rules) (own ++ ms) d
  Decides-skip chains rule own h m (by_policy f e p) =
      by_policy (h ∙ f) (ap (λ l. own ++ l) e ∙ sym m) p
  Decides-skip chains rule own h m (by_return f a e p) =
      by_return (h ∙ f) a (ap (λ l. own ++ l) e ∙ sym m) p
  Decides-skip chains rule own h m (by_rule f a e p) =
      by_rule (h ∙ f) a (ap (λ l. own ++ l) e ∙ sym m) p
  Decides-skip chains {rules} rule own h m (by_jump {ms' = ms'} f a l s e p) =
      by_jump (h ∙ f) a l s
        (ap (λ l. own ++ l) e
          ∙ sym (append_assoc own (marks_before rules) ms')
          ∙ ap (λ l. l ++ ms') (sym m))
        p

  -- A matching rule that stops the walk is the first hit, with no marks before it.
  pub first_hit_stop :
      (r : Rule) (rs : List Rule) (a : Action)
      → matches g r.match ctx ≡ true
      → action r.target ≡ a
      → stops a ≡ true
      → (first_hit (r ∷ rs) ≡ some r) × (marks_before (r ∷ rs) ≡ [])
  unfolding first_hit marks_before hit_of marks_of
  first_hit_stop r rs a m e s = ground arith

  -- Any other rule leaves the first hit, and adds at most its own mark.
  pub first_hit_unmatched :
      (r : Rule) (rs : List Rule)
      → matches g r.match ctx ≡ false
      → (first_hit (r ∷ rs) ≡ first_hit rs) × (marks_before (r ∷ rs) ≡ marks_before rs)
  unfolding first_hit marks_before
  first_hit_unmatched r rs m = ground arith

  pub first_hit_proceed :
      (r : Rule) (rs : List Rule)
      → matches g r.match ctx ≡ true
      → action r.target ≡ proceed
      → (first_hit (r ∷ rs) ≡ first_hit rs) × (marks_before (r ∷ rs) ≡ marks_before rs)
  unfolding first_hit marks_before hit_of marks_of
  first_hit_proceed r rs m e = ground arith

  pub first_hit_set_mark :
      (r : Rule) (rs : List Rule)
      → matches g r.match ctx ≡ true
      → action r.target ≡ set_mark
      → (first_hit (r ∷ rs) ≡ first_hit rs)
        × (marks_before (r ∷ rs) ≡ own_mark r ++ marks_before rs)
  unfolding first_hit marks_before hit_of marks_of
  first_hit_set_mark r rs m e = ground arith
