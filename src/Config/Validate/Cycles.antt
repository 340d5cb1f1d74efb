-- ===== src/Config/Validate/Cycles.antt =====
-- detectCycles of internal/config/validate.go: a depth-first search over the chains, with a colour for each
-- name. The search is on fuel; a visit goes on only to names that are white, so one more than the number of
-- chains is the greatest depth.
use hustmirrors_waf_backend.Base.{
  ℕ, zero, suc, String, Bool, true, false, not, ◌&&◌, Option, none, some, List, [], ◌∷◌, ◌++◌,
  str_eq, length, if◌then◌else◌, is_empty, map_get, map_put,
}
use hustmirrors_waf_backend.Platform.{Platform, to_upper}
use hustmirrors_waf_backend.Risk.Compile.{RuleConfig, ChainConfig}
use hustmirrors_waf_backend.Config.Validate.{Problem, cycle, out_of_fuel}

-- A name without a colour is white.
pub data Color : Type 0 where
  gray black : Color

abbrev pub Colors : Type 0
Colors = List (String × Color)

-- Whether a cycle was found, the colours, and the problems.
abbrev pub Search : Type 0
Search = Bool × Colors × List Problem

unfoldable pub is_jump : RuleConfig → Bool
is_jump r = str_eq r.target "JUMP" && not (is_empty r.chain)

-- What comes after a rule, which may have found a cycle.
unfoldable pub after_rule : Search → (Colors → Search) → Search
after_rule (true, colors, ps) rest = (true, colors, ps)
after_rule (false, colors, ps) rest =
    let (found, colors', qs) = rest colors in (found, colors', ps ++ qs)

unfoldable pub visit_rules : (String → Colors → Search) → List RuleConfig → Colors → Search
unfolding is_jump after_rule
visit_rules visit [] colors = (false, colors, [])
visit_rules visit (r ∷ rs) colors =
    after_rule (if is_jump r then visit r.chain colors else (false, colors, []))
      (visit_rules visit rs)

unfoldable pub leave_chain : String → Search → Search
leave_chain upper (true, colors, ps) = (true, colors, ps)
leave_chain upper (false, colors, ps) = (false, map_put upper black colors, ps)

module _ (g : Platform) where
  -- The map of the chains under their names in upper case; of two such names the later chain stays.
  unfoldable pub normalise : List (String × ChainConfig) → List (String × ChainConfig)
  unfolding map_get to_upper
  normalise [] = []
  normalise ((k, c) ∷ cs) =
      let rest = normalise cs in
      elim (map_get (to_upper g k) rest) [ some d ↦ rest | none ↦ (to_upper g k, c) ∷ rest ]

  unfoldable pub visit_white :
      (String → Colors → Search) → String → Option ChainConfig → Colors → Search
  unfolding visit_rules leave_chain map_put
  visit_white visit upper none colors = (false, map_put upper black colors, [])
  visit_white visit upper (some c) colors =
      leave_chain upper (visit_rules visit c.rules (map_put upper gray colors))

  unfoldable pub visit_chain : List (String × ChainConfig) → ℕ → String → Colors → Search
  unfolding visit_white map_get to_upper
  visit_chain chains zero name colors = (true, colors, out_of_fuel ∷ [])
  visit_chain chains (suc fuel) name colors =
      let upper = to_upper g name in
      elim (map_get upper colors) [
        | some gray ↦ (true, colors, cycle name ∷ [])
        | some black ↦ (false, colors, [])
        | none ↦ visit_white (visit_chain chains fuel) upper (map_get upper chains) colors
      ]

  -- The roots; a cycle that one finds does not end the loop.
  unfoldable pub visit_all :
      List (String × ChainConfig) → List (String × ChainConfig) → Colors → List Problem
  unfolding visit_chain
  visit_all chains [] colors = []
  visit_all chains ((name, c) ∷ cs) colors =
      let (found, colors', ps) = visit_chain chains (suc (suc (length chains))) name colors in
      ps ++ visit_all chains cs colors'

  unfoldable pub detect_cycles : List (String × ChainConfig) → List Problem
  unfolding normalise visit_all
  detect_cycles chains = let all = normalise chains in visit_all all all []
