-- ===== src/Pow/Canonical.antt =====
-- internal/pow/canonical.go: the text whose hash is the sign of a token.
use Prim.Native.String
use hustmirrors_waf_backend.Base.{
  ℕ, zero, suc, ◌/◌, ◌%◌, String, Option, none, some, List, [], ◌∷◌, str_eq, if◌then◌else◌, ◌==◌,
}
use hustmirrors_waf_backend.Base.Int.{ℤ, pos, negsuc}
use hustmirrors_waf_backend.Pow.Token.{TokenPayload}

-- The decimal digit of a number below ten.
unfoldable pub digit : ℕ → String
digit zero = "0"
digit (suc zero) = "1"
digit (suc (suc zero)) = "2"
digit (suc (suc (suc zero))) = "3"
digit (suc (suc (suc (suc zero)))) = "4"
digit (suc (suc (suc (suc (suc zero))))) = "5"
digit (suc (suc (suc (suc (suc (suc zero)))))) = "6"
digit (suc (suc (suc (suc (suc (suc (suc zero))))))) = "7"
digit (suc (suc (suc (suc (suc (suc (suc (suc zero)))))))) = "8"
digit (suc (suc (suc (suc (suc (suc (suc (suc (suc n))))))))) = "9"

-- The decimal text of a number, on fuel; a number is itself fuel enough.
unfoldable pub decimal_fuel : ℕ → ℕ → String
unfolding digit
decimal_fuel zero n = digit n
decimal_fuel (suc f) n =
    let longer = String.◌++◌ (decimal_fuel f (n / 10)) (digit (n % 10)) in
    if n / 10 == 0 then digit n else longer

-- What %d prints.
unfoldable pub decimal : ℤ → String
unfolding decimal_fuel
decimal (pos n) = decimal_fuel n n
decimal (negsuc n) = String.◌++◌ "-" (decimal_fuel (suc n) (suc n))

-- Lines, each with its line break.
unfoldable pub unlines : List String → String
unlines [] = ""
unlines (l ∷ ls) = String.◌++◌ l (String.◌++◌ "\n" (unlines ls))

abbrev pub canonical_prefix : String
canonical_prefix = "mirrors-pow-v1"

abbrev pub signed_ip : TokenPayload → String
signed_ip p = if str_eq p.mode "ip_bound" then p.ip else ""

-- The lines of the format string, filled in.
unfoldable pub canonical_lines : TokenPayload → List String
unfolding decimal
canonical_lines p =
    canonical_prefix
    ∷ String.◌++◌ "mode=" p.mode
    ∷ String.◌++◌ "ip=" (signed_ip p)
    ∷ String.◌++◌ "path=" p.path
    ∷ String.◌++◌ "ts=" (decimal p.timestamp)
    ∷ String.◌++◌ "exp=" (decimal p.expires_at)
    ∷ String.◌++◌ "difficulty=" (decimal p.difficulty)
    ∷ String.◌++◌ "cnt=" p.counter
    ∷ String.◌++◌ "salt=" p.salt
    ∷ []

unfoldable pub build_canonical_input : Option TokenPayload → String
unfolding unlines canonical_lines
build_canonical_input none = ""
build_canonical_input (some p) = unlines (canonical_lines p)
