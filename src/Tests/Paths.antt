-- ===== src/Tests/Paths.antt =====
-- The theorems on path protection, at concrete paths.
use hustmirrors_waf_backend.Base.{◌≡◌, refl, String, true, Option, some, [], ◌∷◌}
use hustmirrors_waf_backend.Protection.Normalize.{normalize_path}
use hustmirrors_waf_backend.Protection.Matchers.{matches, new_extension_matcher}
use hustmirrors_waf_backend.Protection.Decorated.{IsNamed, normalize_path_name}
use hustmirrors_waf_backend.Protection.Extensions.{ends_in, matches-new_extension_matcher}
use hustmirrors_waf_backend.Fixtures.{platform}

-- url.PathUnescape where there is nothing to unescape.
abbrev unescape : String → Option String
unescape s = some s

decorated_name : IsNamed unescape "/u.iso" "/u.iso/. ;x=1"
unfolding hustmirrors_waf_backend.Protection.Normalize.decoded
    hustmirrors_waf_backend.Protection.Normalize.has_char
    hustmirrors_waf_backend.Platform.trim_right
    hustmirrors_waf_backend.Protection.Normalize.is_trailing
    hustmirrors_waf_backend.Protection.Decorated.are_trailing
    hustmirrors_waf_backend.Protection.Normalize.until_char
decorated_name = ("/. ", ";x=1", "", refl, refl, refl, refl, refl, refl, refl, refl, refl, refl)

normalize_path_name_example : normalize_path unescape "/u.iso/. ;x=1" ≡ "/u.iso"
normalize_path_name_example = normalize_path_name unescape "/u.iso" "/u.iso/. ;x=1" decorated_name

matches-new_extension_matcher_example :
    matches platform (new_extension_matcher platform (" iso" ∷ ".iso" ∷ ".img" ∷ [])) "/u.iso"
    ≡ true
unfolding ends_in hustmirrors_waf_backend.Platform.trim_space
matches-new_extension_matcher_example =
    matches-new_extension_matcher platform (" iso" ∷ ".iso" ∷ ".img" ∷ []) "/u.iso"

-- A slash behind the parameters hides them: the name keeps its parameters.
slash_after_params : normalize_path unescape "/u.iso;x=1/" ≡ "/u.iso;x=1"
unfolding normalize_path
slash_after_params = refl
