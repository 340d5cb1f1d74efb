-- ===== src/Protection/Normalize.antt =====
-- internal/matcher/normalize.go. A path is a text of characters; the bytes that the code looks for are of
-- ASCII, so a byte of a path that is one of them is a character. `unescape` is url.PathUnescape, `none`
-- where it gives an error.
use Prim.Native.Char.{code}
use hustmirrors_waf_backend.Base.{
  ℕ, String, Bool, false, ◌||◌, Option, none, some, ◌==◌, if◌then◌else◌, is_empty,
}
use hustmirrors_waf_backend.Platform.{trim_right}

unfoldable pub has_char : ℕ → String → Bool
has_char n String.[] = false
has_char n (String.◌∷◌ c s) = code c == n || has_char n s

-- The text before the first such byte; all of it where there is none.
unfoldable pub until_char : ℕ → String → String
until_char n String.[] = ""
until_char n (String.◌∷◌ c s) =
    let rest = until_char n s in if code c == n then "" else String.◌∷◌ c rest

abbrev pub slash : ℕ
slash = 47

abbrev pub semicolon : ℕ
semicolon = 59

-- Cuts the last segment, which starts at the last slash, at its first semicolon.
unfoldable pub cut_params : String → String
unfolding has_char until_char
cut_params String.[] = ""
cut_params (String.◌∷◌ c s) =
    let rest = cut_params s in
    if has_char slash s then String.◌∷◌ c rest else until_char semicolon (String.◌∷◌ c s)

-- One of the characters `/`, `.`, space and tab.
unfoldable pub is_trailing : ℕ → Bool
is_trailing c = c == slash || (c == 46 || (c == 32 || c == 9))

unfoldable pub decoded : String → Option String → String
decoded path none = path
decoded path (some text) = text

unfoldable pub normalize_path : (String → Option String) → String → String
unfolding decoded until_char cut_params trim_right is_trailing
normalize_path unescape path =
    if is_empty path
    then ""
    else trim_right is_trailing (cut_params (until_char 0 (decoded path (unescape path))))
