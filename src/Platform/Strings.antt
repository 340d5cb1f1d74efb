-- ===== src/Platform/Strings.antt =====
-- strings.ToUpper, ToLower, EqualFold, TrimSpace, HasPrefix, HasSuffix, netip.Addr and its Unmap.
use Prim.Native.Char.{Char, code}
use text.Mathlib.Text.{starts_with}
use hustmirrors_waf_backend.Base.{
  ℕ, ◌/◌, ◌%◌, ◌^◌, String, Bool, true, false, not, ◌&&◌, ◌||◌, Option, ltb, ◌==◌, str_eq,
  if◌then◌else◌, between,
}

-- A netip.Addr: 4 or 16 bytes as a number, and the zone of a 16-byte address.
pub record Addr : Type 0 where
  pub is4 : Bool
  pub value : ℕ
  pub zone : String

-- Addr.Unmap removes the prefix of an IPv4-mapped IPv6 address.
unfoldable pub unmap : Addr → Addr
unmap a =
    if not a.is4 && a.value / 2 ^ 32 == 0xffff
    then record { is4 = true; value = a.value % 2 ^ 32; zone = "" }
    else a

abbrev pub bool_eq : Bool → Bool → Bool
bool_eq true b = b
bool_eq false b = not b

-- `==` of two netip.Addr values.
unfoldable pub addr_eq : Addr → Addr → Bool
addr_eq a b = bool_eq a.is4 b.is4 && a.value == b.value && str_eq a.zone b.zone

pub record Platform : Type 0 where
  -- unicode.ToUpper, unicode.ToLower, and equality under simple case folding
  pub upper_rune : Char → Char
  pub lower_rune : Char → Char
  pub fold_rune : Char → Char → Bool
  -- regexp: whether a pattern compiles, and whether it matches a text
  pub regexp_compiles : String → Bool
  pub regexp_match : String → String → Bool
  -- net/netip and net
  pub parse_addr : String → Option Addr
  pub addr_string : Addr → String
  pub cidr_parses : String → Bool
  pub cidr_contains : String → Addr → Bool

-- unicode.IsControl: the category Cc.
unfoldable pub is_control : ℕ → Bool
is_control c = ltb c 32 || between 127 159 c

-- unicode.IsSpace.
unfoldable pub is_space : ℕ → Bool
is_space c =
    between 9 13 c
    || c == 32
    || c == 0x85
    || c == 0xa0
    || c == 0x1680
    || between 0x2000 0x200a c
    || c == 0x2028
    || c == 0x2029
    || c == 0x202f
    || c == 0x205f
    || c == 0x3000

unfoldable pub trim_left : (ℕ → Bool) → String → String
trim_left p String.[] = String.[]
trim_left p (String.◌∷◌ c s) =
    let rest = trim_left p s in if p (code c) then rest else String.◌∷◌ c s

unfoldable pub trim_right : (ℕ → Bool) → String → String
trim_right p String.[] = String.[]
trim_right p (String.◌∷◌ c s) = elim (trim_right p s) [
  | String.[] ↦ if p (code c) then String.[] else String.◌∷◌ c String.[]
  | String.◌∷◌ d r ↦ String.◌∷◌ c (String.◌∷◌ d r)
]

unfoldable pub trim_space : String → String
unfolding is_space trim_left trim_right
trim_space s = trim_right is_space (trim_left is_space s)

-- strings.HasSuffix: some tail of the text is the suffix.
unfoldable pub has_suffix : String → String → Bool
has_suffix String.[] suffix = str_eq String.[] suffix
has_suffix (String.◌∷◌ c s) suffix = str_eq (String.◌∷◌ c s) suffix || has_suffix s suffix

-- strings.HasPrefix.
abbrev pub has_prefix : String → String → Bool
has_prefix s prefix = starts_with s prefix

-- strings.Contains.
unfoldable pub has_infix : String → String → Bool
has_infix String.[] t = has_prefix String.[] t
has_infix (String.◌∷◌ c s) t = has_prefix (String.◌∷◌ c s) t || has_infix s t

map_runes : (Char → Char) → String → String
map_runes f String.[] = String.[]
map_runes f (String.◌∷◌ c s) = String.◌∷◌ (f c) (map_runes f s)

module _ (g : Platform) where
  unfoldable pub to_upper : String → String
  unfolding map_runes
  to_upper s = map_runes g.upper_rune s

  unfoldable pub to_lower : String → String
  unfolding map_runes
  to_lower s = map_runes g.lower_rune s

  unfoldable pub equal_fold : String → String → Bool
  equal_fold String.[] String.[] = true
  equal_fold (String.◌∷◌ c s) (String.◌∷◌ d t) = g.fold_rune c d && equal_fold s t
  equal_fold _ _ = false
