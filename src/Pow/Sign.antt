-- ===== src/Pow/Sign.antt =====
-- internal/pow/verify.go and sign_id.go, with SHA-256 and the decoding of base64 and JSON as
-- parameters.
pub mod Identity
use Prim.Native.Char.{Char}
use Prim.Native.String
use hustmirrors_waf_backend.Base.{
  ℕ, ◌/◌, ◌%◌, String, Bool, true, false, Option, none, some, List, [], ◌∷◌, is_empty,
  if◌then◌else◌, Fallible, ok, err,
}
use hustmirrors_waf_backend.Platform.{Platform, equal_fold}
use hustmirrors_waf_backend.Pow.Token.{TokenPayload, TokenError, empty, malformed}
use hustmirrors_waf_backend.Pow.Canonical.{build_canonical_input, digit, unlines}

pub record Crypto : Type 0 where
  -- the 32 bytes of crypto/sha256
  pub sha256 : String → List ℕ
  -- encoding/hex
  pub hex : List ℕ → String
  -- base64url, with or without padding, then JSON; `none` where either fails
  pub unmarshal : String → Option TokenPayload

module _ (k : Crypto) where
  unfoldable pub decode_token : String → Fallible TokenError TokenPayload
  decode_token raw =
      if is_empty raw
      then err empty
      else elim (k.unmarshal raw) [ none ↦ err malformed | some p ↦ ok p ]

  unfoldable pub compute_sign : Option TokenPayload → String
  compute_sign p = k.hex (k.sha256 (build_canonical_input p))

  unfoldable pub hash_canonical : String → List ℕ
  hash_canonical canonical = k.sha256 canonical

  -- What the sign id is the hash of.
  unfoldable pub sign_id_input : TokenPayload → String → String → String
  sign_id_input p sign mode = unlines (
      "mirrors-pow-sign-id-v2"
      ∷ String.◌++◌ "mode=" mode
      ∷ String.◌++◌ "canonical=" (build_canonical_input (some p))
      ∷ String.◌++◌ "sign=" sign
      ∷ [])

  unfoldable pub compute_sign_id : TokenPayload → String → String → String
  compute_sign_id p sign mode = k.hex (k.sha256 (sign_id_input p sign mode))

  unfoldable pub hash_token : String → String
  hash_token token_raw = if is_empty token_raw then "" else k.hex (k.sha256 token_raw)

unfoldable pub compare_sign : Platform → String → String → Bool
compare_sign g computed client =
    if is_empty computed
    then false
    else if is_empty client
    then false
    else equal_fold g computed client
