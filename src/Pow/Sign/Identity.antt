-- ===== src/Pow/Sign/Identity.antt =====
-- Which proofs of work internal/pow/sign_id.go tells apart.
use Prim.Native.String
use text.Mathlib.TextLemmas.{append_cancel_left, append_cancel_right}
use hustmirrors_waf_backend.Base.{◌≡◌, ap, String, List, [], ◌∷◌, ◌↔◌}
use hustmirrors_waf_backend.Pow.Token.{TokenPayload}
use hustmirrors_waf_backend.Pow.Canonical.{unlines}
use hustmirrors_waf_backend.Pow.Sign.{Crypto, sign_id_input}

unlines-cancel :
    (l : String) (ls ms : List String)
    → unlines (l ∷ ls) ≡ unlines (l ∷ ms)
    → unlines ls ≡ unlines ms
unfolding unlines
unlines-cancel l ls ms h =
    append_cancel_left "\n" (unlines ls) (unlines ms) (append_cancel_left l _ _ h)

unlines-last : (l m : String) → unlines (l ∷ []) ≡ unlines (m ∷ []) → l ≡ m
unfolding unlines
unlines-last l m h = append_cancel_right l m (String.◌++◌ "\n" "") h

module _ (k : Crypto) where
  -- For one payload and mode, two signs have the same text behind their sign ids exactly if they are
  -- the same text, letter case included.
  pub sign_id_input-sign :
      (p : TokenPayload) (sign sign' mode : String)
      → (sign_id_input k p sign mode ≡ sign_id_input k p sign' mode) ↔ (sign ≡ sign')
  unfolding sign_id_input
  sign_id_input-sign p sign sign' mode = (
    λ h.
        append_cancel_left "sign=" sign sign'
          (unlines-last _ _ (unlines-cancel _ _ _ (unlines-cancel _ _ _ (unlines-cancel _ _ _ h)))),
    λ e. ap (λ x. sign_id_input k p x mode) e,
  )
