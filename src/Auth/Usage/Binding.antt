-- ===== src/Auth/Usage/Binding.antt =====
-- The binding of an ip_bound token without an address to its first request, by bindEmptyIPFirstUse of
-- internal/auth/pow_verify.go over the memory store.
use hustmirrors_waf_backend.Base.{
  ◌≡◌, refl, ap, ◌∙◌, String, Bool, true, false, Option, none, some, if◌then◌else◌, is_empty,
  Fallible, ok, err, eq_refl,
}
use hustmirrors_waf_backend.Base.Int.{ℤ, pos, eq_ℤ}
use hustmirrors_waf_backend.Platform.{Platform}
use hustmirrors_waf_backend.Storage.Types.{
  StoreError, not_found, UsageOps, UsageRecord, ConsumeInput, ConsumeResult,
}
use hustmirrors_waf_backend.Storage.Usage.{
  Records, UsageStore, find, new_record, record_for, used_up, charge, answer, consume_open,
  consume_locked, consume, get, usage_ops,
}
use hustmirrors_waf_backend.Storage.Usage.Quota.{find-put}
use hustmirrors_waf_backend.Pow.Token.{TokenPayload}
use hustmirrors_waf_backend.Pow.Sign.{Crypto, compute_sign_id}
use hustmirrors_waf_backend.Auth.Result.{AuthRequest, deny_mode}
use hustmirrors_waf_backend.Auth.Service.{Service, maybe_dry_run}
use hustmirrors_waf_backend.Auth.Check.{same_ip}
use hustmirrors_waf_backend.Auth.Usage.{
  consume_input, bind_consumed, bind_found, bind_with, bind_empty_ip_first_use,
}

-- What a first Consume of an open store leaves: a record with the address of the request.
abbrev Bound : String → String → UsageStore → Type 0
Bound id ip st =
    (st.closed ≡ false)
    × (rec : UsageRecord) × (find id st.records ≡ some rec)
    × (rec.first_ip ≡ ip)

answer_stores :
    (t : Bool) (input : ConsumeInput) (now : ℤ) (records : Records) (rec : UsageRecord)
    → t ≡ false
    → find input.id (answer t input now records rec).0 ≡ some (charge input now rec)
unfolding answer
answer_stores true input now records rec e = cc
answer_stores false input now records rec e =
    find-put input.id input.id (charge input now rec) records
    ∙ ap (λ b. if b then some (charge input now rec) else find input.id records) (eq_refl input.id)

not_used_up :
    (input : ConsumeInput) (rec : UsageRecord)
    → input.max_uses ≡ pos 1
    → rec.uses ≡ 0
    → used_up input rec ≡ false
unfolding used_up
not_used_up input rec limit u = rw (limit, u) refl

answer_first :
    (o : Option UsageRecord) (input : ConsumeInput) (now : ℤ) (records : Records)
    → o ≡ none
    → input.max_uses ≡ pos 1
    → find input.id
        (answer
          (used_up input (record_for input now o))
          input
          now
          records
          (record_for input now o)).0
      ≡ some (charge input now (new_record input now))
unfolding record_for new_record
answer_first none input now records e limit =
    answer_stores _ input now records (new_record input now)
      (not_used_up input (new_record input now) limit refl)
answer_first (some r) input now records e limit = cc

consume_locked_first :
    (c : Bool) (wall : ℤ) (input : ConsumeInput) (st : UsageStore)
    → st.closed ≡ c
    → c ≡ false
    → find input.id st.records ≡ none
    → input.max_uses ≡ pos 1
    → let r = consume_locked c wall input st in
      ((cr : ConsumeResult) × (r.1 ≡ ok cr)) × Bound input.id input.ip r.0
unfolding consume_locked consume_open charge new_record
consume_locked_first true wall input st open_ e fresh limit = cc
consume_locked_first false wall input st open_ e fresh limit =
    let now = if eq_ℤ input.now_unix (pos 0) then wall else input.now_unix in
    (
      (_, refl),
      (
        open_,
        charge input now (new_record input now),
        answer_first (find input.id st.records) input now st.records fresh limit,
        refl,
      ),
    )

get_missing :
    (st : UsageStore) (id : String)
    → st.closed ≡ false
    → find id st.records ≡ none
    → get id st ≡ err not_found
unfolding get
get_missing st id open_ fresh = rw (open_, fresh)

get_found :
    (st : UsageStore) (id : String) {rec : UsageRecord}
    → st.closed ≡ false
    → find id st.records ≡ some rec
    → get id st ≡ ok rec
unfolding get
get_found st id open_ found = rw (open_, found)

module _ (g : Platform) (k : Crypto) {C : Type 0} (s : Service UsageStore C) where
  bind_consumed_ok :
      (id mode : String) (r : Fallible StoreError ConsumeResult) {cr : ConsumeResult}
      → r ≡ ok cr
      → bind_consumed g k s id mode r ≡ ok tt
  unfolding bind_consumed
  bind_consumed_ok id mode (ok cr) e = refl
  bind_consumed_ok id mode (err f) e = cc

  bind_first :
      (o : Option (UsageOps UsageStore)) (wall : ℤ) (input : ConsumeInput) (st : UsageStore)
      → o ≡ some (usage_ops wall)
      → st.closed ≡ false
      → find input.id st.records ≡ none
      → input.max_uses ≡ pos 1
      → ((bind_with g k s o input st).1 ≡ ok tt)
        × Bound input.id input.ip (bind_with g k s o input st).0
  unfolding bind_with bind_found usage_ops consume
  bind_first o wall input st e open_ fresh limit =
      let ((cr, answered), stored) =
        consume_locked_first st.closed wall input st refl open_ fresh limit in
      rw (e, get_missing st input.id open_ fresh)
        (bind_consumed_ok input.id input.mode _ answered, stored)

  bind_again :
      (o : Option (UsageOps UsageStore)) (wall : ℤ) (input : ConsumeInput) (st : UsageStore)
      (ip : String)
      → o ≡ some (usage_ops wall)
      → Bound input.id ip st
      → is_empty ip ≡ false
      → same_ip g k ip input.ip ≡ false
      → bind_with g k s o input st
        ≡ (st, err (maybe_dry_run s (deny_mode "ip_mismatch" input.mode)))
  unfolding bind_with bind_found usage_ops
  bind_again o wall input st ip e (open_, rec, found, first) given other =
      rw (e, get_found st input.id open_ found, first, given, other) refl

  -- Over an open memory store that has no record of the token's sign id, the binding accepts a request
  -- that has an address; the next request with the token and sign id, from an address that is not the
  -- same, is denied with "ip_mismatch" and leaves the store as it is; dry_run may rewrite that denial.
  pub bind_empty_ip_first_use_binds :
      (p : TokenPayload) (req req' : AuthRequest) (token_raw token_raw' sign mode : String)
      (bind_at bind_at' wall : ℤ) (st : UsageStore)
      → s.usage_store ≡ some (usage_ops wall)
      → st.closed ≡ false
      → find (compute_sign_id k p sign mode) st.records ≡ none
      → is_empty req.real_ip ≡ false
      → same_ip g k req.real_ip req'.real_ip ≡ false
      → let first = bind_empty_ip_first_use g k s p req token_raw sign mode bind_at st in
        (first.1 ≡ ok tt)
        × (bind_empty_ip_first_use g k s p req' token_raw' sign mode bind_at' first.0
            ≡ (first.0, err (maybe_dry_run s (deny_mode "ip_mismatch" mode))))
  unfolding bind_empty_ip_first_use consume_input
  bind_empty_ip_first_use_binds p req req' token_raw token_raw' sign mode bind_at bind_at' wall st e
        open_ fresh given other =
      let input = consume_input g k s p req token_raw sign mode bind_at (pos 1) true in
      let input' = consume_input g k s p req' token_raw' sign mode bind_at' (pos 1) true in
      let (accepted, stored) = bind_first s.usage_store wall input st e open_ fresh refl in
      (
        accepted,
        bind_again s.usage_store wall input' (bind_with g k s s.usage_store input st).0 req.real_ip
            e stored given other,
      )
