-- ===== src/Storage/Types.antt =====
-- internal/storage/store.go and errors.go. An int64 is a ℤ; a count of uses, which starts at 0 and
-- is only incremented, is a number.
use hustmirrors_waf_backend.Base.{ℕ, String, Bool, Fallible}
use hustmirrors_waf_backend.Base.Int.{ℤ}

pub data StoreError : Type 0 where
  not_found closed_store invalid_window : StoreError
  -- what a backend outside the program reports
  backend : String → StoreError

pub record ConsumeInput : Type 0 where
  pub id : String
  pub mode : String
  pub path : String
  pub sign : String
  pub token_hash : String
  pub expires_at : ℤ
  pub max_uses : ℤ
  pub ip : String
  pub user_agent : String
  pub now_unix : ℤ
  pub grace_seconds : ℤ
  pub skip_consume : Bool

pub record ConsumeResult : Type 0 where
  pub allowed : Bool
  pub uses : ℕ
  pub max_uses : ℤ
  pub reason : String

pub record UsageRecord : Type 0 where
  pub id : String
  pub mode : String
  pub path : String
  pub sign : String
  pub token_hash : String
  pub uses : ℕ
  pub max_uses : ℤ
  pub first_ip : String
  pub last_ip : String
  pub user_agent : String
  pub expires_at : ℤ
  pub created_at : ℤ
  pub updated_at : ℤ

-- The operations of the interface UsageStore that request handling calls, over the states of a
-- store.
pub record UsageOps (S : Type 0) : Type 0 where
  pub consume : ConsumeInput → S → S × Fallible StoreError ConsumeResult
  pub get : String → S → Fallible StoreError UsageRecord

-- The operations of the interface CounterStore that the registry calls. Incr gives the count and what is
-- left of the window.
pub record CounterStoreOps (C : Type 0) : Type 0 where
  pub incr : (name key : String) (window : ℤ) → C → C × Fallible StoreError (ℤ × ℕ)
  pub get : (name key : String) (window : ℤ) → C → Fallible StoreError ℤ
