-- ===== src/Ledger.antt =====
-- The durable command ledger (src/autonomy/ledger.py): the three tables, and the statements that
-- the methods run on them. The time is an argument.
pub mod Laws
use autonomous_vehicle_llm.Base.{
  ℕ, ◌-◌, ◌^◌, String, Bool, not, ◌&&◌, Option, List, [], ◌∷◌, ◌++◌, Dict, lookup, insert, keep,
  is_some,
}
use autonomous_vehicle_llm.Base.Int.{ℤ, pos, negsuc, leb_ℤ}
use autonomous_vehicle_llm.Float.{FloatOps}

-- A row of `command_events`; its id is its place.
pub record CommandEvent (F : Type 0) : Type 0 where
  pub ts : F
  pub vehicle_id : String
  pub command_id : String
  pub idempotency_key : String
  pub status : String
  pub detail : Option String

pub record CommandLedger (F : Type 0) : Type 0 where
  -- `expires_at` by `idempotency_key`
  pub idempotency_keys : Dict F
  -- `last_ack_nonce` by `vehicle_id`
  pub vehicle_nonce : Dict ℤ
  pub command_events : List (CommandEvent F)

-- The tables that `_ensure_schema` creates.
abbrev pub new_ledger : {F : Type 0} → CommandLedger F
new_ledger = record { idempotency_keys = []; vehicle_nonce = []; command_events = [] }

-- An INTEGER column takes 64 bits.
abbrev pub fits_column : ℤ → Bool
fits_column n = leb_ℤ (negsuc (2 ^ 63 - 1)) n && leb_ℤ n (pos (2 ^ 63 - 1))

module _ {F : Type 0} ⦃fl : FloatOps F⦄ where
  -- `DELETE FROM idempotency_keys WHERE expires_at < now`
  abbrev pub purge : F → Dict F → Dict F
  purge now = keep (λ row. not (fl.lt row.1 now))

  unfoldable pub is_duplicate_idempotency_key :
      F → String → CommandLedger F → Bool × CommandLedger F
  is_duplicate_idempotency_key now key l =
      let rows = purge now l.idempotency_keys in
      (is_some (lookup key rows), record l { idempotency_keys = rows })

  unfoldable pub mark_idempotency_key : F → String → F → CommandLedger F → CommandLedger F
  mark_idempotency_key now key ttl_s l = record l {
    idempotency_keys = insert key (fl.add now ttl_s) l.idempotency_keys;
  }

module _ {F : Type 0} where
  abbrev pub get_last_ack_nonce : String → CommandLedger F → Option ℤ
  get_last_ack_nonce vehicle_id l = lookup vehicle_id l.vehicle_nonce

  abbrev pub update_last_ack_nonce : String → ℤ → CommandLedger F → CommandLedger F
  update_last_ack_nonce vehicle_id ack_nonce l = record l {
    vehicle_nonce = insert vehicle_id ack_nonce l.vehicle_nonce;
  }

  abbrev pub append_command_event : CommandEvent F → CommandLedger F → CommandLedger F
  append_command_event event l = record l { command_events = l.command_events ++ (event ∷ []) }
