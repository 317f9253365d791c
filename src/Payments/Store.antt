-- ===== src/Payments/Store.antt =====
-- The operations of `Store` in services/payments/core/store.py. What they log, count and trace has
-- no effect on the tables and is left out.
pub mod Payment
pub mod Disbursement
use devops_g_9_tillflow.Base.{
  ℕ, ◌+◌, String, Bool, true, false, not, Option, none, some, List, [], ◌∷◌, ◌==◌, if◌then◌else◌,
}
use devops_g_9_tillflow.Base.Table.{find?, any_where, update_where}
use devops_g_9_tillflow.Payments.Tables.{
  Operation, PublicBody, IdemRow, IdemStatus, EntryType, LedgerEntry, EventType, OutboxRow,
  CallbackRow, UnmatchedRow, AnomalyKind, Severity, AnomalyRow, FlagRow, Db,
}
use devops_g_9_tillflow.Payments.Schema.{
  has_idem_key, ledger_clash, outbox_clash, callbacks_clash, unmatched_clash,
}
use devops_g_9_tillflow.Payments.Tx.{Tx, integrity_error, pure, raise, gets, modify, ◌>>=◌, ◌>>◌}

unfoldable pub idem_lookup : String → Operation → String → Db → Option IdemRow
idem_lookup tenant operation key d = find? (has_idem_key tenant operation key) d.idempotency_keys

pub data Verdict : Type 0 where
  new mismatch replay in_flight : Verdict

unfoldable pub idem_classify : Option IdemRow → String → Verdict
idem_classify none fingerprint = Verdict.new
idem_classify (some row) fingerprint =
    if row.request_fingerprint == fingerprint
    then elim row.status [
      | IdemStatus.completed ↦ Verdict.replay
      | IdemStatus.in_flight ↦ Verdict.in_flight
    ]
    else Verdict.mismatch

-- INSERT; the primary key refuses a second row.
unfoldable pub idem_begin : String → Operation → String → String → ℕ → ℕ → Tx (Unit {0})
idem_begin tenant operation key fingerprint now ttl = do
  taken ← gets (λ d. any_where (has_idem_key tenant operation key) d.idempotency_keys)
  if taken
      then raise integrity_error
      else modify (λ d. record d {
        idempotency_keys =
            record {
              tenant_id = tenant;
              operation = operation;
              idem_key = key;
              request_fingerprint = fingerprint;
              status = IdemStatus.in_flight;
              response_code = none;
              response_body = none;
              resource_id = none;
              created_at = now;
              expires_at = now + ttl;
            }
            ∷ d.idempotency_keys;
      })

unfoldable pub idem_complete : String → Operation → String → ℕ → PublicBody → String → Tx (Unit {0})
idem_complete tenant operation key code body resource = modify (λ d. record d {
  idempotency_keys =
      update_where (has_idem_key tenant operation key)
        (λ r. record r {
          status = IdemStatus.completed;
          response_code = some code;
          response_body = some body;
          resource_id = some resource;
        })
        d.idempotency_keys;
})

-- INSERT … ON CONFLICT DO NOTHING; the reference is NOT NULL.
unfoldable pub ledger :
    (tenant_id record_id : String) (entry_type : EntryType) (amount_minor : ℕ)
    (currency provider : String) (provider_ref receipt : Option String) (now : ℕ)
    → Tx Bool
ledger tenant_id record_id entry_type amount_minor currency provider none receipt now d =
    raise integrity_error d
ledger tenant_id record_id entry_type amount_minor currency provider (some ref) receipt now d =
    let e : LedgerEntry = record {
      tenant_id = tenant_id;
      record_id = record_id;
      entry_type = entry_type;
      amount_minor = amount_minor;
      currency = currency;
      provider = provider;
      provider_ref = ref;
      receipt = receipt;
      created_at = now;
    } in
    if any_where (ledger_clash e) d.ledger_entries
    then pure false d
    else pure true (record d { ledger_entries = e ∷ d.ledger_entries })

unfoldable pub outbox :
    (aggregate_id : String) (event_type : EventType) (tenant_id : String) (amount_minor now : ℕ)
    → Tx Bool
outbox aggregate_id event_type tenant_id amount_minor now d =
    let r : OutboxRow = record {
      aggregate_id = aggregate_id;
      event_type = event_type;
      tenant_id = tenant_id;
      amount_minor = amount_minor;
      created_at = now;
    } in
    if any_where (outbox_clash r) d.outbox
    then pure false d
    else pure true (record d { outbox = r ∷ d.outbox })

unfoldable pub anomaly :
    (kind : AnomalyKind) (severity : Severity) (record_id provider_ref : Option String) (now : ℕ)
    → Tx (Unit {0})
anomaly kind severity record_id provider_ref now = modify (λ d. record d {
  anomalies =
      record {
        kind = kind;
        severity = severity;
        record_id = record_id;
        provider_ref = provider_ref;
        created_at = now;
      }
      ∷ d.anomalies;
})

-- INSERT INTO provider_callbacks … ON CONFLICT DO NOTHING
unfoldable pub record_callback : CallbackRow → Tx (Unit {0})
record_callback r = modify (λ d.
    if any_where (callbacks_clash r) d.provider_callbacks
    then d
    else record d { provider_callbacks = r ∷ d.provider_callbacks })

-- INSERT INTO unmatched_callbacks … ON CONFLICT DO NOTHING
unfoldable pub record_unmatched : UnmatchedRow → Tx (Unit {0})
record_unmatched r = modify (λ d.
    if any_where (unmatched_clash r) d.unmatched_callbacks
    then d
    else record d { unmatched_callbacks = r ∷ d.unmatched_callbacks })

unfoldable pub get_flag : String → Bool → Db → Bool
get_flag name default d = elim (find? (λ (f : FlagRow). f.name == name) d.flags) [
  | none ↦ default
  | some row ↦ row.value
]

unfoldable pub set_flag : String → Bool → ℕ → Tx (Unit {0})
set_flag name value now = modify (λ d.
    if any_where (λ f. f.name == name) d.flags
    then record d {
      flags =
          update_where (λ f. f.name == name) (λ f. record f { value = value; updated_at = now })
            d.flags;
    }
    else record d { flags = record { name = name; value = value; updated_at = now } ∷ d.flags })
