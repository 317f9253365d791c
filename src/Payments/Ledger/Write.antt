-- ===== src/Payments/Ledger/Write.antt =====
-- What a call of `Store.ledger` that returned has done.
use devops_g_9_tillflow.Base.{
  ℕ, String, ◌≡◌, refl, ◌⊎◌, true, false, Bool, Option, none, some, ◌∷◌, arith,
}
use devops_g_9_tillflow.Base.Table.{any_where}
use devops_g_9_tillflow.Payments.Common.{provider}
use devops_g_9_tillflow.Payments.Tables.{LedgerEntry, Db}
use devops_g_9_tillflow.Payments.Schema.{ledger_clash}
use devops_g_9_tillflow.Payments.Tx.{ok}
use devops_g_9_tillflow.Payments.Store.{ledger}
use devops_g_9_tillflow.Payments.Ledger.{Reading, Entry}

-- The call found a reference, and wrote the record's entry unless its key was taken.
abbrev pub Written : {R : Type 0} → Reading R → R → Db → Db → Type 0
Written g p d e =
    (x : LedgerEntry) × Entry g p x
    × ((any_where (ledger_clash x) d.ledger_entries ≡ true)
        ⊎ (any_where (ledger_clash x) d.ledger_entries ≡ false)
          × (e ≡ record d { ledger_entries = x ∷ d.ledger_entries }))

module _ {R : Type 0} (g : Reading R) (p : R) (tenant currency : String) (receipt : Option String)
    (now : ℕ) (d : Db) where
  with_ref :
      (ref : Option String) {b : Bool} {e : Db}
      → g.ref p ≡ ref
      → ledger tenant (g.id p) g.kind (g.amount p) currency provider ref receipt now d ≡ ok b e
      → Written g p d e
  unfolding ledger
  with_ref none q h = absurd (cc h)
  with_ref (some r) q h = (
    record {
      tenant_id = tenant;
      record_id = g.id p;
      entry_type = g.kind;
      amount_minor = g.amount p;
      currency = currency;
      provider = provider;
      provider_ref = r;
      receipt = receipt;
      created_at = now;
    },
    record {
      entry_type = refl;
      record_id = refl;
      amount_minor = refl;
      provider_ref = q;
      of_provider = refl;
    },
    ground arith,
  )

  pub ledger-Written :
      {b : Bool} {e : Db}
      → ledger tenant (g.id p) g.kind (g.amount p) currency provider (g.ref p) receipt now d
        ≡ ok b e
      → Written g p d e
  ledger-Written h = with_ref (g.ref p) refl h
