-- ===== src/Commission/Disburse/Moves.antt =====
-- How the passes of disburse.py move payout rows.
use devops_g_9_tillflow.Base.{
  ℕ, ◌<◌, String, ◌≡◌, refl, sym, ◌∙◌, subst, ◌⊎◌, inl, inr, true, arith, eq_iff,
}
use devops_g_9_tillflow.Base.Table.{Rowwise}
use devops_g_9_tillflow.Base.Table.Update.{Rowwise-refl, Rowwise-trans, Rowwise-update}
use devops_g_9_tillflow.Commission.Tables.{
  LedgerState, LedgerRow, Db, same_state, AnomalyKind, Severity,
}
use devops_g_9_tillflow.Commission.Disburse.{anomaly, is_row_in, update_row, bump_backoff}

-- PLANNED, REQUESTED, and then SUCCEEDED or FAILED.
abbrev pub rank : LedgerState → ℕ
rank LedgerState.planned = 0
rank LedgerState.requested = 1
rank LedgerState.succeeded = 2
rank LedgerState.failed = 2

pub same_state-eq : (s t : LedgerState) → same_state s t ≡ true → s ≡ t
unfolding same_state
same_state-eq LedgerState.planned LedgerState.planned h = refl
same_state-eq LedgerState.requested LedgerState.requested h = refl
same_state-eq LedgerState.succeeded LedgerState.succeeded h = refl
same_state-eq LedgerState.failed LedgerState.failed h = refl
same_state-eq LedgerState.planned LedgerState.requested h = absurd (cc h)
same_state-eq LedgerState.planned LedgerState.succeeded h = absurd (cc h)
same_state-eq LedgerState.planned LedgerState.failed h = absurd (cc h)
same_state-eq LedgerState.requested LedgerState.planned h = absurd (cc h)
same_state-eq LedgerState.requested LedgerState.succeeded h = absurd (cc h)
same_state-eq LedgerState.requested LedgerState.failed h = absurd (cc h)
same_state-eq LedgerState.succeeded LedgerState.planned h = absurd (cc h)
same_state-eq LedgerState.succeeded LedgerState.requested h = absurd (cc h)
same_state-eq LedgerState.succeeded LedgerState.failed h = absurd (cc h)
same_state-eq LedgerState.failed LedgerState.planned h = absurd (cc h)
same_state-eq LedgerState.failed LedgerState.requested h = absurd (cc h)
same_state-eq LedgerState.failed LedgerState.succeeded h = absurd (cc h)

-- The row is the same payout; its state stays, or goes on to one that `Says` accounts for.
pub record Moved (Says : String → LedgerState → Type 0) (p q : LedgerRow) : Type 0 where
  pub id : q.id ≡ p.id
  pub tenant_id : q.tenant_id ≡ p.tenant_id
  pub attendant_id : q.attendant_id ≡ p.attendant_id
  pub business_date : q.business_date ≡ p.business_date
  pub amount : q.amount_minor ≡ p.amount_minor
  pub key : q.idempotency_key ≡ p.idempotency_key
  pub goes : (q.state ≡ p.state) ⊎ ((rank p.state < rank q.state) × Says p.id q.state)

-- What the passes leave alone, and what becomes of the rows.
pub record DbMoved (Says : String → LedgerState → Type 0) (d e : Db) : Type 0 where
  pub rows : Rowwise (Moved Says) d.payout_ledger e.payout_ledger
  pub items : e.payout_items ≡ d.payout_items
  pub carry : e.carry_forward ≡ d.carry_forward

module _ (Says : String → LedgerState → Type 0) where
  abbrev M : LedgerRow → LedgerRow → Type 0
  M = Moved Says

  pub Moved-refl : (p : LedgerRow) → Moved Says p p
  Moved-refl p = record {
    id = refl;
    tenant_id = refl;
    attendant_id = refl;
    business_date = refl;
    amount = refl;
    key = refl;
    goes = inl refl;
  }

  onward :
      (p q r : LedgerRow)
      → q.id ≡ p.id
      → (q.state ≡ p.state) ⊎ ((rank p.state < rank q.state) × Says p.id q.state)
      → (r.state ≡ q.state) ⊎ ((rank q.state < rank r.state) × Says q.id r.state)
      → (r.state ≡ p.state) ⊎ ((rank p.state < rank r.state) × Says p.id r.state)
  onward p q r same (inl e) (inl f) = inl (f ∙ e)
  onward p q r same (inl e) (inr (l, s)) =
      inr (subst (λ x. rank x < rank r.state) e l, subst (λ x. Says x r.state) same s)
  onward p q r same (inr (l, s)) (inl f) =
      inr (subst (λ x. rank p.state < rank x) (sym f) l, subst (Says p.id) (sym f) s)
  onward p q r same (inr (l, s)) (inr (l', s')) =
      inr (omega arith, subst (λ x. Says x r.state) same s')

  pub Moved-trans : (p q r : LedgerRow) → Moved Says p q → Moved Says q r → Moved Says p r
  Moved-trans p q r h k = record {
    id = k.id ∙ h.id;
    tenant_id = k.tenant_id ∙ h.tenant_id;
    attendant_id = k.attendant_id ∙ h.attendant_id;
    business_date = k.business_date ∙ h.business_date;
    amount = k.amount ∙ h.amount;
    key = k.key ∙ h.key;
    goes = onward p q r h.id h.goes k.goes;
  }

  pub DbMoved-refl : (d : Db) → DbMoved Says d d
  DbMoved-refl d = record {
    rows = Rowwise-refl M Moved-refl d.payout_ledger;
    items = refl;
    carry = refl;
  }

  pub DbMoved-trans : (d e f : Db) → DbMoved Says d e → DbMoved Says e f → DbMoved Says d f
  DbMoved-trans d e f h k = record {
    rows =
        Rowwise-trans M Moved-trans d.payout_ledger e.payout_ledger f.payout_ledger h.rows k.rows;
    items = k.items ∙ h.items;
    carry = k.carry ∙ h.carry;
  }

  -- A statement that moves the row of one id, where it is still in the state that was read.
  pub update_row-Moved :
      (id : String) (s : LedgerState) (f : LedgerRow → LedgerRow) (d : Db)
      → ((q : LedgerRow) → q.id ≡ id → q.state ≡ s → Moved Says q (f q))
      → DbMoved Says d (update_row id s f d)
  unfolding update_row is_row_in
  update_row-Moved id s f d h = record {
    rows =
        Rowwise-update M (is_row_in id s) f Moved-refl d.payout_ledger
          (λ q m c. h q (ground (arith, eq_iff q.id id)) (same_state-eq q.state s (ground arith)));
    items = refl;
    carry = refl;
  }

  -- Writing the new state, if it is accounted for.
  pub Moved-to :
      (q r : LedgerRow) (id : String) {s : LedgerState}
      → q.id ≡ id
      → q.state ≡ s
      → rank s < rank r.state
      → Says id r.state
      → (r.id ≡ q.id)
        × (r.tenant_id ≡ q.tenant_id)
        × (r.attendant_id ≡ q.attendant_id)
        × (r.business_date ≡ q.business_date)
        × (r.amount_minor ≡ q.amount_minor)
        × (r.idempotency_key ≡ q.idempotency_key)
      → Moved Says q r
  Moved-to q r id i e l s same = record {
    id = same.0;
    tenant_id = same.1;
    attendant_id = same.2;
    business_date = same.3;
    amount = same.4;
    key = same.5;
    goes =
        inr (subst (λ x. rank x < rank r.state) (sym e) l, subst (λ x. Says x r.state) (sym i) s);
  }

  pub bump_backoff-Moved :
      (now : ℕ) (row : LedgerRow) (d : Db) → DbMoved Says d (bump_backoff now row d)
  unfolding bump_backoff
  bump_backoff-Moved now row d = record {
    rows = Rowwise-update M _ _ Moved-refl d.payout_ledger (λ q m c. record {
      id = refl;
      tenant_id = refl;
      attendant_id = refl;
      business_date = refl;
      amount = refl;
      key = refl;
      goes = inl refl;
    });
    items = refl;
    carry = refl;
  }

  pub anomaly-Moved :
      (k : AnomalyKind) (s : Severity) (now : ℕ) (row : LedgerRow) (d e : Db)
      → DbMoved Says d e
      → DbMoved Says d (anomaly k s now row e)
  unfolding anomaly
  anomaly-Moved k s now row d e h = record { rows = h.rows; items = h.items; carry = h.carry }
