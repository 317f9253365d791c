-- ===== src/Commission/System/Safety.antt =====
-- What holds of the commission's tables after any interleaving.
use devops_g_9_tillflow.Base.{ℕ, String, ◌≡◌, refl, sym, ◌∙◌, ap, subst, ◌⊎◌, inl, inr}
use devops_g_9_tillflow.Base.Table.{In}
use devops_g_9_tillflow.Base.Table.Update.{Rowwise-In, Rowwise-In_back}
use devops_g_9_tillflow.Commission.Tables.{
  LedgerState, LedgerRow, PayoutItem, Db, empty, ledger_ok, items_ok,
}
use devops_g_9_tillflow.Commission.Close.Day.{log_run}
use devops_g_9_tillflow.Commission.Close.Valid.{Valid, record_sale-Valid}
use devops_g_9_tillflow.Commission.Close.Effect.{
  Payout, Linked, Linked-refl, Linked-trans, Recorded, record_sale-Recorded, Closed,
  close_attendant-Closed,
}
use devops_g_9_tillflow.Commission.Disburse.Moves.{
  Moved, Moved-refl, Moved-trans, DbMoved, bump_backoff-Moved,
}
use devops_g_9_tillflow.Commission.Disburse.Pass.{handle_outcome-Moved, reconcile_state-Moved}
use devops_g_9_tillflow.Commission.System.{
  Step, sale, close, log, answer, check, no_answer, Reach, here, next,
}
use devops_g_9_tillflow.Commission.System.Kept.{DbMoved-Valid}

-- Any state that a row goes on to is accounted for.
abbrev pub Anyhow : String → LedgerState → Type 0
Anyhow id t = Unit {0}

-- From one state of the tables to a later one.
pub record Later (d e : Db) : Type 0 where
  pub rows :
      (p : LedgerRow)
      → In p d.payout_ledger
      → (q : LedgerRow) × In q e.payout_ledger × Moved Anyhow p q
  pub items :
      (i : PayoutItem) → In i d.payout_items → (j : PayoutItem) × In j e.payout_items × Linked i j

Later-refl : (d : Db) → Later d d
Later-refl d = record {
  rows = λ p m. (p, m, Moved-refl Anyhow p);
  items = λ i m. (i, m, Linked-refl i);
}

Later-trans : (d e f : Db) → Later d e → Later e f → Later d f
Later-trans d e f h k = record {
  rows = λ p m.
      let q = h.rows p m in
      let r = k.rows q.0 q.1 in (r.0, r.1, Moved-trans Anyhow p q.0 r.0 q.2 r.2);
  items = λ i m.
      let j = h.items i m in let l = k.items j.0 j.1 in (l.0, l.1, Linked-trans i j.0 l.0 j.2 l.2);
}

module _ (key_for : String → String → String → String) (m : ℕ) (held_label : String → String) where
  -- The constraints, and what the rows are like.
  pub record Good (d : Db) : Type 0 where
    pub valid : Valid d
    pub payouts : (p : LedgerRow) → In p d.payout_ledger → Payout key_for m p

  pub Good-empty : Good empty
  unfolding ledger_ok items_ok
  Good-empty = record { valid = record { ledger = refl; items = refl }; payouts = λ p n. absurd n }

  Payout-Moved : (p q : LedgerRow) → Moved Anyhow p q → Payout key_for m p → Payout key_for m q
  Payout-Moved p q h g = record {
    key = cc (h.key, g.key, h.tenant_id, h.attendant_id, h.business_date);
    whole = rw (h.amount) g.whole;
    least = rw (h.amount) g.least;
  }

  DbMoved-step : (d e : Db) → Good d → DbMoved Anyhow d e → Good e × Later d e
  DbMoved-step d e g h = (
    record {
      valid = DbMoved-Valid Anyhow d e h g.valid;
      payouts = λ q n.
          let r = Rowwise-In_back (Moved Anyhow) d.payout_ledger e.payout_ledger h.rows n in
          Payout-Moved r.0 q r.2 (g.payouts r.0 r.1);
    },
    record {
      rows = λ p n. Rowwise-In (Moved Anyhow) d.payout_ledger e.payout_ledger h.rows n;
      items = λ i n. (i, subst (In i) (sym h.items) n, Linked-refl i);
    },
  )

  Recorded-step : (d e : Db) → Good d → Valid e → Recorded d e → Good e × Later d e
  Recorded-step d e g v h = (
    record { valid = v; payouts = λ p n. g.payouts p (subst (In p) h.ledger n) },
    record {
      rows = λ p n. (p, subst (In p) (sym h.ledger) n, Moved-refl Anyhow p);
      items = λ i n. (i, h.items i n, Linked-refl i);
    },
  )

  Closed-step : (d e : Db) → Good d → Closed key_for m d e → Good e × Later d e
  Closed-step d e g h = (
    record { valid = h.ok g.valid; payouts = λ p n. known p (h.planned p n) },
    record {
      rows = λ p n. (p, h.rows p n, Moved-refl Anyhow p);
      items = λ i n. Rowwise-In Linked d.payout_items e.payout_items h.items n;
    },
  )
    where
      known : (p : LedgerRow) → In p d.payout_ledger ⊎ Payout key_for m p → Payout key_for m p
      known p (inl n) = g.payouts p n
      known p (inr x) = x

  same_tables :
      (d e : Db)
      → Good d
      → e.payout_ledger ≡ d.payout_ledger
      → e.payout_items ≡ d.payout_items
      → Good e × Later d e
  same_tables d e g h k =
      Recorded-step d e g
        (record { ledger = ap ledger_ok h ∙ g.valid.ledger; items = ap items_ok k ∙ g.valid.items })
        (record { ledger = h; items = λ i n. subst (In i) (sym k) n })

  Step-result : (d e : Db) → Good d → Step key_for m held_label d e → Good e × Later d e
  unfolding log_run
  Step-result d e g (sale t b a h) =
      Recorded-step d e g (record_sale-Valid t b a d g.valid h) (record_sale-Recorded t b a d h)
  Step-result d e g (close t a b msisdn id now closed h) =
      Closed-step d e g (close_attendant-Closed key_for t a b msisdn id now m d h)
  Step-result d e g (log t b seen closed ran_at h) =
      same_tables d e g (ap (λ (x : Db). x.payout_ledger) h) (ap (λ (x : Db). x.payout_items) h)
  Step-result d e g (answer now row status r h) = DbMoved-step d e g (
      subst (DbMoved Anyhow d) (sym h)
        (handle_outcome-Moved Anyhow now row held_label status r d _ refl (λ t a. tt)))
  Step-result d e g (check now row r h) = DbMoved-step d e g (
      subst (DbMoved Anyhow d) (sym h)
        (reconcile_state-Moved Anyhow now row r d _ refl (λ t a. tt)))
  Step-result d e g (no_answer now row h) =
      DbMoved-step d e g (subst (DbMoved Anyhow d) (sym h) (bump_backoff-Moved Anyhow now row d))

  pub Reach-result : (d e : Db) → Good d → Reach key_for m held_label d e → Good e × Later d e
  Reach-result d e g here = (g, Later-refl d)
  Reach-result d e g (next {d = c} r s) =
      let k = Reach-result d c g r in
      let l = Step-result c e k.0 s in (l.0, Later-trans d c e k.1 l.1)
