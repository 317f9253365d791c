-- ===== src/Payments/PayoutSystem/Books.antt =====
-- What holds of the payouts after any interleaving.
use devops_g_9_tillflow.Base.{◌≡◌, refl, sym, ◌∙◌, ap, subst, inr, true, if◌then◌else◌}
use devops_g_9_tillflow.Base.Table.{In, sum_of}
use devops_g_9_tillflow.Base.Table.Update.{Rowwise-In}
use devops_g_9_tillflow.Payments.States.{check_disbursement_transition, is_terminal_disbursement}
use devops_g_9_tillflow.Payments.States.Machine.{Chain, terminal_disbursement_is_final}
use devops_g_9_tillflow.Payments.Tables.{DisbursementRow, Db, empty}
use devops_g_9_tillflow.Payments.Schema.{disbursements_ok, is_live_disbursement}
use devops_g_9_tillflow.Payments.Service.{Settings}
use devops_g_9_tillflow.Payments.Store.{anomaly}
use devops_g_9_tillflow.Payments.Payout.Create.{finish_create}
use devops_g_9_tillflow.Payments.Payout.Reconcile.{debit_count, inconclusive, sweep_tx}
use devops_g_9_tillflow.Payments.Ledger.{ledger_unique, moved_by, booked}
use devops_g_9_tillflow.Payments.Ledger.Count.{count_where-Books}
use devops_g_9_tillflow.Payments.Debit.{
  Balanced, Kept, Kept-refl, Kept-trans, is_paid, payouts_read,
}
use devops_g_9_tillflow.Payments.Debit.Keys.{disbursement_id_unique, live_payout_unique}
use devops_g_9_tillflow.Payments.Debit.Statements.{anomaly-IsSteady}
use devops_g_9_tillflow.Payments.Debit.Service.{
  finish_create-IsSteady, inconclusive-IsSteady, sweep_tx-IsSteady,
}
use devops_g_9_tillflow.Payments.Debit.Advance.{Advanced, steady_ok}
use devops_g_9_tillflow.Payments.Debit.Transactions.{apply_result_ok, apply_status_ok}
use devops_g_9_tillflow.Payments.Debit.Begin.{begin_tx-ok, Balanced-Opened}
use devops_g_9_tillflow.Payments.PayoutSystem
use devops_g_9_tillflow.Payments.PayoutSystem.{
  Step, begin, finish, result, reconcile, give_up, sweep, note, Reach, next,
}

-- What a step brings: the books still agree, and every disbursement is still there.
abbrev Result : Db → Db → Type 0
Result d e =
    Balanced e
    × ((p : DisbursementRow)
        → In p d.disbursements
        → (q : DisbursementRow) × In q e.disbursements × Kept p q)

Advanced-Result : (d e : Db) → Advanced d e → Result d e
Advanced-Result d e h =
    (h.balanced, λ p m. Rowwise-In Kept d.disbursements e.disbursements h.rows m)

Balanced-empty : Balanced empty
unfolding ledger_unique sum_of disbursements_ok
Balanced-empty = record {
  valid = refl;
  books = record { paid = λ p m. absurd m; owned = λ e m. absurd m; unique = refl; total = refl };
}

module _ (cfg : Settings) where
  Step-result : (d e : Db) → Balanced d → Step cfg d e → Result d e
  Step-result d e b (begin now id originator payout_key key fp req h) =
      let o = begin_tx-ok cfg now id originator payout_key key fp req d h in
      (
        Balanced-Opened cfg now id originator payout_key key fp req b o,
        λ p m. (p, subst (In p) (sym o.rows) (inr m), Kept-refl p),
      )
  Step-result d e b (finish now id tenant key answer body h) = Advanced-Result d e (
      steady_ok (finish_create now id tenant key answer) d
        (finish_create-IsSteady now id tenant key answer) b h)
  Step-result d e b (result now event outcome h) =
      Advanced-Result d e (apply_result_ok now event d b h)
  Step-result d e b (reconcile now id status answer h) =
      Advanced-Result d e (apply_status_ok now id status d b h)
  Step-result d e b (give_up now id state h) =
      Advanced-Result d e
        (steady_ok (inconclusive cfg now id) d (inconclusive-IsSteady cfg now id) b h)
  Step-result d e b (sweep now counts h) =
      Advanced-Result d e (steady_ok (sweep_tx cfg now) d (sweep_tx-IsSteady cfg now) b h)
  Step-result d e b (note now kind severity id ref h) = Advanced-Result d e (
      steady_ok (anomaly kind severity id ref now) d (anomaly-IsSteady kind severity id ref now) b
        h)

  Reach-result : (d e : Db) → Balanced d → Reach cfg d e → Result d e
  Reach-result d e b PayoutSystem.here = (b, λ p m. (p, m, Kept-refl p))
  Reach-result d e b (next {d = c} r s) =
      let k = Reach-result d c b r in
      let l = Step-result c e k.0 s in
      (
        l.0,
        λ p m. let q = k.1 p m in let x = l.1 q.0 q.1 in (x.0, x.1, Kept-trans p q.0 x.0 q.2 x.2),
      )

  abbrev reached : {d : Db} → Reach cfg empty d → Balanced d
  reached {d} r = (Reach-result empty d Balanced-empty r).0

  -- After any interleaving of payout requests, provider answers, result callbacks, reconciliations and
  -- sweeps from the empty tables, a disbursement has exactly one debit in the ledger if it has SUCCEEDED,
  -- and none otherwise.
  pub one_debit_per_payout :
      {d : Db}
      → Reach cfg empty d
      → (p : DisbursementRow) → In p d.disbursements
      → debit_count p.disbursement_id d ≡ (if is_paid p.state then 1 else 0)
  unfolding debit_count
  one_debit_per_payout {d} r p m =
      let b = reached r in
      count_where-Books payouts_read d.disbursements d.ledger_entries b.books p m
        (λ q n e. disbursement_id_unique d.disbursements b.valid n m e)

  -- After any interleaving from the empty tables, the debits of the ledger sum to the amounts of the
  -- disbursements that have SUCCEEDED.
  pub debits_sum_to_payouts :
      {d : Db}
      → Reach cfg empty d
      → sum_of (booked payouts_read) d.ledger_entries
        ≡ sum_of (moved_by payouts_read) d.disbursements
  debits_sum_to_payouts r = (reached r).books.total

  -- After any interleaving from the empty tables, two disbursements for one payout key that have both not
  -- FAILED are the same row, so a payout is never under way twice.
  pub one_live_disbursement_per_payout :
      {d : Db} (p q : DisbursementRow)
      → Reach cfg empty d
      → In p d.disbursements
      → In q d.disbursements
      → is_live_disbursement p.state ≡ true
      → is_live_disbursement q.state ≡ true
      → p.payout_key ≡ q.payout_key
      → p ≡ q
  one_live_disbursement_per_payout {d} p q r m n lp lq e =
      live_payout_unique d.disbursements (reached r).valid m n lp lq e

  -- From any state that the payouts reach, and however the requests interleave from there, a disbursement
  -- is never deleted, keeps its id, amount and payout key, and its state changes only along transitions
  -- that the state table allows.
  pub disbursements_move_legally :
      {d e : Db}
      → Reach cfg empty d
      → Reach cfg d e
      → (p : DisbursementRow) → In p d.disbursements
      → (q : DisbursementRow) × In q e.disbursements
        × (q.disbursement_id ≡ p.disbursement_id)
        × (q.amount_minor ≡ p.amount_minor)
        × (q.payout_key ≡ p.payout_key)
        × Chain check_disbursement_transition p.state q.state
  disbursements_move_legally {d} {e} r s p m =
      let q = (Reach-result d e (reached r) s).1 p m in
      (q.0, q.1, q.2.id, q.2.amount, q.2.payout_key, q.2.chain)

  -- A disbursement that has SUCCEEDED or FAILED in a state that the payouts reach has the same state ever
  -- after.
  pub terminal_disbursements_stay :
      {d e : Db} (p q : DisbursementRow)
      → Reach cfg empty d
      → Reach cfg d e
      → In p d.disbursements
      → In q e.disbursements
      → q.disbursement_id ≡ p.disbursement_id
      → is_terminal_disbursement p.state ≡ true
      → q.state ≡ p.state
  terminal_disbursements_stay {d} {e} p q r s m n same t =
      let k = Reach-result d e (reached r) s in
      let x = k.1 p m in
      let one : x.0 ≡ q =
        disbursement_id_unique e.disbursements k.0.valid x.1 n (x.2.id ∙ sym same) in
      ap (λ (y : DisbursementRow). y.state) (sym one)
      ∙ sym (terminal_disbursement_is_final x.2.chain t)
