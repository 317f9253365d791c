-- ===== src/Payments/Debit/Begin.antt =====
-- The first transaction of `create_payout` and the books.
use devops_g_9_tillflow.Base.{
  ℕ, String, ◌≡◌, inl, inr, refl, sym, ◌∙◌, ap, subst, true, false, ◌∷◌, arith, Bool-cases,
}
use devops_g_9_tillflow.Base.Table.{any_where}
use devops_g_9_tillflow.Payments.Tables.{DisbursementRow, disbursement_create, Operation, Db}
use devops_g_9_tillflow.Payments.Schema.{disbursements_ok, has_idem_key}
use devops_g_9_tillflow.Payments.Tx.{ok, after, pure, >>=-ok, ◌>>◌}
use devops_g_9_tillflow.Payments.Store.{idem_lookup, idem_classify, idem_begin}
use devops_g_9_tillflow.Payments.Store.Disbursement.{insert_disbursement}
use devops_g_9_tillflow.Payments.Service.{Settings}
use devops_g_9_tillflow.Payments.Collect.Create.{begun}
use devops_g_9_tillflow.Payments.Credit.Begin.{by_verdict-begun}
use devops_g_9_tillflow.Payments.Payout.Parse.{PayoutRequest}
use devops_g_9_tillflow.Payments.Payout.Create.{
  new_disbursement, begin_tx, open_attempt, idem_reply,
}
use devops_g_9_tillflow.Payments.Ledger.{Books, Books-cons}
use devops_g_9_tillflow.Payments.Debit.{payouts_read, Balanced, is_paid}

-- What the first transaction has done when the provider is to be called.
pub record Opened (p : DisbursementRow) (d e : Db) : Type 0 where
  pub ledger : e.ledger_entries ≡ d.ledger_entries
  pub rows : e.disbursements ≡ p ∷ d.disbursements
  pub valid : disbursements_ok (p ∷ d.disbursements) ≡ true

idem_begin-ok :
    (tenant : String) (op : Operation) (key fp : String) (now ttl : ℕ) (d : Db) {e : Db}
    → idem_begin tenant op key fp now ttl d ≡ ok tt e
    → (e.disbursements ≡ d.disbursements) × (e.ledger_entries ≡ d.ledger_entries)
unfolding idem_begin
idem_begin-ok tenant op key fp now ttl d {e} h =
    elim (Bool-cases (any_where (has_idem_key tenant op key) d.idempotency_keys)) [
      | inl taken ↦ absurd (cc (rw taken at h))
      | inr free ↦
          let q = ap after (rw free at h) in
          (ap (λ x. x.disbursements) (sym q), ap (λ x. x.ledger_entries) (sym q))
    ]

insert_disbursement-ok :
    (p : DisbursementRow) (d : Db) {e : Db}
    → insert_disbursement p d ≡ ok tt e
    → (disbursements_ok (p ∷ d.disbursements) ≡ true)
      × (e ≡ record d { disbursements = p ∷ d.disbursements })
unfolding insert_disbursement
insert_disbursement-ok p d {e} h = ground arith

module _ (cfg : Settings) (now : ℕ) (id originator payout_key key fp : String)
    (req : PayoutRequest) where
  pub begin_tx-ok :
      (d : Db) {e : Db}
      → begin_tx cfg now id originator payout_key key fp req d ≡ ok begun e
      → Opened (new_disbursement id originator payout_key key req now) d e
  unfolding begin_tx open_attempt idem_reply
  begin_tx-ok d {e} h =
      let attempt = open_attempt cfg now id originator payout_key key fp req in
      let row = idem_lookup req.tenant_id disbursement_create key d in
      let p = new_disbursement id originator payout_key key req now in
      let v = by_verdict-begun attempt row (idem_classify row fp) d h in
      let insert = insert_disbursement p in
      let r =
        >>=-ok (idem_begin req.tenant_id disbursement_create key fp now cfg.idempotency_ttl_seconds)
          (λ _. insert >> pure begun) d v.1 in
      let k =
        idem_begin-ok req.tenant_id disbursement_create key fp now cfg.idempotency_ttl_seconds d
          r.2 in
      let r' = >>=-ok insert (λ _. pure begun) r.1 r.3 in
      let w = insert_disbursement-ok p r.1 r'.2 in
      let q = ap after r'.3 in
      record {
        ledger = ap (λ x. x.ledger_entries) (sym q ∙ w.1) ∙ k.1;
        rows = ap (λ x. x.disbursements) (sym q ∙ w.1) ∙ ap (λ ps. p ∷ ps) k.0;
        valid = subst (λ ps. disbursements_ok (p ∷ ps) ≡ true) k.0 w.0;
      }

  fresh_unpaid : is_paid (new_disbursement id originator payout_key key req now).state ≡ false
  unfolding is_paid new_disbursement
  fresh_unpaid = refl

  pub Balanced-Opened :
      {d e : Db}
      → Balanced d
      → Opened (new_disbursement id originator payout_key key req now) d e
      → Balanced e
  Balanced-Opened {d} {e} b h = record {
    valid = rw h.rows h.valid;
    books = subst (Books payouts_read e.disbursements) (sym h.ledger) (
        subst (λ ps. Books payouts_read ps d.ledger_entries) (sym h.rows)
          (Books-cons payouts_read (new_disbursement id originator payout_key key req now)
            d.disbursements fresh_unpaid b.books));
  }
