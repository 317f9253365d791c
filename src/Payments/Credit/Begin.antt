-- ===== src/Payments/Credit/Begin.antt =====
-- The first transaction of `create_payment` and the books.
use devops_g_9_tillflow.Base.{
  ℕ, String, ◌≡◌, ◌≢◌, inl, inr, refl, sym, ◌∙◌, ap, subst, true, false, Option, ◌∷◌, arith,
  Bool-cases,
}
use devops_g_9_tillflow.Base.Table.{In, any_where}
use devops_g_9_tillflow.Payments.Tables.{PaymentRow, payment_create, Operation, IdemRow, Db}
use devops_g_9_tillflow.Payments.Schema.{payments_ok, has_idem_key}
use devops_g_9_tillflow.Payments.Schema.Keys.{inserted_id_is_new}
use devops_g_9_tillflow.Payments.Tx.{Tx, ok, after, pure, >>=-ok, ◌>>◌}
use devops_g_9_tillflow.Payments.Store.{Verdict, idem_lookup, idem_classify, idem_begin}
use devops_g_9_tillflow.Payments.Store.Payment.{insert_payment}
use devops_g_9_tillflow.Payments.Service.{Settings}
use devops_g_9_tillflow.Payments.Collect.Parse.{PaymentRequest}
use devops_g_9_tillflow.Payments.Collect.Create.{
  Begun, begun, begin_tx, open_attempt, by_verdict, new_payment,
}
use devops_g_9_tillflow.Payments.Quiet.{is_succeeded}
use devops_g_9_tillflow.Payments.Ledger.{Books, Books-cons}
use devops_g_9_tillflow.Payments.Credit.{payments_read, Balanced}

-- What the first transaction has done when the provider is to be called.
pub record Opened (id key fp : String) (req : PaymentRequest) (now : ℕ) (d e : Db) : Type 0 where
  pub ledger : e.ledger_entries ≡ d.ledger_entries
  pub payments : e.payments ≡ new_payment id key req now ∷ d.payments
  pub valid : payments_ok (new_payment id key req now ∷ d.payments) ≡ true
  pub key_is_new :
      any_where (has_idem_key req.tenant_id payment_create key) d.idempotency_keys ≡ false

idem_begin-ok :
    (tenant : String) (op : Operation) (key fp : String) (now ttl : ℕ) (d : Db) {e : Db}
    → idem_begin tenant op key fp now ttl d ≡ ok tt e
    → (any_where (has_idem_key tenant op key) d.idempotency_keys ≡ false)
      × (e.payments ≡ d.payments)
      × (e.ledger_entries ≡ d.ledger_entries)
unfolding idem_begin
idem_begin-ok tenant op key fp now ttl d {e} h =
    elim (Bool-cases (any_where (has_idem_key tenant op key) d.idempotency_keys)) [
      | inl taken ↦ absurd (cc (rw taken at h))
      | inr free ↦
          let q = ap after (rw free at h) in
          (free, ap (λ x. x.payments) (sym q), ap (λ x. x.ledger_entries) (sym q))
    ]

pub insert_payment-ok :
    (p : PaymentRow) (d : Db) {e : Db}
    → insert_payment p d ≡ ok tt e
    → (payments_ok (p ∷ d.payments) ≡ true) × (e ≡ record d { payments = p ∷ d.payments })
unfolding insert_payment
insert_payment-ok p d {e} h = ground arith

pub by_verdict-begun :
    (attempt : Tx Begun) (row : Option IdemRow) (v : Verdict) (d : Db) {e : Db}
    → by_verdict attempt row v d ≡ ok begun e
    → (v ≡ Verdict.new) × (attempt d ≡ ok begun e)
unfolding by_verdict
by_verdict-begun attempt row v d h = ground arith

pub begin_tx-ok :
    (cfg : Settings) (now : ℕ) (id key fp : String) (req : PaymentRequest) (d : Db) {e : Db}
    → begin_tx cfg now id key fp req d ≡ ok begun e
    → Opened id key fp req now d e
unfolding begin_tx open_attempt
begin_tx-ok cfg now id key fp req d {e} h =
    let attempt = open_attempt cfg now id key fp req in
    let row = idem_lookup req.tenant_id payment_create key d in
    let v = by_verdict-begun attempt row (idem_classify row fp) d h in
    let insert = insert_payment (new_payment id key req now) in
    let r =
      >>=-ok (idem_begin req.tenant_id payment_create key fp now cfg.idempotency_ttl_seconds)
        (λ _. insert >> pure begun) d v.1 in
    let k =
      idem_begin-ok req.tenant_id payment_create key fp now cfg.idempotency_ttl_seconds d r.2 in
    let r' = >>=-ok insert (λ _. pure begun) r.1 r.3 in
    let w = insert_payment-ok (new_payment id key req now) r.1 r'.2 in
    let q = ap after r'.3 in
    record {
      ledger = ap (λ x. x.ledger_entries) (sym q ∙ w.1) ∙ k.2;
      payments =
          ap (λ x. x.payments) (sym q ∙ w.1) ∙ ap (λ ps. new_payment id key req now ∷ ps) k.1;
      valid = subst (λ ps. payments_ok (new_payment id key req now ∷ ps) ≡ true) k.1 w.0;
      key_is_new = k.0;
    }

module _ (id key fp : String) (req : PaymentRequest) (now : ℕ) where
  abbrev fresh : PaymentRow
  fresh = new_payment id key req now

  fresh_unsettled : is_succeeded fresh.state ≡ false
  unfolding is_succeeded new_payment
  fresh_unsettled = refl

  pub Balanced-Opened : {d e : Db} → Balanced d → Opened id key fp req now d e → Balanced e
  Balanced-Opened {d} {e} b h = record {
    valid = rw h.payments h.valid;
    books = subst (Books payments_read e.payments) (sym h.ledger) (
        subst (λ ps. Books payments_read ps d.ledger_entries) (sym h.payments)
          (Books-cons payments_read fresh d.payments fresh_unsettled b.books));
  }

  -- No row had the fresh id.
  pub fresh_id :
      {d e : Db} (p : PaymentRow)
      → Opened id key fp req now d e
      → In p d.payments
      → p.payment_id ≢ id
  unfolding new_payment
  fresh_id {d} p h m = inserted_id_is_new fresh d.payments p h.valid m
