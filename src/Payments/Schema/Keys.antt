-- ===== src/Payments/Schema/Keys.antt =====
-- In a table that meets its constraints, a key names one row.
use devops_g_9_tillflow.Base.{
  String, ◌≡◌, ◌≢◌, sym, Bool, true, false, some, List, ◌∷◌, arith, eq_iff, same_text,
  same_text-some, same_text_sym, test_of_eq, ◌==◌,
}
use devops_g_9_tillflow.Base.Table.{any_where, In}
use devops_g_9_tillflow.Base.Table.Unique.{unique_by}
use devops_g_9_tillflow.Base.Table.Update.{any_where-false-In}
use devops_g_9_tillflow.Payments.Tables.{PaymentRow}
use devops_g_9_tillflow.Payments.Schema.{payments_clash, payments_ok, same_live_sale}

ok_parts :
    (p : PaymentRow) (ps : List PaymentRow)
    → payments_ok (p ∷ ps) ≡ true
    → (any_where (payments_clash p) ps ≡ false) × (payments_ok ps ≡ true)
unfolding payments_ok
ok_parts p ps h = ground arith

same_id : PaymentRow → PaymentRow → Bool
same_id p q = p.payment_id == q.payment_id

same_id_sym : (p q : PaymentRow) → same_id p q ≡ true → same_id q p ≡ true
unfolding same_id
same_id_sym p q h =
    ground (arith, eq_iff p.payment_id q.payment_id, eq_iff q.payment_id p.payment_id)

same_id_clash : (p q : PaymentRow) → same_id p q ≡ true → payments_clash p q ≡ true
unfolding same_id payments_clash
same_id_clash p q h = ground arith

pub payment_id_unique :
    (ps : List PaymentRow) {p q : PaymentRow}
    → payments_ok ps ≡ true
    → In p ps
    → In q ps
    → p.payment_id ≡ q.payment_id
    → p ≡ q
unfolding same_id
payment_id_unique ps ok mp mq e =
    unique_by payments_clash payments_ok ok_parts same_id same_id_sym same_id_clash ps ok mp mq
      (test_of_eq _ _ e)

same_ref : PaymentRow → PaymentRow → Bool
same_ref p q = same_text p.provider_ref q.provider_ref

same_ref_sym : (p q : PaymentRow) → same_ref p q ≡ true → same_ref q p ≡ true
unfolding same_ref
same_ref_sym p q h = same_text_sym p.provider_ref q.provider_ref h

same_ref_clash : (p q : PaymentRow) → same_ref p q ≡ true → payments_clash p q ≡ true
unfolding same_ref payments_clash
same_ref_clash p q h = ground arith

pub provider_ref_unique :
    (ps : List PaymentRow) {p q : PaymentRow} {r : String}
    → payments_ok ps ≡ true
    → In p ps
    → In q ps
    → p.provider_ref ≡ some r
    → q.provider_ref ≡ some r
    → p ≡ q
unfolding same_ref
provider_ref_unique ps {r} ok mp mq e f =
    unique_by payments_clash payments_ok ok_parts same_ref same_ref_sym same_ref_clash ps ok mp mq
      (rw (e, f) (same_text-some r))

-- A row that an INSERT adds has an id of its own.
pub inserted_id_is_new :
    (p : PaymentRow) (ps : List PaymentRow) (q : PaymentRow)
    → payments_ok (p ∷ ps) ≡ true
    → In q ps
    → q.payment_id ≢ p.payment_id
unfolding same_id
inserted_id_is_new p ps q ok m e = cc (
  any_where-false-In (payments_clash p) ps (ok_parts p ps ok).0 m,
  same_id_clash p q (test_of_eq p.payment_id q.payment_id (sym e)),
)

live_sale_sym : (p q : PaymentRow) → same_live_sale p q ≡ true → same_live_sale q p ≡ true
unfolding same_live_sale
live_sale_sym p q h = ground (
  arith,
  same_text_sym p.sale_id q.sale_id,
  eq_iff p.tenant_id q.tenant_id,
  eq_iff q.tenant_id p.tenant_id,
)

live_sale_clash : (p q : PaymentRow) → same_live_sale p q ≡ true → payments_clash p q ≡ true
unfolding payments_clash
live_sale_clash p q h = ground arith

pub live_sale_unique :
    (ps : List PaymentRow) {p q : PaymentRow}
    → payments_ok ps ≡ true
    → In p ps
    → In q ps
    → same_live_sale p q ≡ true
    → p ≡ q
live_sale_unique ps =
    unique_by payments_clash payments_ok ok_parts same_live_sale live_sale_sym live_sale_clash ps
