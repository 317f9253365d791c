-- ===== src/Payments/Debit/Keys.antt =====
-- In a table of disbursements that meets its constraints, an id, an originator id, and the payout key of
-- a live disbursement name one row.
use devops_g_9_tillflow.Base.{
  ◌≡◌, Bool, true, false, ◌&&◌, List, ◌∷◌, arith, eq_iff, test_of_eq, ◌==◌,
}
use devops_g_9_tillflow.Base.Table.{any_where, In}
use devops_g_9_tillflow.Base.Table.Unique.{unique_by}
use devops_g_9_tillflow.Payments.Tables.{DisbursementRow}
use devops_g_9_tillflow.Payments.Schema.{
  disbursements_clash, disbursements_ok, is_live_disbursement,
}

ok_parts :
    (p : DisbursementRow) (ps : List DisbursementRow)
    → disbursements_ok (p ∷ ps) ≡ true
    → (any_where (disbursements_clash p) ps ≡ false) × (disbursements_ok ps ≡ true)
unfolding disbursements_ok
ok_parts p ps h = ground arith

-- Two rows that a test of a column, or of two, takes for the same.
module _ (same : DisbursementRow → DisbursementRow → Bool)
    (sym_same : (p q : DisbursementRow) → same p q ≡ true → same q p ≡ true)
    (clashes : (p q : DisbursementRow) → same p q ≡ true → disbursements_clash p q ≡ true) where
  one_row :
      (ps : List DisbursementRow) {p q : DisbursementRow}
      → disbursements_ok ps ≡ true
      → In p ps
      → In q ps
      → same p q ≡ true
      → p ≡ q
  one_row = unique_by disbursements_clash disbursements_ok ok_parts same sym_same clashes

same_id : DisbursementRow → DisbursementRow → Bool
same_id p q = p.disbursement_id == q.disbursement_id

same_id_sym : (p q : DisbursementRow) → same_id p q ≡ true → same_id q p ≡ true
unfolding same_id
same_id_sym p q h =
    ground (
      arith,
      eq_iff p.disbursement_id q.disbursement_id,
      eq_iff q.disbursement_id p.disbursement_id,
    )

same_id_clash : (p q : DisbursementRow) → same_id p q ≡ true → disbursements_clash p q ≡ true
unfolding same_id disbursements_clash
same_id_clash p q h = ground arith

pub disbursement_id_unique :
    (ps : List DisbursementRow) {p q : DisbursementRow}
    → disbursements_ok ps ≡ true
    → In p ps
    → In q ps
    → p.disbursement_id ≡ q.disbursement_id
    → p ≡ q
unfolding same_id
disbursement_id_unique ps ok mp mq e =
    one_row same_id same_id_sym same_id_clash ps ok mp mq (test_of_eq _ _ e)

same_originator : DisbursementRow → DisbursementRow → Bool
same_originator p q = p.originator_conversation_id == q.originator_conversation_id

same_originator_sym :
    (p q : DisbursementRow) → same_originator p q ≡ true → same_originator q p ≡ true
unfolding same_originator
same_originator_sym p q h = ground (
  arith,
  eq_iff p.originator_conversation_id q.originator_conversation_id,
  eq_iff q.originator_conversation_id p.originator_conversation_id,
)

same_originator_clash :
    (p q : DisbursementRow) → same_originator p q ≡ true → disbursements_clash p q ≡ true
unfolding same_originator disbursements_clash
same_originator_clash p q h = ground arith

pub originator_unique :
    (ps : List DisbursementRow) {p q : DisbursementRow}
    → disbursements_ok ps ≡ true
    → In p ps
    → In q ps
    → p.originator_conversation_id ≡ q.originator_conversation_id
    → p ≡ q
unfolding same_originator
originator_unique ps ok mp mq e =
    one_row same_originator same_originator_sym same_originator_clash ps ok mp mq (test_of_eq _ _ e)

same_live_payout : DisbursementRow → DisbursementRow → Bool
same_live_payout p q =
    is_live_disbursement p.state && is_live_disbursement q.state && p.payout_key == q.payout_key

same_live_payout_sym :
    (p q : DisbursementRow) → same_live_payout p q ≡ true → same_live_payout q p ≡ true
unfolding same_live_payout
same_live_payout_sym p q h =
    ground (arith, eq_iff p.payout_key q.payout_key, eq_iff q.payout_key p.payout_key)

same_live_payout_clash :
    (p q : DisbursementRow) → same_live_payout p q ≡ true → disbursements_clash p q ≡ true
unfolding same_live_payout disbursements_clash
same_live_payout_clash p q h = ground arith

pub live_payout_unique :
    (ps : List DisbursementRow) {p q : DisbursementRow}
    → disbursements_ok ps ≡ true
    → In p ps
    → In q ps
    → is_live_disbursement p.state ≡ true
    → is_live_disbursement q.state ≡ true
    → p.payout_key ≡ q.payout_key
    → p ≡ q
unfolding same_live_payout
live_payout_unique ps {p} {q} ok mp mq lp lq e =
    one_row same_live_payout same_live_payout_sym same_live_payout_clash ps ok mp mq
      (rw (lp, lq) (test_of_eq p.payout_key q.payout_key e))
