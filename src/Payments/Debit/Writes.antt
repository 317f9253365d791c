-- ===== src/Payments/Debit/Writes.antt =====
-- What the result callback writes before it applies the outcome.
use devops_g_9_tillflow.Base.{
  String, ◌≡◌, sym, ◌∙◌, subst, ap, inl, inr, Option, none, some, List, [], ◌∷◌, arith, Bool-cases,
  ◌==◌,
}
use devops_g_9_tillflow.Base.Table.{In, Rowwise, update_where}
use devops_g_9_tillflow.Base.Table.Update.{Rowwise-In, Rowwise-refl, Rowwise-update}
use devops_g_9_tillflow.Payments.Schema.{disbursements_ok}
use devops_g_9_tillflow.Payments.Tables.{DisbursementRow, CallbackRow, Db}
use devops_g_9_tillflow.Payments.Tx.{ok, after, pure, >>=-ok, ◌>>◌}
use devops_g_9_tillflow.Payments.Tx.Keeps.{Keeps-pure, Keeps-bind}
use devops_g_9_tillflow.Payments.Store.{record_callback}
use devops_g_9_tillflow.Payments.Store.Disbursement.{
  Field, update_disbursements, assign_all, has_id, set_conversation_id,
}
use devops_g_9_tillflow.Payments.Payout.Results.{fill_conversation}
use devops_g_9_tillflow.Payments.Debit.{steady_frame, IsSteady, Balanced}
use devops_g_9_tillflow.Payments.Debit.Statements.{SameKeys, SameKeys-refl, assign_all-SameKeys}
use devops_g_9_tillflow.Payments.Debit.Service.{assign-IsSteady}
use devops_g_9_tillflow.Payments.Debit.Advance.{Advanced, Advanced-refl, steady_ok}
use devops_g_9_tillflow.Payments.Debit.Shown.{Shown}

assigned_rows :
    (id : String) (fs : List Field) (d : Db)
    → Rowwise SameKeys d.disbursements
        (after (update_disbursements (has_id id) (assign_all fs) d)).disbursements
unfolding update_disbursements
assigned_rows id fs d =
    elim (Bool-cases
      (disbursements_ok (update_where (has_id id) (assign_all fs) d.disbursements))) [
        | inl e ↦ rw e (
            Rowwise-update SameKeys (has_id id) (assign_all fs) SameKeys-refl d.disbursements
              (λ q m c. assign_all-SameKeys fs q))
        | inr e ↦ rw e (Rowwise-refl SameKeys SameKeys-refl d.disbursements)
      ]

-- What was read is still there after these writes.
pub Shown-callback :
    (p : DisbursementRow) (r : CallbackRow) (d : Db)
    → Shown p d
    → Shown p (after (record_callback r d))
unfolding record_callback
Shown-callback p r d s = record {
  row = s.row;
  member = subst (In s.row) (sym (same d.provider_callbacks)) s.member;
  id = s.id;
  amount = s.amount;
  originator = s.originator;
  state = s.state;
}
  where
    same : (cs : List CallbackRow) → (after (record_callback r d)).disbursements ≡ d.disbursements
    same cs = ground arith

Shown-rows :
    (p : DisbursementRow) (d e : Db)
    → Shown p d
    → Rowwise SameKeys d.disbursements e.disbursements
    → Shown p e
Shown-rows p d e s h =
    let r = Rowwise-In SameKeys d.disbursements e.disbursements h s.member in
    record {
      row = r.0;
      member = r.1;
      id = r.2.id ∙ s.id;
      amount = r.2.amount ∙ s.amount;
      originator = r.2.originator ∙ s.originator;
      state = r.2.state ∙ s.state;
    }

assigned-IsSteady :
    (id : String) (fs : List Field)
    → IsSteady (update_disbursements (has_id id) (assign_all fs) >> pure tt)
assigned-IsSteady id fs = Keeps-bind _ _ (assign-IsSteady id fs) (λ _. Keeps-pure tt)

assigned_Shown :
    (p : DisbursementRow) (id : String) (fs : List Field) (d : Db) {e : Db}
    → Shown p d
    → (update_disbursements (has_id id) (assign_all fs) >> pure tt) d ≡ ok tt e
    → Shown p e
assigned_Shown p id fs d {e} s h =
    let r = >>=-ok (update_disbursements (has_id id) (assign_all fs)) (λ _. pure tt) d h in
    let k =
      Shown-rows p d (after (update_disbursements (has_id id) (assign_all fs) d)) s
        (assigned_rows id fs d) in
    let last : r.1 ≡ e = cc r.3 in subst (Shown p) (ap (λ x. after x) r.2 ∙ last) k

pub filled :
    (p : DisbursementRow) (c known : Option String) (d : Db) {e : Db}
    → p.conversation_id ≡ known
    → Balanced d
    → Shown p d
    → fill_conversation c p d ≡ ok tt e
    → Advanced d e × Shown p e
unfolding fill_conversation
filled p none known d {e} q b s h =
    let same : d ≡ e = cc h in (subst (Advanced d) same (Advanced-refl d b), subst (Shown p) same s)
filled p (some c) (some known) d {e} q b s h =
    let k = rw (q, fill_conversation) at h in
    let same : d ≡ e = cc k in (subst (Advanced d) same (Advanced-refl d b), subst (Shown p) same s)
filled p (some c) none d {e} q b s h = elim (Bool-cases (c == "")) [
  | inl empty ↦
      let k = rw (q, empty, fill_conversation) at h in
      let same : d ≡ e = cc k in
      (subst (Advanced d) same (Advanced-refl d b), subst (Shown p) same s)
  | inr text ↦
      let k = rw (q, text, fill_conversation) at h in
      let fs = set_conversation_id c ∷ [] in
      (
        steady_ok (update_disbursements (has_id p.disbursement_id) (assign_all fs) >> pure tt) d
            (assigned-IsSteady p.disbursement_id fs) b k,
        assigned_Shown p p.disbursement_id fs d s k,
      )
]
