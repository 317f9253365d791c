-- ===== src/Payments/System/Progress.antt =====
-- What happens to one payment while the requests interleave.
use devops_g_9_tillflow.Base.{◌≡◌, ◌∙◌, sym, refl, true}
use devops_g_9_tillflow.Base.Table.{In}
use devops_g_9_tillflow.Payments.States.{is_terminal}
use devops_g_9_tillflow.Payments.States.Machine.{here, Chain-trans, terminal_is_final}
use devops_g_9_tillflow.Payments.Tables.{PaymentRow}
use devops_g_9_tillflow.Payments.Service.{Settings}
use devops_g_9_tillflow.Payments.System.{System, start, Reach, next}
use devops_g_9_tillflow.Payments.System.Safety.{Good, Good-start, Step-result, Onward}
use devops_g_9_tillflow.Payments.System.Books.{Reach-Good}

onward :
    (cfg : Settings) {s u : System}
    → Good s
    → Reach cfg s u
    → (p : PaymentRow) → In p s.db.payments
    → Onward u.db p
onward cfg g Reach.here p m = (p, m, refl, refl, here)
onward cfg g (next {t} {u} r h) p m =
    let k = onward cfg g r p m in
    let n = (Step-result cfg t u (Reach-Good cfg g r) h).1 k.0 k.1 in
    (n.0, n.1, n.2 ∙ k.2, n.3 ∙ k.3, Chain-trans k.4 n.4)

-- From any state that the system reaches, and however the requests interleave from there, a payment
-- is never deleted, keeps its id and its amount, and its state changes only along transitions that
-- the state table allows.
pub payments_move_legally :
    (cfg : Settings) {s u : System}
    → Reach cfg start s
    → Reach cfg s u
    → (p : PaymentRow) → In p s.db.payments
    → Onward u.db p
payments_move_legally cfg r h = onward cfg (Reach-Good cfg Good-start r) h

-- A payment that has reached a terminal state (SUCCEEDED, DECLINED or EXPIRED) in a state that the
-- system reaches has the same state ever after.
pub terminal_payments_stay :
    (cfg : Settings) {s u : System}
    → Reach cfg start s
    → Reach cfg s u
    → (p : PaymentRow) → In p s.db.payments
    → is_terminal p.state ≡ true
    → (q : PaymentRow) × In q u.db.payments × (q.payment_id ≡ p.payment_id) × (q.state ≡ p.state)
terminal_payments_stay cfg r h p m t =
    let k = payments_move_legally cfg r h p m in (k.0, k.1, k.2, sym (terminal_is_final k.4 t))
