-- ===== src/Commission/System/Kept.antt =====
-- What each transaction keeps of the tables.
use devops_g_9_tillflow.Base.{
  ◌<◌, String, ◌≡◌, refl, ap, ◌⊎◌, inl, inr, true, false, List, [], ◌∷◌, arith,
}
use devops_g_9_tillflow.Base.Table.{any_where, Rowwise}
use devops_g_9_tillflow.Commission.Tables.{
  LedgerState, LedgerRow, Db, is_failed, is_live_on, ledger_clash, ledger_ok,
}
use devops_g_9_tillflow.Commission.Close.Valid.{Valid}
use devops_g_9_tillflow.Commission.Disburse.Moves.{rank, Moved, DbMoved}

failed_stays :
    (s t : LedgerState) → (t ≡ s) ⊎ (rank s < rank t) → is_failed t ≡ false → is_failed s ≡ false
unfolding is_failed
failed_stays LedgerState.planned t g h = refl
failed_stays LedgerState.requested t g h = refl
failed_stays LedgerState.succeeded t g h = refl
failed_stays LedgerState.failed t (inl e) h = cc (ap is_failed e, h)
failed_stays LedgerState.failed LedgerState.planned (inr l) h = absurd (omega arith)
failed_stays LedgerState.failed LedgerState.requested (inr l) h = absurd (omega arith)
failed_stays LedgerState.failed LedgerState.succeeded (inr l) h = absurd (omega arith)
failed_stays LedgerState.failed LedgerState.failed (inr l) h = absurd (omega arith)

module _ (Says : String → LedgerState → Type 0) where
  still_live :
      (p q : LedgerRow) → Moved Says p q → is_failed q.state ≡ false → is_failed p.state ≡ false
  still_live p q m h = failed_stays p.state q.state (goes m.goes) h
    where
      goes :
          (q.state ≡ p.state) ⊎ ((rank p.state < rank q.state) × Says p.id q.state)
          → (q.state ≡ p.state) ⊎ (rank p.state < rank q.state)
      goes (inl e) = inl e
      goes (inr l) = inr l.0

  Moved-clash :
      (p q p' q' : LedgerRow)
      → Moved Says p p'
      → Moved Says q q'
      → ledger_clash p q ≡ false
      → ledger_clash p' q' ≡ false
  unfolding ledger_clash is_live_on
  Moved-clash p q p' q' m n h = ground (
    arith,
    m.id,
    n.id,
    m.tenant_id,
    n.tenant_id,
    m.attendant_id,
    n.attendant_id,
    m.business_date,
    n.business_date,
    still_live p p' m,
    still_live q q' n,
  )

  Moved-any :
      (p p' : LedgerRow) (xs ys : List LedgerRow)
      → Moved Says p p'
      → Rowwise (Moved Says) xs ys
      → any_where (ledger_clash p) xs ≡ false
      → any_where (ledger_clash p') ys ≡ false
  unfolding any_where
  Moved-any p p' [] [] m h k = refl
  Moved-any p p' (x ∷ xs) (y ∷ ys) m h k =
      ground (arith, Moved-clash p x p' y m h.0, Moved-any p p' xs ys m h.1)
  Moved-any p p' [] (y ∷ ys) m h k = absurd h
  Moved-any p p' (x ∷ xs) [] m h k = absurd h

  Moved-ok :
      (xs ys : List LedgerRow)
      → Rowwise (Moved Says) xs ys
      → ledger_ok xs ≡ true
      → ledger_ok ys ≡ true
  unfolding ledger_ok
  Moved-ok [] [] h k = refl
  Moved-ok (x ∷ xs) (y ∷ ys) h k =
      ground (arith, h.0.amount, Moved-any x y xs ys h.0 h.1, Moved-ok xs ys h.1)
  Moved-ok [] (y ∷ ys) h k = absurd h
  Moved-ok (x ∷ xs) [] h k = absurd h

  -- The constraints hold after the rows have moved on.
  pub DbMoved-Valid : (d e : Db) → DbMoved Says d e → Valid d → Valid e
  DbMoved-Valid d e h v = record {
    ledger = Moved-ok d.payout_ledger e.payout_ledger h.rows v.ledger;
    items = rw (h.items) v.items;
  }
