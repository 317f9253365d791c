-- ===== src/Commission/Disburse/Order.antt =====
-- In which order a pass asks, and when it stops.
use devops_g_9_tillflow.Base.{
  String, ◌≡◌, refl, ap, ◌⊎◌, inl, inr, Option, List, [], ◌∷◌, ◌++◌, map, Bool-cases, Option-cases,
}
use devops_g_9_tillflow.Base.Table.{rows_where}
use devops_g_9_tillflow.Commission.Tables.{LedgerState, LedgerRow, Db, same_state}
use devops_g_9_tillflow.Commission.Common.{PayoutOutcome, classify_payout_response}
use devops_g_9_tillflow.Commission.Disburse.{
  Call, Aborted, payments_unreachable, payouts_off, stops_pass, handle_outcome, send_rows,
  send_due_payouts,
}

abbrev asked : List (LedgerRow × Option PayoutOutcome) → List LedgerRow
asked = map (λ x. x.0)

abbrev planned_rows : Db → List LedgerRow
planned_rows d = rows_where (λ r. same_state r.state LedgerState.planned) d.payout_ledger

module _ (held_label : String → String) (create_payout : LedgerRow → Call) where
  -- The rows that were asked about are the first of those that are due; the others are untouched.
  abbrev InOrder : List LedgerRow → List (LedgerRow × Option PayoutOutcome) → Aborted → Type 0
  InOrder rows outcomes aborted =
      (rest : List LedgerRow) × (asked outcomes ++ rest ≡ rows)
      × ((rest ≡ []) ⊎ ((aborted ≡ payments_unreachable) ⊎ (aborted ≡ payouts_off)))

  send_rows-InOrder :
      (rows : List LedgerRow) (d : Db)
      → InOrder rows
          (send_rows held_label create_payout rows d).0
          (send_rows held_label create_payout rows d).1
  unfolding send_rows
  send_rows-InOrder [] d = ([], refl, inl refl)
  send_rows-InOrder (row ∷ rows) d = elim (Option-cases (create_payout row).response) [
    | inl e ↦ rw (e, send_rows) (rows, refl, inr (inl refl))
    | inr ((status, r), e) ↦
        let o = classify_payout_response status r in
        let next = handle_outcome held_label (create_payout row).now row r o d in
        elim (Bool-cases (stops_pass o)) [
          | inl s ↦ rw (e, s, send_rows) (rows, refl, inr (inr refl))
          | inr s ↦
              let k = send_rows-InOrder rows next in
              rw (e, s, send_rows) (k.0, ap (λ t. row ∷ t) k.1, k.2)
        ]
  ]

  -- send_due_payouts asks Payments about PLANNED rows only, about each at most once and in the order in
  -- which they were read, and about every one of them unless the pass was aborted because Payments could
  -- not be reached or has payouts switched off.
  pub pass_asks_in_order :
      (d : Db)
      → (rest : List LedgerRow) × (map
              (λ x. x.0)
              (send_due_payouts held_label create_payout d).0.outcomes
            ++ rest
          ≡ rows_where (λ r. same_state r.state LedgerState.planned) d.payout_ledger)
        × ((rest ≡ [])
            ⊎ (((send_due_payouts held_label create_payout d).0.aborted ≡ payments_unreachable)
                ⊎ ((send_due_payouts held_label create_payout d).0.aborted ≡ payouts_off)))
  unfolding send_due_payouts
  pass_asks_in_order d = send_rows-InOrder (planned_rows d) d
