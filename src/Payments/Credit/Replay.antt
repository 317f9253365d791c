-- ===== src/Payments/Credit/Replay.antt =====
-- `create_payment` asked twice with the same key and the same request.
use devops_g_9_tillflow.Base.{
  ℕ, ◌+◌, String, ◌≡◌, refl, sym, ◌∙◌, ap, inl, inr, Bool, true, false, none, some, List, [], ◌∷◌,
  arith, test_of_eq, Bool-cases, Option-cases, if◌then◌else◌,
}
use devops_g_9_tillflow.Base.Table.{find?, any_where, update_where}
use devops_g_9_tillflow.Payments.States.{PaymentState, same_state}
use devops_g_9_tillflow.Payments.Tables.{
  PaymentRow, PublicBody, payment_create, IdemRow, IdemStatus, EventType, Db,
}
use devops_g_9_tillflow.Payments.Schema.{has_idem_key, same_operation}
use devops_g_9_tillflow.Payments.Tx.{Tx, ok, after, pure, >>=-ok, ◌>>=◌, ◌>>◌}
use devops_g_9_tillflow.Payments.Store.{
  idem_lookup, idem_classify, idem_begin, idem_complete, outbox,
}
use devops_g_9_tillflow.Payments.Store.Payment.{
  Field, update_payments, insert_payment, payment_by_id, has_id, transition,
}
use devops_g_9_tillflow.Payments.Service.{Body, replied, Settings, ChargeAnswer}
use devops_g_9_tillflow.Payments.Collect.Parse.{PaymentRequest}
use devops_g_9_tillflow.Payments.Collect.Outcomes.{event}
use devops_g_9_tillflow.Payments.Collect.Create.{
  begun, begin_tx, open_attempt, by_verdict, new_payment, record_answer, keep_reference,
  finish_create, public_body, Hashes, create_parsed,
}
use devops_g_9_tillflow.Payments.Credit.Success.{transition-ok}
use devops_g_9_tillflow.Payments.Credit.Begin.{by_verdict-begun, insert_payment-ok}
use devops_g_9_tillflow.Payments.Credit.Create.{update_payments-ok}

abbrev key_row : String → String → String → ℕ → ℕ → IdemRow
key_row tenant key fp now ttl = record {
  tenant_id = tenant;
  operation = payment_create;
  idem_key = key;
  request_fingerprint = fp;
  status = IdemStatus.in_flight;
  response_code = none;
  response_body = none;
  resource_id = none;
  created_at = now;
  expires_at = now + ttl;
}

abbrev completed : PublicBody → String → IdemRow → IdemRow
completed body id r = record r {
  status = IdemStatus.completed;
  response_code = some 201;
  response_body = some body;
  resource_id = some id;
}

idem_begin-keys :
    (tenant key fp : String) (now ttl : ℕ) (d : Db) {e : Db}
    → idem_begin tenant payment_create key fp now ttl d ≡ ok tt e
    → e.idempotency_keys ≡ key_row tenant key fp now ttl ∷ d.idempotency_keys
unfolding idem_begin
idem_begin-keys tenant key fp now ttl d {e} h =
    elim (Bool-cases (any_where (has_idem_key tenant payment_create key) d.idempotency_keys)) [
      | inl taken ↦ absurd (cc (rw taken at h))
      | inr free ↦ ap (λ (x : Db). x.idempotency_keys) (sym (ap after (rw free at h)))
    ]

-- The first transaction puts the key in front.
begin_tx-keys :
    (cfg : Settings) (now : ℕ) (id key fp : String) (req : PaymentRequest) (d : Db) {e : Db}
    → begin_tx cfg now id key fp req d ≡ ok begun e
    → e.idempotency_keys
      ≡ key_row req.tenant_id key fp now cfg.idempotency_ttl_seconds ∷ d.idempotency_keys
unfolding begin_tx open_attempt
begin_tx-keys cfg now id key fp req d {e} h =
    let attempt = open_attempt cfg now id key fp req in
    let row = idem_lookup req.tenant_id payment_create key d in
    let v = by_verdict-begun attempt row (idem_classify row fp) d h in
    let insert = insert_payment (new_payment id key req now) in
    let ttl = cfg.idempotency_ttl_seconds in
    let r =
      >>=-ok (idem_begin req.tenant_id payment_create key fp now ttl) (λ _. insert >> pure begun) d
        v.1 in
    let r' = >>=-ok insert (λ _. pure begun) r.1 r.3 in
    let w = insert_payment-ok (new_payment id key req now) r.1 r'.2 in
    ap (λ (x : Db). x.idempotency_keys) (sym (ap after r'.3) ∙ w.1)
    ∙ idem_begin-keys req.tenant_id key fp now ttl d r.2

transition-keys :
    (id : String) (s t : PaymentState) (now : ℕ) (fs : List Field) (d : Db) {e : Db}
    → transition id s t now fs d ≡ ok tt e
    → e.idempotency_keys ≡ d.idempotency_keys
transition-keys id s t now fs d h =
    ap (λ (x : Db). x.idempotency_keys) (transition-ok id s t now fs d h).result

event-keys :
    (now : ℕ) (p : PaymentRow) (t : EventType) (d : Db) {b : Bool} {e : Db}
    → event now p t d ≡ ok b e
    → e.idempotency_keys ≡ d.idempotency_keys
unfolding event outbox
event-keys now p t d h = ground arith

record_answer-keys :
    (now : ℕ) (row : PaymentRow) (a : ChargeAnswer) (d : Db) {e : Db}
    → record_answer now row a d ≡ ok tt e
    → e.idempotency_keys ≡ d.idempotency_keys
unfolding record_answer
record_answer-keys now row (ChargeAnswer.accepted a) d h = transition-keys _ _ _ now _ d h
record_answer-keys now row (ChargeAnswer.declined raw) d h =
    let told = event now row EventType.payment_declined >> pure tt in
    let r = >>=-ok (transition row.payment_id _ _ now _) (λ _. told) d h in
    let r' = >>=-ok (event now row EventType.payment_declined) (λ _. pure tt) r.1 r.3 in
    ap (λ (x : Db). x.idempotency_keys) (sym (ap after r'.3))
    ∙ event-keys now row _ r.1 r'.2
    ∙ transition-keys _ _ _ now _ d r.2
record_answer-keys now row ChargeAnswer.outcome_unknown d h = transition-keys _ _ _ now _ d h

keep_reference-keys :
    (row : PaymentRow) (a : ChargeAnswer) (d : Db) {e : Db}
    → keep_reference row a d ≡ ok tt e
    → e.idempotency_keys ≡ d.idempotency_keys
unfolding keep_reference
keep_reference-keys row (ChargeAnswer.accepted a) d {e} h =
    let r = >>=-ok (update_payments (has_id row.payment_id) _) (λ _. pure tt) d h in
    ap (λ (x : Db). x.idempotency_keys)
      (sym (ap after r.3) ∙ (update_payments-ok (has_id row.payment_id) _ d r.2).1)
keep_reference-keys row (ChargeAnswer.declined raw) d h =
    ap (λ (x : Db). x.idempotency_keys) (sym (ap after h))
keep_reference-keys row ChargeAnswer.outcome_unknown d h =
    ap (λ (x : Db). x.idempotency_keys) (sym (ap after h))

answer-keys :
    (now : ℕ) (row : PaymentRow) (a : ChargeAnswer) (t : Bool) (d : Db) {e : Db}
    → (if t then record_answer now row a else keep_reference row a) d ≡ ok tt e
    → e.idempotency_keys ≡ d.idempotency_keys
answer-keys now row a true d h = record_answer-keys now row a d h
answer-keys now row a false d h = keep_reference-keys row a d h

public_body-same :
    (id : String) (d : Db) {body : PublicBody} {e : Db} → public_body id d ≡ ok body e → e ≡ d
unfolding public_body payment_by_id
public_body-same id d h = elim (Option-cases (find? (has_id id) d.payments)) [
  | inl q ↦ absurd (cc (rw q at h))
  | inr (p, q) ↦ sym (ap after (rw q at h))
]

-- The second transaction completes the key with the body that it answers.
finish_create-keys :
    (now : ℕ) (id tenant key : String) (a : ChargeAnswer) (d : Db) {body : PublicBody} {e : Db}
    → finish_create now id tenant key a d ≡ ok body e
    → e.idempotency_keys
      ≡ update_where (has_idem_key tenant payment_create key) (completed body id) d.idempotency_keys
unfolding finish_create payment_by_id idem_complete
finish_create-keys now id tenant key a d {body} {e} h =
    elim (Option-cases (find? (has_id id) d.payments)) [
      | inl q ↦ absurd (cc (rw q at h))
      | inr (p, q) ↦
          let answer =
            if same_state p.state PaymentState.created
            then record_answer now p a
            else keep_reference p a in
          let store : PublicBody → Tx PublicBody =
            λ b. idem_complete tenant payment_create key 201 b id >> pure b in
          let r = >>=-ok answer (λ _. public_body id >>= store) d (rw q at h) in
          let r' = >>=-ok (public_body id) store r.1 r.3 in
          let told : r'.0 ≡ body = cc r'.3 in
          let keys : r'.1.idempotency_keys ≡ d.idempotency_keys =
            ap (λ (x : Db). x.idempotency_keys) (public_body-same id r.1 r'.2)
            ∙ answer-keys now p a (same_state p.state PaymentState.created) d r.2 in
          ap (λ (x : Db). x.idempotency_keys) (sym (ap after r'.3))
          ∙ ap
              (λ b.
                update_where (has_idem_key tenant payment_create key) (completed b id)
                  r'.1.idempotency_keys)
              told
          ∙ ap (update_where (has_idem_key tenant payment_create key) (completed body id)) keys
    ]

is_key :
    (tenant key : String) (r : IdemRow)
    → r.tenant_id ≡ tenant
    → r.operation ≡ payment_create
    → r.idem_key ≡ key
    → has_idem_key tenant payment_create key r ≡ true
unfolding has_idem_key same_operation
is_key tenant key r t o k =
    rw (test_of_eq r.tenant_id tenant t, test_of_eq r.idem_key key k) (rw o refl)

-- The row that is found under the key afterwards.
found_again :
    (tenant key fp : String) (now ttl : ℕ) (body : PublicBody) (id : String) (rows : List IdemRow)
    → find? (has_idem_key tenant payment_create key) (
        update_where
          (has_idem_key tenant payment_create key)
          (completed body id)
          (key_row tenant key fp now ttl ∷ rows))
      ≡ some (completed body id (key_row tenant key fp now ttl))
unfolding find? update_where
found_again tenant key fp now ttl body id rows =
    rw (is_key tenant key (key_row tenant key fp now ttl) refl refl refl) (
      rw (is_key tenant key (completed body id (key_row tenant key fp now ttl)) refl refl refl)
        refl)

module _ (hashes : Hashes) (cfg : Settings) (key : String) (req : PaymentRequest) where
  -- If a request has committed its intent and then recorded the provider's answer, and no other
  -- transaction came between or since, the same request under the same key, at any later time and
  -- whatever the provider would say, gets the body of the first answer as a replay, makes no call of
  -- the provider and changes no table.
  pub repeated_request_replays :
      (now later : ℕ) (id : String) (answer : ChargeAnswer) (d e d' : Db) (body : PublicBody)
      → begin_tx cfg now id key (hashes.fingerprint req) req d ≡ ok begun e
      → finish_create later id req.tenant_id key answer e ≡ ok body d'
      → (now2 later2 : ℕ) (id2 : String) (answer2 : ChargeAnswer)
      → create_parsed hashes cfg now2 later2 id2 key req answer2 d'
        ≡ (replied (record { status = 200; body = Body.created body; replayed = true }), [], d')
  unfolding create_parsed begin_tx by_verdict idem_classify idem_lookup
  repeated_request_replays now later id answer d e d' body h k now2 later2 id2 answer2 =
      let fp = hashes.fingerprint req in
      let keys = begin_tx-keys cfg now id key fp req d h in
      let done = finish_create-keys later id req.tenant_id key answer e k in
      let found =
        ap (find? (has_idem_key req.tenant_id payment_create key)) (
          done
          ∙ ap (update_where (has_idem_key req.tenant_id payment_create key) (completed body id))
              keys)
        ∙ found_again req.tenant_id key fp now cfg.idempotency_ttl_seconds body id
            d.idempotency_keys in
      let lookup : idem_lookup req.tenant_id payment_create key d'
          ≡ some
              (completed body id (key_row req.tenant_id key fp now cfg.idempotency_ttl_seconds)) =
        found in
      rw (lookup, create_parsed, begin_tx, by_verdict, idem_classify)
        (rw (test_of_eq fp fp refl) (rw lookup refl))
