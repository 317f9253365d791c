-- ===== src/Payments/Ledger/Count.antt =====
-- In the books a settled record has one entry, and any other none.
use devops_g_9_tillflow.Base.{
  String, ◌≡◌, refl, sym, ◌∙◌, ap, subst, inl, inr, true, false, Bool, List, [], ◌∷◌, arith,
  Bool-cases, eq_iff, test_of_eq, if◌then◌else◌,
}
use devops_g_9_tillflow.Base.Table.{In, any_where, count_where}
use devops_g_9_tillflow.Base.Table.Update.{any_where-false-In}
use devops_g_9_tillflow.Payments.Tables.{EntryType, LedgerEntry}
use devops_g_9_tillflow.Payments.Schema.{ledger_clash}
use devops_g_9_tillflow.Payments.Collect.Reconcile.{is_entry_of}
use devops_g_9_tillflow.Payments.Ledger.{Reading, Entry, Books, ledger_unique}
use devops_g_9_tillflow.Payments.Ledger.Settle.{same_entry_type-eq, same_entry_type_refl}

count_where-zero :
    (c : LedgerEntry → Bool) (es : List LedgerEntry)
    → ((e : LedgerEntry) → In e es → c e ≡ false)
    → count_where c es ≡ 0
unfolding count_where
count_where-zero c [] h = refl
count_where-zero c (x ∷ xs) h =
    rw (h x (inl refl)) (omega (arith, count_where-zero c xs (λ e m. h e (inr m))))

unique_parts :
    (x : LedgerEntry) (xs : List LedgerEntry)
    → ledger_unique (x ∷ xs) ≡ true
    → (any_where (ledger_clash x) xs ≡ false) × (ledger_unique xs ≡ true)
unfolding ledger_unique
unique_parts x xs h = ground arith

In-tail :
    (c : LedgerEntry → Bool) {x e : LedgerEntry} (xs : List LedgerEntry)
    → In e (x ∷ xs)
    → c x ≡ false
    → c e ≡ true
    → In e xs
In-tail c xs (inl q) f h = absurd (cc (ap c q, f, h))
In-tail c xs (inr m) f h = m

count_where-one :
    (c : LedgerEntry → Bool) (es : List LedgerEntry) (e : LedgerEntry)
    → ledger_unique es ≡ true
    → ((x y : LedgerEntry) → In x es → In y es → c x ≡ true → c y ≡ true → ledger_clash x y ≡ true)
    → In e es
    → c e ≡ true
    → count_where c es ≡ 1
unfolding count_where
count_where-one c [] e u k m h = absurd m
count_where-one c (x ∷ xs) e u k m h = elim (Bool-cases (c x)) [
  | inl t ↦ rw t (
      omega (
        arith,
        count_where-zero c xs (λ y n. elim (Bool-cases (c y)) [
          | inr f ↦ f
          | inl g ↦ absurd (
              cc (
                any_where-false-In (ledger_clash x) xs (unique_parts x xs u).0 n,
                k x y (inl refl) (inr n) t g,
              ))
        ]),
      ))
  | inr f ↦ rw f (
      omega (
        arith,
        count_where-one c xs e (unique_parts x xs u).1 (λ y z n o. k y z (inr n) (inr o))
            (In-tail c xs m f h) h,
      ))
]

-- The entries of a type that a record has.
entry_parts :
    (kind : EntryType) (id : String) (e : LedgerEntry)
    → is_entry_of id kind e ≡ true
    → (e.record_id ≡ id) × (e.entry_type ≡ kind)
entry_parts kind id e h =
    ground (arith, eq_iff e.record_id id, same_entry_type-eq e.entry_type kind)

is_entry_of-intro :
    (kind : EntryType) (id : String) (e : LedgerEntry)
    → e.record_id ≡ id
    → e.entry_type ≡ kind
    → is_entry_of id kind e ≡ true
is_entry_of-intro kind id e h k =
    rw (test_of_eq e.record_id id h) (rw k (same_entry_type_refl kind))

clash_intro :
    (kind : EntryType) (x y : LedgerEntry)
    → x.provider ≡ y.provider
    → x.provider_ref ≡ y.provider_ref
    → x.entry_type ≡ kind
    → y.entry_type ≡ kind
    → ledger_clash x y ≡ true
unfolding ledger_clash
clash_intro kind x y p r s t =
    rw (test_of_eq x.provider y.provider p, test_of_eq x.provider_ref y.provider_ref r)
      (rw (s, t) (same_entry_type_refl kind))

module _ {R : Type 0} (g : Reading R) (rows : List R) (es : List LedgerEntry) (b : Books g rows es)
    (p : R) (m : In p rows) (one : (q : R) → In q rows → g.id q ≡ g.id p → q ≡ p) where
  -- The owner of an entry with the record's id is the record.
  owner :
      (e : LedgerEntry)
      → In e es
      → is_entry_of (g.id p) g.kind e ≡ true
      → (g.settled p ≡ true) × Entry g p e
  owner e n h =
      let k = entry_parts g.kind (g.id p) e h in
      let o = b.owned e n k.1 in
      let same : o.0 ≡ p = one o.0 o.1 (sym o.3.record_id ∙ k.0) in
      subst (λ a. (g.settled a ≡ true) × Entry g a e) same (o.2, o.3)

  clash :
      (x y : LedgerEntry)
      → In x es
      → In y es
      → is_entry_of (g.id p) g.kind x ≡ true
      → is_entry_of (g.id p) g.kind y ≡ true
      → ledger_clash x y ≡ true
  clash x y n o h k =
      let cx = (owner x n h).1 in
      let cy = (owner y o k).1 in
      clash_intro g.kind x y (cx.of_provider ∙ sym cy.of_provider)
        (cc (cx.provider_ref, cy.provider_ref)) cx.entry_type cy.entry_type

  pub count_where-Books :
      count_where (is_entry_of (g.id p) g.kind) es ≡ (if g.settled p then 1 else 0)
  count_where-Books = elim (Bool-cases (g.settled p)) [
    | inl s ↦
        let e = b.paid p m s in
        rw s (
          count_where-one (is_entry_of (g.id p) g.kind) es e.0 b.unique clash e.1
            (is_entry_of-intro g.kind (g.id p) e.0 e.2.record_id e.2.entry_type))
    | inr u ↦ rw u (
        count_where-zero (is_entry_of (g.id p) g.kind) es (λ e n.
          elim (Bool-cases (is_entry_of (g.id p) g.kind e)) [
            | inr f ↦ f
            | inl h ↦ absurd (cc ((owner e n h).0, u))
          ]))
  ]
