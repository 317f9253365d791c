-- ===== src/Payments/Ledger.antt =====
-- The ledger and a table of records that it is about, for payments and for disbursements alike:
-- each record has an id, a reference of the provider, an amount, and is settled or not, and its
-- entries have one type.
pub mod Settle
pub mod Count
pub mod Write
use devops_g_9_tillflow.Base.{
  ℕ, String, ◌≡◌, sym, ◌∙◌, ap, inl, inr, Bool, true, false, not, ◌&&◌, Option, some, List, [], ◌∷◌,
  if◌then◌else◌, arith,
}
use devops_g_9_tillflow.Base.Table.{any_where, sum_of, In, Rowwise}
use devops_g_9_tillflow.Base.Table.Update.{Rowwise-In, Rowwise-In_back, sum_of-Rowwise}
use devops_g_9_tillflow.Payments.Common.{provider}
use devops_g_9_tillflow.Payments.Tables.{EntryType, LedgerEntry}
use devops_g_9_tillflow.Payments.Schema.{same_entry_type, ledger_clash}

-- UNIQUE (provider, provider_ref, entry_type) on the whole table.
unfoldable pub ledger_unique : List LedgerEntry → Bool
ledger_unique [] = true
ledger_unique (e ∷ es) = not (any_where (ledger_clash e) es) && ledger_unique es

-- How the records of a table are read.
pub record Reading (R : Type 0) : Type 0 where
  pub id : R → String
  pub ref : R → Option String
  pub amount : R → ℕ
  pub settled : R → Bool
  pub kind : EntryType

-- The entry is the one of the record.
pub record Entry {R : Type 0} (g : Reading R) (p : R) (e : LedgerEntry) : Type 0 where
  pub entry_type : e.entry_type ≡ g.kind
  pub record_id : e.record_id ≡ g.id p
  pub amount_minor : e.amount_minor ≡ g.amount p
  pub provider_ref : g.ref p ≡ some e.provider_ref
  pub of_provider : e.provider ≡ provider

-- What a record, and what an entry, adds to the money moved.
unfoldable pub moved_by : {R : Type 0} → Reading R → R → ℕ
moved_by g p = if g.settled p then g.amount p else 0

unfoldable pub booked : {R : Type 0} → Reading R → LedgerEntry → ℕ
booked g e = if same_entry_type e.entry_type g.kind then e.amount_minor else 0

-- Every settled record has its entry, every entry of the type has its record, and the sums agree.
pub record Books {R : Type 0} (g : Reading R) (rows : List R) (es : List LedgerEntry) : Type 0 where
  pub paid : (p : R) → In p rows → g.settled p ≡ true → (e : LedgerEntry) × In e es × Entry g p e
  pub owned :
      (e : LedgerEntry)
      → In e es
      → e.entry_type ≡ g.kind
      → (p : R) × In p rows × (g.settled p ≡ true) × Entry g p e
  pub unique : ledger_unique es ≡ true
  pub total : sum_of (booked g) es ≡ sum_of (moved_by g) rows

-- The record stays what it was to the ledger.
pub record Same {R : Type 0} (g : Reading R) (p q : R) : Type 0 where
  pub id : g.id q ≡ g.id p
  pub amount : g.amount q ≡ g.amount p
  pub settled : g.settled q ≡ g.settled p
  pub ref : g.settled p ≡ true → g.ref q ≡ g.ref p

module _ {R : Type 0} (g : Reading R) where
  Entry-Same :
      {p q : R} {e : LedgerEntry} → Same g p q → g.settled p ≡ true → Entry g p e → Entry g q e
  Entry-Same h s k = record {
    entry_type = k.entry_type;
    record_id = k.record_id ∙ sym h.id;
    amount_minor = k.amount_minor ∙ sym h.amount;
    provider_ref = h.ref s ∙ k.provider_ref;
    of_provider = k.of_provider;
  }

  moved_by-Same : (p q : R) → Same g p q → moved_by g q ≡ moved_by g p
  unfolding moved_by
  moved_by-Same p q h = rw (h.settled, h.amount)

  pub Books-Same :
      (rows rows' : List R) {es : List LedgerEntry}
      → Rowwise (Same g) rows rows'
      → Books g rows es
      → Books g rows' es
  Books-Same rows rows' h b = record {
    paid = λ q m s.
        let r = Rowwise-In_back (Same g) rows rows' h m in
        let was = sym r.2.settled ∙ s in
        let c = b.paid r.0 r.1 was in (c.0, c.1, Entry-Same r.2 was c.2);
    owned = λ e m t.
        let o = b.owned e m t in
        let r = Rowwise-In (Same g) rows rows' h o.1 in
        (r.0, r.1, r.2.settled ∙ o.2, Entry-Same r.2 o.2 o.3);
    unique = b.unique;
    total = b.total ∙ sym (sum_of-Rowwise (Same g) (moved_by g) moved_by-Same rows rows' h);
  }

  -- A record that is not settled yet is added.
  pub Books-cons :
      (p : R) (rows : List R) {es : List LedgerEntry}
      → g.settled p ≡ false
      → Books g rows es
      → Books g (p ∷ rows) es
  unfolding sum_of moved_by
  Books-cons p rows {es} u b = record {
    paid = λ q m s. paid q m s;
    owned = λ e m t. let o = b.owned e m t in (o.0, inr o.1, o.2, o.3);
    unique = b.unique;
    total = rw u (omega (arith, b.total));
  }
    where
      paid :
          (q : R) → In q (p ∷ rows) → g.settled q ≡ true → (e : LedgerEntry) × In e es × Entry g q e
      paid q (inl e) s = absurd (cc (ap g.settled e, s, u))
      paid q (inr m) s = b.paid q m s
