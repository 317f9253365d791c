-- ===== src/Payments/Ledger/Settle.antt =====
-- One record is settled and its entry is written: the books after it.
use devops_g_9_tillflow.Base.{
  ℕ, ◌+◌, ◌*◌, ◌≡◌, ◌≢◌, refl, sym, ◌∙◌, subst, ap, inl, inr, ◌⊎◌, true, false, Bool, some, List,
  ◌∷◌, arith, Bool-cases, eq_iff,
}
use devops_g_9_tillflow.Base.Table.{In, Rowwise, any_where, update_where, count_where, sum_of}
use devops_g_9_tillflow.Base.Table.Update.{
  Rowwise-update_split, Rowwise-In, Rowwise-In_back, any_where-true-In, sum_of-update,
}
use devops_g_9_tillflow.Payments.Tables.{EntryType, LedgerEntry}
use devops_g_9_tillflow.Payments.Schema.{ledger_clash, same_entry_type}
use devops_g_9_tillflow.Payments.Ledger.{Reading, Entry, Books, moved_by, booked, ledger_unique}

pub same_entry_type-eq : (a b : EntryType) → same_entry_type a b ≡ true → a ≡ b
unfolding same_entry_type
same_entry_type-eq a b h = ground arith

pub same_entry_type_refl : (a : EntryType) → same_entry_type a a ≡ true
unfolding same_entry_type
same_entry_type_refl a = ground arith

clash_parts :
    (e f : LedgerEntry)
    → ledger_clash e f ≡ true
    → (e.provider_ref ≡ f.provider_ref) × (e.entry_type ≡ f.entry_type)
unfolding ledger_clash
clash_parts e f h =
    ground
      (arith, eq_iff e.provider_ref f.provider_ref, same_entry_type-eq e.entry_type f.entry_type)

-- `f` settles the record `p`, the only one that `c` selects, and keeps what its entry reads.
pub record Settles {R : Type 0} (g : Reading R) (rows : List R) (c : R → Bool) (f : R → R) (p : R)
    : Type 0 where
  pub member : In p rows
  pub only : (q : R) → In q rows → c q ≡ true → q ≡ p
  pub selected : c p ≡ true
  pub unsettled : g.settled p ≡ false
  pub settled : g.settled (f p) ≡ true
  pub id : g.id (f p) ≡ g.id p
  pub amount : g.amount (f p) ≡ g.amount p
  pub ref : g.ref (f p) ≡ g.ref p

module _ {R : Type 0} (g : Reading R) (rows : List R) (c : R → Bool) (f : R → R) (p : R)
    (k : Settles g rows c f p) where
  abbrev after_rows : List R
  after_rows = update_where c f rows

  -- A row of the table before, and its image: the record moves, the others stay.
  abbrev Image : R → R → Type 0
  Image q q' = ((q ≡ p) × (q' ≡ f p)) ⊎ ((q' ≡ q) × (q ≢ p))

  images : Rowwise Image rows after_rows
  images =
      Rowwise-update_split Image c f rows (λ q n h. inl (k.only q n h, ap f (k.only q n h)))
        (λ q n h. inr (refl, λ e. cc (ap c e, k.selected)))

  moved_more : moved_by g (f p) ≡ moved_by g p + g.amount p
  unfolding moved_by
  moved_more = rw (k.settled, k.amount, k.unsettled) (omega arith)

  moved_after :
      count_where c rows ≡ 1
      → sum_of (moved_by g) after_rows ≡ sum_of (moved_by g) rows + g.amount p
  moved_after once = omega (
    arith,
    sum_of-update (moved_by g) (g.amount p) c f rows (λ q n h.
        subst (λ a. moved_by g (f a) ≡ moved_by g a + g.amount p) (sym (k.only q n h)) moved_more),
    ap (λ (j : ℕ). j * g.amount p) once,
  )

  module _ (es : List LedgerEntry) (b : Books g rows es) (x : LedgerEntry)
      (writes : Entry g p x) where
    -- The key of the entry is free if no other record has the reference.
    pub key_is_free :
        ((q : R) → In q rows → g.ref q ≡ g.ref p → q ≡ p) → any_where (ledger_clash x) es ≡ false
    key_is_free one = elim (Bool-cases (any_where (ledger_clash x) es)) [
      | inr free ↦ free
      | inl taken ↦
          let y = any_where-true-In (ledger_clash x) es taken in
          let j = clash_parts x y.0 y.2 in
          let o = b.owned y.0 y.1 (sym j.1 ∙ writes.entry_type) in
          let same : o.0 ≡ p =
            one o.0 o.1 (o.3.provider_ref ∙ ap some (sym j.0) ∙ sym writes.provider_ref) in
          absurd (cc (ap g.settled same, o.2, k.unsettled))
    ]

    entry_image : Entry g (f p) x
    entry_image = record {
      entry_type = writes.entry_type;
      record_id = writes.record_id ∙ sym k.id;
      amount_minor = writes.amount_minor ∙ sym k.amount;
      provider_ref = k.ref ∙ writes.provider_ref;
      of_provider = writes.of_provider;
    }

    abbrev Owner : LedgerEntry → Type 0
    Owner y = (a : R) × In a after_rows × (g.settled a ≡ true) × Entry g a y

    paid_after :
        (q q' : R)
        → In q rows
        → Image q q'
        → g.settled q' ≡ true
        → (e : LedgerEntry) × In e (x ∷ es) × Entry g q' e
    paid_after q q' n (inl (e, e')) s = (x, inl refl, subst (λ a. Entry g a x) (sym e') entry_image)
    paid_after q q' n (inr (e, ne)) s =
        let j = b.paid q n (subst (λ a. g.settled a ≡ true) e s) in
        (j.0, inr j.1, subst (λ a. Entry g a j.0) (sym e) j.2)

    new-Image : (q' : R) → In q' after_rows → Image p q' → Owner x
    new-Image q' n (inl (e, e')) = (
      q',
      n,
      subst (λ a. g.settled a ≡ true) (sym e') k.settled,
      subst (λ a. Entry g a x) (sym e') entry_image,
    )
    new-Image q' n (inr (e, ne)) = absurd (ne refl)

    old-Image :
        (y : LedgerEntry) (q q' : R)
        → g.settled q ≡ true
        → Entry g q y
        → In q' after_rows
        → Image q q'
        → Owner y
    old-Image y q q' s j n (inl (e, e')) = absurd (cc (ap g.settled e, s, k.unsettled))
    old-Image y q q' s j n (inr (e, ne)) =
        (q', n, subst (λ a. g.settled a ≡ true) (sym e) s, subst (λ a. Entry g a y) (sym e) j)

    booked_x : booked g x ≡ g.amount p
    unfolding booked
    booked_x = rw writes.entry_type (rw (same_entry_type_refl g.kind) writes.amount_minor)

    total_after :
        count_where c rows ≡ 1 → sum_of (booked g) (x ∷ es) ≡ sum_of (moved_by g) after_rows
    unfolding sum_of
    total_after once = omega (arith, moved_after once, booked_x, b.total)

    owner : (y : LedgerEntry) → In y (x ∷ es) → y.entry_type ≡ g.kind → Owner y
    owner y (inl e) t =
        let r = Rowwise-In Image rows after_rows images k.member in
        let o = new-Image r.0 r.1 r.2 in (o.0, o.1, o.2, subst (Entry g o.0) (sym e) o.3)
    owner y (inr n) t =
        let o = b.owned y n t in
        let r = Rowwise-In Image rows after_rows images o.1 in old-Image y o.0 r.0 o.2 o.3 r.1 r.2

    pub Books-settle :
        count_where c rows ≡ 1 → any_where (ledger_clash x) es ≡ false → Books g after_rows (x ∷ es)
    unfolding ledger_unique
    Books-settle once free = record {
      paid = λ q' n s.
          let r = Rowwise-In_back Image rows after_rows images n in paid_after r.0 q' r.1 r.2 s;
      owned = λ y n t. owner y n t;
      unique = rw free b.unique;
      total = total_after once;
    }
