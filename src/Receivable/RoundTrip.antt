-- ===== src/Receivable/RoundTrip.antt =====
-- What posting a receipt and voiding it again leaves of the invoices.
use nestjs_api_template.Prelude.Maps
use nestjs_api_template.Prelude.{
  Bool, List, Option, Option-cases, Result, Result-cases, String, [], ap, arith, false, inl, inr,
  none, ok, ok_inj, refl, some, some_inj, suc, sym, true, ℕ, ◌∙◌, ◌∷◌, ◌≡◌,
}
use nestjs_api_template.Prelude.Int.{ℤ}
use nestjs_api_template.Prelude.Lists.{All, All-both}
use nestjs_api_template.Prelude.Text.{eq_refl, str_eq, str_eq_sym}
use nestjs_api_template.Receivable.Invoice.Methods.{apply_settlement, reverse_settlement}
use nestjs_api_template.Receivable.Invoice.Settlement.{
  IsValid, apply_settlement_iff, reverse_settlement-apply_settlement,
}
use nestjs_api_template.Receivable.Invoice.State.{InvoiceError, SalesInvoice}
use nestjs_api_template.Receivable.Posting.{
  Invoices, assert_version, execute_post, execute_void, give_back, saved_invoice, update_invoice,
  update_invoices,
}
use nestjs_api_template.Receivable.Receipt.{
  Allocation, DistinctInvoices, Receipt, post_receipt, posted, settlement_minor,
  validate_allocations, validate_allocations_lem, void, void_receipt,
}

-- No allocation is to this invoice.
abbrev pub Elsewhere : String → List Allocation → Type 0
Elsewhere k = All (λ a. str_eq a.invoice_id k ≡ false)

module _ (f : SalesInvoice → ℤ → Result InvoiceError SalesInvoice) where
  -- An allocation whose invoice is stored and is changed without an error.
  abbrev pub Changes : Invoices → Allocation → Type 0
  Changes m a =
      (x : SalesInvoice) × (Maps.get a.invoice_id m ≡ some x)
      × ((t : SalesInvoice) × (f x a.amount_minor ≡ ok t))

  -- The same, with what is stored afterwards.
  abbrev pub Changed : Invoices → Invoices → Allocation → Type 0
  Changed m n a =
      (x : SalesInvoice) × (Maps.get a.invoice_id m ≡ some x)
      × ((t : SalesInvoice) × (f x a.amount_minor ≡ ok t)
          × (Maps.get a.invoice_id n ≡ some (saved_invoice t)))

  update_invoice_lem :
      (m : Invoices) (a : Allocation) {n : Invoices}
      → update_invoice f m a ≡ ok n
      → Changed m n a × ((k : String) → str_eq a.invoice_id k ≡ false → Maps.get k n ≡ Maps.get k m)
  unfolding update_invoice
  update_invoice_lem m a {n} h = elim (Option-cases (Maps.get a.invoice_id m)) [
    | inl e ↦ absurd (ground arith)
    | inr (x, e) ↦ elim (Result-cases (f x a.amount_minor)) [
      | inr (er, bad) ↦ absurd (ground arith)
      | inl (t, fine) ↦
          let same : n ≡ Maps.put a.invoice_id (saved_invoice t) m = ground arith in
          (
            (
              x,
              e,
              (
                t,
                fine,
                rw
                    (
                      same,
                      Maps.get-put a.invoice_id a.invoice_id (saved_invoice t) m,
                      eq_refl a.invoice_id,
                    )
                    refl,
              ),
            ),
            λ k ne. rw (same, Maps.get-put a.invoice_id k (saved_invoice t) m, ne) refl,
          )
    ]
  ]

  update_invoices-Elsewhere :
      (m : Invoices) (rest : List Allocation) {n : Invoices}
      → update_invoices f m rest ≡ ok n
      → (k : String) → Elsewhere k rest
      → Maps.get k n ≡ Maps.get k m
  unfolding update_invoices
  update_invoices-Elsewhere m [] {n} h k e = let same : n ≡ m = ground arith in ap (Maps.get k) same
  update_invoices-Elsewhere m (a ∷ rest) {n} h k e = elim (Result-cases (update_invoice f m a)) [
    | inr (er, bad) ↦ absurd (ground arith)
    | inl (next, fine) ↦
        update_invoices-Elsewhere next rest {n = n} (ground arith) k e.1
        ∙ (update_invoice_lem m a fine).1 k e.0
  ]

  -- What the loop changes, when it returns.
  pub update_invoices-Changed :
      (m : Invoices) (rest : List Allocation) {n : Invoices}
      → DistinctInvoices rest
      → update_invoices f m rest ≡ ok n
      → All (Changed m n) rest
  unfolding update_invoices
  update_invoices-Changed m [] d h = tt
  update_invoices-Changed m (a ∷ rest) {n} d h = elim (Result-cases (update_invoice f m a)) [
    | inr (er, bad) ↦ absurd (ground arith)
    | inl (next, fine) ↦
        let ((x, e, (t, done, now)), others) = update_invoice_lem m a fine in
        let tail : update_invoices f next rest ≡ ok n = ground arith in
        let kept = update_invoices-Elsewhere next rest tail a.invoice_id d.0 in
        let later = update_invoices-Changed next rest d.1 tail in
        (
          (x, e, (t, done, kept ∙ now)),
          All-both
              (λ b ne c. (
                c.0,
                sym (others b.invoice_id (str_eq_sym a.invoice_id b.invoice_id ∙ ne)) ∙ c.1,
                c.2,
              ))
              rest d.0 later,
        )
  ]

  -- The loop returns when every invoice is stored and is changed without an error.
  pub Changes-update_invoices :
      (m : Invoices) (rest : List Allocation)
      → DistinctInvoices rest
      → All (Changes m) rest
      → (n : Invoices) × (update_invoices f m rest ≡ ok n)
  unfolding update_invoices update_invoice
  Changes-update_invoices m [] d c = (m, refl)
  Changes-update_invoices m (a ∷ rest) d c =
      let (x, e, (t, done)) = c.0 in
      let next = Maps.put a.invoice_id (saved_invoice t) m in
      let step : update_invoice f m a ≡ ok next = ground (arith, e, done) in
      let others = (update_invoice_lem m a step).1 in
      let (n, tail) = Changes-update_invoices next rest d.1 (
        All-both
          (λ b ne c.
            (c.0, others b.invoice_id (str_eq_sym a.invoice_id b.invoice_id ∙ ne) ∙ c.1, c.2))
          rest d.0 c.1) in
      (n, rw step tail)

abbrev settle_at : ℕ → SalesInvoice → ℤ → Result InvoiceError SalesInvoice
settle_at now inv amount = apply_settlement inv amount now

abbrev reverse_at : ℕ → SalesInvoice → ℤ → Result InvoiceError SalesInvoice
reverse_at now inv amount = reverse_settlement inv amount now

-- What a posting that returns has done.
record PostedAs (invoices : Invoices) (r : Receipt) (now : ℕ) (st : Invoices × Receipt)
    : Type 0 where
  loop : update_invoices (settle_at now) invoices r.allocations ≡ ok st.0
  same_allocations : st.1.allocations ≡ r.allocations
  status_is : st.1.status ≡ posted

execute_post-PostedAs :
    (gate_open : Bool) (invoices : Invoices) (r : Receipt) (expected : Option ℕ) (now : ℕ)
    {st : Invoices × Receipt}
    → execute_post gate_open invoices r expected now ≡ ok st
    → PostedAs invoices r now st
unfolding execute_post post_receipt
execute_post-PostedAs gate_open invoices r expected now {st} h =
    elim (Result-cases (assert_version r expected)) [
      | inr (e, bad) ↦ absurd (ground arith)
      | inl (_, version) ↦
          elim (Result-cases (update_invoices (settle_at now) invoices r.allocations)) [
            | inr (e, bad) ↦ absurd (ground arith)
            | inl (settled, fine) ↦ record {
              loop = ground arith;
              same_allocations = ground arith;
              status_is = ground arith;
            }
          ]
    ]

posted_is_voided :
    (m : Invoices) (s : Receipt) (later : ℕ) {n : Invoices}
    → s.status ≡ posted
    → update_invoices (reverse_at later) m s.allocations ≡ ok n
    → execute_void true m s none later
      ≡ ok (
        n,
        record s {
          status = void;
          voided_at = some later;
          updated_at = later;
          version = suc s.version;
        },
      )
unfolding execute_void give_back assert_version void_receipt
posted_is_voided m s later posted_now loop = rw posted_now (rw loop refl)

-- The invoice of an allocation is as it was, but for the time of the change and the two versions that
-- it was saved as.
abbrev pub GivenBack : ℕ → Invoices → Invoices → Allocation → Type 0
GivenBack later m n a =
    (x : SalesInvoice) × (Maps.get a.invoice_id m ≡ some x)
    × (Maps.get a.invoice_id n
        ≡ some (record x { updated_at = later; version = suc (suc x.version) }))

-- A settlement that is saved and reversed.
saved_round :
    (x : SalesInvoice) (amount : ℤ) (now later : ℕ) {t : SalesInvoice}
    → IsValid x
    → apply_settlement x amount now ≡ ok t
    → reverse_settlement (saved_invoice t) amount later
      ≡ ok (record x { updated_at = later; version = suc x.version })
saved_round x amount now later {t} v h =
    let (opened, positive, fits, end) = (apply_settlement_iff x amount now v).0 h in
    reverse_settlement-apply_settlement (saved_invoice x) amount now later v (
      (apply_settlement_iff (saved_invoice x) amount now v).1
        (opened, positive, fits, ap saved_invoice end))

given_back :
    (now later : ℕ) (m settled n : Invoices) (a : Allocation)
    → All (λ e. IsValid e.1) m
    → Changed (settle_at now) m settled a
    → Changed (reverse_at later) settled n a
    → GivenBack later m n a
given_back now later m settled n a v (x, e, (t, fine, there)) (t', e', (y, back, end)) =
    let round =
      saved_round x a.amount_minor now later (Maps.get-All (λ e. IsValid e.1) a.invoice_id m v e)
        fine in
    let same : t' ≡ saved_invoice t = some_inj (sym e' ∙ there) in
    let touched : y ≡ record x { updated_at = later; version = suc x.version } =
      ok_inj (sym (rw same at back) ∙ round) in
    (x, e, end ∙ ap (λ z. some (saved_invoice z)) touched)

-- A receipt with valid allocations that was posted on valid invoices can be voided while the period
-- is open: every invoice that it settled is then as it was before, but for the time of the change
-- and a version that is two higher, and no other invoice has changed.
pub execute_void-execute_post :
    (gate_open : Bool) (invoices : Invoices) (r : Receipt) (expected : Option ℕ) (now later : ℕ)
    {st : Invoices × Receipt}
    → validate_allocations r.allocations (settlement_minor r) ≡ ok tt
    → All (λ e. IsValid e.1) invoices
    → execute_post gate_open invoices r expected now ≡ ok st
    → (back : Invoices × Receipt) × (execute_void true st.0 st.1 none later ≡ ok back)
      × All (GivenBack later invoices back.0) r.allocations
      × ((k : String) → Elsewhere k r.allocations → Maps.get k back.0 ≡ Maps.get k invoices)
execute_void-execute_post gate_open invoices r expected now later {st} allocs v h =
    let (_, d, _) = validate_allocations_lem r.allocations (settlement_minor r) allocs in
    let p = execute_post-PostedAs gate_open invoices r expected now h in
    let settled = update_invoices-Changed (settle_at now) invoices r.allocations d p.loop in
    let ready =
      All-both
        (λ a c _.
          let (x, e, (t, fine, there)) = c in
          (
            saved_invoice t,
            there,
            (
              record x { updated_at = later; version = suc x.version },
              saved_round x a.amount_minor now later
                  (Maps.get-All (λ e. IsValid e.1) a.invoice_id invoices v e) fine,
            ),
          ))
        r.allocations settled settled in
    let (n, loop) = Changes-update_invoices (reverse_at later) st.0 r.allocations d ready in
    let reversed = update_invoices-Changed (reverse_at later) st.0 r.allocations d loop in
    (
      (
        n,
        record st.1 {
          status = void;
          voided_at = some later;
          updated_at = later;
          version = suc st.1.version;
        },
      ),
      posted_is_voided st.0 st.1 later p.status_is (rw p.same_allocations loop),
      All-both (λ a c b. given_back now later invoices st.0 n a v c b) r.allocations settled
          reversed,
      λ k e.
          update_invoices-Elsewhere (reverse_at later) st.0 r.allocations loop k e
          ∙ update_invoices-Elsewhere (settle_at now) invoices r.allocations p.loop k e,
    )
