-- ===== src/Payable/Withheld.antt =====
-- The tax of a voucher from its allocations to its certificate.
use nestjs_api_template.Prelude.Maps
use nestjs_api_template.Payable.Certificate.{
  Certificate, build_certificate_lines, certificate_totals,
}
use nestjs_api_template.Payable.Invoice.{VendorInvoice, VendorInvoiceLine}
use nestjs_api_template.Payable.Paid.{find_invoice_lem, settle_one_parts}
use nestjs_api_template.Payable.Paying.{
  Invoices, Pick, allocate, allocate_all, certificate_for, find_invoice, post_payment,
  saved_invoice, settle_all, settle_one,
}
use nestjs_api_template.Payable.Voucher.{
  CreateVoucherProps, DistinctInvoices, PaymentAllocation, PaymentVoucher, create_voucher,
  create_voucher_lem, tax_of, taxes_within,
}
use nestjs_api_template.Payable.Wht.{
  WhtBase, WhtLineInput, add_base, base_loop, group_of, wht_bases, wht_line, wht_lines_for,
  wht_lines_of,
}
use nestjs_api_template.Payable.WhtBounds.{wht_line_nonneg}
use nestjs_api_template.Prelude.{
  Bool, Bool-cases, List, Option, Result-cases, String, [], arith, code, false, inl, inr, none, ok,
  ok_inj, or_else, refl, some, some_inj, sym, ℕ, ◌++◌, ◌||◌, ◌∙◌, ◌∷◌, ◌≡◌, ◌⊎◌,
}
use nestjs_api_template.Prelude.Int.{
  +ℤ_assoc, add_zero, eq_of_parts, int_laws, leb_ℤ, ltb_ℤ, pos, zero_add, ℤ, ◌+ℤ◌, ◌<ℤ◌, ◌≤ℤ◌,
}
use nestjs_api_template.Prelude.Lists.{All, All-append, All-both, All-of_map, sum_by, sum_by-append}
use nestjs_api_template.Prelude.Text.{Unicode, is_empty, str_eq, str_eq_sym}

-- A group of a tax code: a base that is not negative, and a rate of at most one hundred per cent.
abbrev IsBase : WhtBase → Type 0
IsBase b = (pos 0 ≤ℤ b.base_minor) × (pos 0 ≤ℤ b.rate_bp) × (b.rate_bp ≤ℤ pos 10000)

-- The lines of an invoice: net amounts that are not negative, rates of at most one hundred per cent.
abbrev pub IsTaxed : VendorInvoice → Type 0
IsTaxed inv =
    (pos 0 <ℤ inv.totals.total_minor)
    × All (λ l. (pos 0 ≤ℤ l.net_minor) × (l.wht.wht_rate_bp ≤ℤ pos 10000)) inv.lines

-- The group that a line is added to.
group_of-IsBase :
    (o : Option WhtBase) (code : String) (l : VendorInvoiceLine)
    → pos 0 <ℤ l.wht.wht_rate_bp
    → l.wht.wht_rate_bp ≤ℤ pos 10000
    → ((g : WhtBase) → o ≡ some g → IsBase g)
    → IsBase (group_of o code l)
group_of-IsBase none code l p r k = (omega arith, omega (arith, p), r)
group_of-IsBase (some g) code l p r k = k g refl

add_base-IsBase :
    (groups : List (String × WhtBase)) (l : VendorInvoiceLine) (code : Option String)
    → pos 0 ≤ℤ l.net_minor
    → l.wht.wht_rate_bp ≤ℤ pos 10000
    → All (λ p. IsBase p.1) groups
    → All (λ p. IsBase p.1) (add_base groups l code)
unfolding add_base
add_base-IsBase groups l none n r h = h
add_base-IsBase groups l (some code) n r h =
    elim (Bool-cases (is_empty code || leb_ℤ l.wht.wht_rate_bp (pos 0))) [
      | inl e ↦ rw e h
      | inr e ↦
          let (lo, rl, rh) =
            group_of-IsBase (Maps.get code groups) code l (ground arith) r
              (λ g found. Maps.get-All (λ p. IsBase p.1) code groups h found) in
          rw e (Maps.put-All (λ p. IsBase p.1) code _ groups (omega (int_laws, lo, n), rl, rh) h)
    ]

base_loop-IsBase :
    (groups : List (String × WhtBase)) (lines : List VendorInvoiceLine)
    → All (λ l. (pos 0 ≤ℤ l.net_minor) × (l.wht.wht_rate_bp ≤ℤ pos 10000)) lines
    → All (λ p. IsBase p.1) groups
    → All (λ p. IsBase p.1) (base_loop groups lines)
unfolding base_loop
base_loop-IsBase groups [] h v = v
base_loop-IsBase groups (l ∷ rest) ((n, r), h) v =
    base_loop-IsBase (add_base groups l l.wht.wht_tax_code) rest h
      (add_base-IsBase groups l l.wht.wht_tax_code n r v)

wht_lines_nonneg :
    (settlement total : ℤ) (bases : List WhtBase) {lines : List WhtLineInput}
    → pos 0 ≤ℤ settlement
    → pos 0 <ℤ total
    → All IsBase bases
    → wht_lines_of settlement total bases ≡ ok lines
    → All (λ l. pos 0 ≤ℤ l.tax_minor) lines
unfolding wht_lines_of
wht_lines_nonneg settlement total [] {lines} s t b h =
    let none_at_all : lines ≡ [] = ground arith in rw none_at_all tt
wht_lines_nonneg settlement total (b ∷ rest) {lines} s t ((lo, rl, rh), v) h =
    elim (Result-cases (wht_line settlement total b)) [
      | inr (e, bad) ↦ absurd (ground (arith, bad))
      | inl (l, first) ↦ elim (Result-cases (wht_lines_of settlement total rest)) [
        | inr (e, bad) ↦ absurd (ground (arith, first, bad))
        | inl (ls, others) ↦
            let all_lines : lines ≡ l ∷ ls = ground (arith, first, others) in
            rw all_lines (
              wht_line_nonneg settlement total b s t lo rl rh first,
              wht_lines_nonneg settlement total rest s t v others,
            )
      ]
    ]

invoice_lines_nonneg :
    (inv : VendorInvoice) (settlement : ℤ) {lines : List WhtLineInput}
    → IsTaxed inv
    → pos 0 ≤ℤ settlement
    → wht_lines_for inv settlement ≡ ok lines
    → All (λ l. pos 0 ≤ℤ l.tax_minor) lines
unfolding wht_lines_for wht_bases
invoice_lines_nonneg inv settlement (positive, taxed) s h =
    wht_lines_nonneg settlement inv.totals.total_minor _ s positive
      (All-of_map IsBase (λ p. p.1) (base_loop [] inv.lines)
        (base_loop-IsBase [] inv.lines taxed tt))
      h

-- The tax of an allocation is that of the invoice for its amount.
WithheldAs : Invoices → PaymentAllocation → Type 0
WithheldAs invoices a =
    (inv : VendorInvoice) × (lines : List WhtLineInput) × (Maps.get a.invoice_id invoices
      ≡ some inv)
    × (wht_lines_for inv a.amount_minor ≡ ok lines)
    × (a.wht_minor ≡ sum_by (λ l. l.tax_minor) lines)
    × All (λ l. pos 0 ≤ℤ l.tax_minor) lines

-- Every invoice is stored under its id, and its lines are taxed as they should be.
abbrev pub IsStore : Invoices → Type 0
IsStore = All (λ p. (p.1.id ≡ p.0) × IsTaxed p.1)

allocate-WithheldAs :
    (vendor_id : String) (invoices : Invoices) (p : Pick) {a : PaymentAllocation}
    → IsStore invoices
    → allocate vendor_id invoices p ≡ ok a
    → WithheldAs invoices a
unfolding allocate WithheldAs
allocate-WithheldAs vendor_id invoices p {a} store h =
    elim (Result-cases (find_invoice p.invoice_id invoices)) [
      | inr (e, bad) ↦ absurd (ground (arith, bad))
      | inl (inv, found) ↦
          elim (Result-cases (wht_lines_for inv (or_else p.amount_minor inv.balance_minor))) [
            | inr (e, bad) ↦ absurd (ground (arith, found, bad))
            | inl (lines, taxed) ↦
                let there = find_invoice_lem p.invoice_id invoices found in
                let (same_id, good) =
                  Maps.get-All (λ q. (q.1.id ≡ q.0) × IsTaxed q.1) p.invoice_id invoices store
                    there in
                let id_is : a.invoice_id ≡ p.invoice_id = ground (arith, found, taxed, same_id) in
                let amount_is : a.amount_minor ≡ or_else p.amount_minor inv.balance_minor =
                  ground (arith, found, taxed) in
                let wht_is : a.wht_minor ≡ sum_by (λ l. l.tax_minor) lines =
                  ground (arith, found, taxed) in
                let positive : pos 0 ≤ℤ or_else p.amount_minor inv.balance_minor =
                  ground (arith, found, taxed) in
                rw (id_is, amount_is, wht_is)
                  (inv, lines, there, taxed, refl, invoice_lines_nonneg inv _ good positive taxed)
          ]
    ]

allocate_all-WithheldAs :
    (vendor_id : String) (invoices : Invoices) (picks : List Pick) {list : List PaymentAllocation}
    → IsStore invoices
    → allocate_all vendor_id invoices picks ≡ ok list
    → All (WithheldAs invoices) list
unfolding allocate_all
allocate_all-WithheldAs vendor_id invoices [] {list} store h =
    let nothing : list ≡ [] = ground arith in rw nothing tt
allocate_all-WithheldAs vendor_id invoices (p ∷ rest) {list} store h =
    elim (Result-cases (allocate vendor_id invoices p)) [
      | inr (e, bad) ↦ absurd (ground (arith, bad))
      | inl (a, first) ↦ elim (Result-cases (allocate_all vendor_id invoices rest)) [
        | inr (e, bad) ↦ absurd (ground (arith, first, bad))
        | inl (others, fine) ↦
            let list_is : list ≡ a ∷ others = ground (arith, first, fine) in
            rw list_is (
              allocate-WithheldAs vendor_id invoices p store first,
              allocate_all-WithheldAs vendor_id invoices rest store fine,
            )
      ]
    ]

-- A settlement of another invoice leaves the tax of an allocation as it is.
WithheldAs-put :
    (invoices : Invoices) (id : String) (t : VendorInvoice) (b : PaymentAllocation)
    → WithheldAs invoices b
    → str_eq b.invoice_id id ≡ false
    → WithheldAs (Maps.put id t invoices) b
unfolding WithheldAs
WithheldAs-put invoices id t b (inv, lines, found, taxed, tax, good) other = (
  inv,
  lines,
  Maps.get-put id b.invoice_id t invoices ∙ rw (str_eq_sym id b.invoice_id, other) found,
  taxed,
  tax,
  good,
)

taxes_chain : (x w l r a : ℤ) → x ≡ w +ℤ l +ℤ r → a ≡ l → x ≡ w +ℤ (a +ℤ r)
taxes_chain x w l r a e f = e ∙ rw f (+ℤ_assoc w l r)

settle_all_taxes :
    (now : ℕ) (invoices : Invoices) (wht : List WhtLineInput) (list : List PaymentAllocation)
    {r : Invoices × List WhtLineInput}
    → All (WithheldAs invoices) list
    → DistinctInvoices list
    → All (λ l. pos 0 ≤ℤ l.tax_minor) wht
    → settle_all now (invoices, wht) list ≡ ok r
    → All (λ l. pos 0 ≤ℤ l.tax_minor) r.1
      × (sum_by (λ l. l.tax_minor) r.1 ≡ sum_by (λ l. l.tax_minor) wht +ℤ tax_of list)
unfolding settle_all WithheldAs
settle_all_taxes now invoices wht [] {r} w d nonneg h =
    let end : r ≡ (invoices, wht) = ground arith in rw end (nonneg, sym (add_zero _))
settle_all_taxes now invoices wht (a ∷ rest) {r} (w, ws) (apart, d) nonneg h =
    elim (Result-cases (settle_one now (invoices, wht) a)) [
      | inr (e, bad) ↦ absurd (ground (arith, bad))
      | inl (next, fine) ↦
          let (inv, t, lines, found, taxed, _, next_is) =
            settle_one_parts now invoices wht a fine in
          let (inv', lines', found', taxed', tax, good) = w in
          let same_inv : inv' ≡ inv = some_inj (sym found' ∙ found) in
          let same_lines : lines' ≡ lines = ok_inj (sym (rw same_inv at taxed') ∙ taxed) in
          let kept =
            All-both (λ b g ne. WithheldAs-put invoices a.invoice_id (saved_invoice t) b g ne) rest
              ws apart in
          let (all_good, total) =
            settle_all_taxes now (Maps.put a.invoice_id (saved_invoice t) invoices) (wht ++ lines)
              rest {r = r} kept d (All-append _ wht lines nonneg (rw same_lines at good))
              (rw (fine, next_is) at h) in
          (
            all_good,
            taxes_chain _ _ _ _ _ (total ∙ rw (sum_by-append (λ l. l.tax_minor) wht lines) refl)
                (rw same_lines at tax),
          )
    ]

nothing_withheld : (w : ℤ) → pos 0 ≤ℤ w → ltb_ℤ (pos 0) w ≡ false → w ≡ pos 0
nothing_withheld w h e = ground (arith, eq_of_parts w (pos 0))

-- On stored invoices that are kept under their ids and have a total above zero, lines whose net
-- amounts are not negative and rates of at most one hundred per cent: a voucher whose allocations
-- were worked out on them and that is posted on them is given a certificate exactly if it withholds
-- tax, and the total tax of the certificate is the tax of the voucher.
pub certificate_is_withheld :
    ⦃u : Unicode⦄ (gate_open : Bool) (vendor_id : String) (invoices : Invoices) (picks : List Pick)
    (props : CreateVoucherProps) (new_id : ℕ → String) (now : ℕ) {settled : Invoices}
    {v done : PaymentVoucher} {cert : Option Certificate}
    → IsStore invoices
    → create_voucher props ≡ ok v
    → allocate_all vendor_id invoices picks ≡ ok v.allocations
    → post_payment gate_open invoices v new_id now ≡ ok (settled, done, cert)
    → ((v.wht_minor ≡ pos 0) × (cert ≡ none))
      ⊎ ((c : Certificate) × (pos 0 <ℤ v.wht_minor)
          × (cert ≡ some c)
          × (c.total_tax_minor ≡ v.wht_minor))
unfolding post_payment
certificate_is_withheld gate_open vendor_id invoices picks props new_id now {settled} {v} {done}
      {cert} store created allocated h =
    elim (Result-cases (settle_all now (invoices, []) v.allocations)) [
      | inr (e, bad) ↦ absurd (ground (arith, bad))
      | inl ((next, wht), fine) ↦
          let (each, distinct, _, wht_is, _, _, _) = create_voucher_lem props created in
          let (good, total) =
            settle_all_taxes now invoices [] v.allocations
              (allocate_all-WithheldAs vendor_id invoices picks store allocated) distinct tt fine in
          let cert_is : cert ≡ certificate_for v wht new_id = ground (arith, fine) in
          let certified : (build_certificate_lines wht new_id).total_tax_minor ≡ v.wht_minor =
            (certificate_totals wht new_id good).0 ∙ total ∙ zero_add _ ∙ sym wht_is in
          let (_, nonneg, _) = taxes_within v.allocations each in
          elim (Bool-cases (ltb_ℤ (pos 0) v.wht_minor)) [
            | inl e ↦
                inr
                  (build_certificate_lines wht new_id, ground arith, cert_is ∙ rw e refl, certified)
            | inr e ↦
                inl (nothing_withheld v.wht_minor (rw (← wht_is) at nonneg) e, cert_is ∙ rw e refl)
          ]
    ]
