-- ===== src/Sales/Shipping.antt =====
-- delivery-note.use-cases.ts: a note is shipped and its quantities are posted to the order. The stock
-- and the events are left out.
use nestjs_api_template.Prelude.{
  List, Option, Result, Result-cases, String, [], ap, arith, err, if◌then◌else◌, inl, inr, map,
  map_err, none, not, ok, refl, some, suc, throw_if, ℕ, ◌==◌, ◌>>=◌, ◌>>◌, ◌∙◌, ◌∷◌, ◌≡◌,
}
use nestjs_api_template.Prelude.Int.{pos, ℤ, ◌+ℤ◌}
use nestjs_api_template.Prelude.Lists.{All-every, map-All, sum_by}
use nestjs_api_template.Prelude.Text.{str_eq}
use nestjs_api_template.Sales.DeliveryNote.{
  DeliveryNote, DeliveryNoteError, DeliveryNoteLine, illegal_note_transition, note_transition,
  note_version_conflict, ship, shipped,
}
use nestjs_api_template.Sales.Order.Delivery.{record_delivery}
use nestjs_api_template.Sales.Order.Invariant.{
  IsValid, line_with, record_delivery-IsValid, record_delivery_iff,
}
use nestjs_api_template.Sales.Order.Posted.{posted_to}
use nestjs_api_template.Sales.Order.State.{
  DeliveryPosting, SalesOrder, SalesOrderError, SalesOrderLine,
}

pub data ShippingError : Type 0 where
  note_failed : DeliveryNoteError → ShippingError
  order_failed : SalesOrderError → ShippingError

unfoldable pub assert_expected_version :
    DeliveryNote → Option ℕ → Result DeliveryNoteError (Unit {0})
assert_expected_version note none = ok tt
assert_expected_version note (some expected) =
    throw_if (not (expected == note.version)) (note_version_conflict note.id expected note.version)

unfoldable pub postings_of : List DeliveryNoteLine → List DeliveryPosting
postings_of =
    map (λ l. record { sales_order_line_id = l.sales_order_line_id; quantity = l.quantity })

-- What `save` of the repositories returns.
abbrev pub saved_note : DeliveryNote → DeliveryNote
saved_note n = record n { version = suc n.version }

abbrev pub saved_order : SalesOrder → SalesOrder
saved_order o = record o { version = suc o.version }

-- `ShipDeliveryNoteUseCase.execute`, of the note and the order that were found.
unfoldable pub execute_ship :
    DeliveryNote → SalesOrder → Option ℕ → ℕ → Result ShippingError (DeliveryNote × SalesOrder)
execute_ship note order expected_version now = do
  map_err note_failed (assert_expected_version note expected_version)
  done ← map_err note_failed (ship note now)
  sent ← map_err order_failed (record_delivery order (postings_of note.lines) now)
  ok (saved_note done, saved_order sent)

ship_lem :
    (note : DeliveryNote) (now : ℕ) {n : DeliveryNote}
    → ship note now ≡ ok n
    → n ≡ record note { status = shipped; shipped_at = some now; updated_at = now }
unfolding ship note_transition
ship_lem note now h = ground arith

shipped_refuses :
    (note : DeliveryNote) (now : ℕ)
    → note.status ≡ shipped
    → ship note now ≡ err (illegal_note_transition note.id shipped shipped)
unfolding ship note_transition
shipped_refuses note now h = rw h refl

-- What the lines of a note deliver of a line of an order.
abbrev pub shipped_of : List DeliveryNoteLine → String → ℤ
shipped_of ds k = sum_by (λ d. if str_eq d.sales_order_line_id k then d.quantity else pos 0) ds

-- A line of the order after the lines of a note.
abbrev pub shipped_line : List DeliveryNoteLine → SalesOrderLine → SalesOrderLine
shipped_line ds l = record l { delivered_qty = l.delivered_qty +ℤ shipped_of ds l.id }

posted_of_note :
    (ds : List DeliveryNoteLine) (k : String) → posted_to k (postings_of ds) ≡ shipped_of ds k
unfolding postings_of
posted_of_note [] k = refl
posted_of_note (d ∷ ds) k =
    ap (λ x. (if str_eq d.sales_order_line_id k then d.quantity else pos 0) +ℤ x)
      (posted_of_note ds k)

lines_after :
    (ds : List DeliveryNoteLine) (ls : List SalesOrderLine)
    → map (line_with (postings_of ds)) ls ≡ map (shipped_line ds) ls
lines_after ds ls = map-All _ _ ls (
    All-every
      (λ l. ap (λ x. record l { delivered_qty = l.delivered_qty +ℤ x }) (posted_of_note ds l.id))
      ls)

saved-IsValid : (o : SalesOrder) → IsValid o → IsValid (saved_order o)
saved-IsValid o v = record { distinct = v.distinct; within = v.within; progress = v.progress }

-- When a delivery note is shipped to a valid order, the order stays valid, and each of its lines has
-- gained the quantities of the lines of the note that name it, and is otherwise as it was; the note is
-- shipped, both are saved as their next versions, and shipping the note once more is refused whatever
-- the order is.
pub execute_ship_lem :
    (note : DeliveryNote) (order : SalesOrder) (expected : Option ℕ) (now : ℕ) {n : DeliveryNote}
    {o : SalesOrder}
    → IsValid order
    → execute_ship note order expected now ≡ ok (n, o)
    → IsValid o
      × (o.lines ≡ map (shipped_line note.lines) order.lines)
      × (o.version ≡ suc order.version)
      × (n ≡ record note {
        status = shipped;
        shipped_at = some now;
        updated_at = now;
        version = suc note.version;
      })
      × ((other : SalesOrder) (later : ℕ)
          → execute_ship n other none later
            ≡ err (note_failed (illegal_note_transition n.id shipped shipped)))
unfolding execute_ship assert_expected_version
execute_ship_lem note order expected now {n} {o} v h =
    elim (Result-cases (assert_expected_version note expected)) [
      | inr (e, bad) ↦ absurd (ground arith)
      | inl (_, version) ↦ elim (Result-cases (ship note now)) [
        | inr (e, bad) ↦ absurd (ground arith)
        | inl (done, shipping) ↦
            elim (Result-cases (record_delivery order (postings_of note.lines) now)) [
              | inr (e, bad) ↦ absurd (ground arith)
              | inl (gone, delivery) ↦
                  let note_is : n ≡ saved_note done = ground arith in
                  let order_is : o ≡ saved_order gone = ground arith in
                  let whole = note_is ∙ ap saved_note (ship_lem note now shipping) in
                  let status_is : n.status ≡ shipped = ap (λ x. x.status) whole in
                  let (_, _, _, _, end) =
                    (record_delivery_iff order (postings_of note.lines) now v).0 delivery in
                  let lines_are : o.lines ≡ map (line_with (postings_of note.lines)) order.lines =
                    ap (λ x. x.lines) order_is ∙ ap (λ x. x.lines) end in
                  (
                    rw order_is (
                        saved-IsValid gone
                          (record_delivery-IsValid order (postings_of note.lines) now v delivery)),
                    lines_are ∙ lines_after note.lines order.lines,
                    ap (λ x. x.version) order_is ∙ ap (λ x. suc x.version) end,
                    whole,
                    λ other later. rw (shipped_refuses n later status_is) refl,
                  )
            ]
      ]
    ]
