-- ===== src/Sales/Order/Posted.antt =====
-- What the loop of `recordDelivery` accepts, and what its map holds afterwards.
use nestjs_api_template.Prelude.Maps
use nestjs_api_template.Prelude.{
  Bool-cases, List, Option-cases, Result-cases, String, [], ap, arith, false, if◌then◌else◌, inl,
  inr, ok, or_else, refl, some, some_inj, sym, true, ◌↔◌, ◌∙◌, ◌∷◌, ◌≡◌,
}
use nestjs_api_template.Prelude.Int.{
  +ℤ_assoc, +ℤ_parts, add_zero, int_laws, ltb_ℤ, pos, ℤ, ◌+ℤ◌, ◌-ℤ◌, ◌<ℤ◌, ◌≤ℤ◌, -ℤ_parts,
}
use nestjs_api_template.Prelude.Lists.{All, All-both, Pairs, find, find-test, sum_by}
use nestjs_api_template.Prelude.Text.{eq_iff, eq_refl, str_eq, str_eq_sym}
use nestjs_api_template.Sales.Order.Delivery.{add_posting, add_postings, has_id}
use nestjs_api_template.Sales.Order.State.{DeliveryPosting, SalesOrderLine}

-- No id is on two lines.
abbrev pub DistinctIds : List SalesOrderLine → Type 0
DistinctIds = Pairs (λ l k. str_eq k.id l.id ≡ false)

-- The quantity of the postings to a line.
abbrev pub posted_to : String → List DeliveryPosting → ℤ
posted_to k = sum_by (λ p. if str_eq p.sales_order_line_id k then p.quantity else pos 0)

-- What the map holds for a key.
abbrev pub held : List (String × ℤ) → String → ℤ
held m k = or_else (Maps.get k m) (pos 0)

-- Each line is the one that is found by its id.
pub find-DistinctIds :
    (lines : List SalesOrderLine)
    → DistinctIds lines
    → All (λ l. find (has_id l.id) lines ≡ some l) lines
find-DistinctIds [] h = tt
find-DistinctIds (l ∷ ls) h = (
  rw (eq_refl l.id) refl,
  All-both (λ x ne e. rw (str_eq_sym l.id x.id, ne) e) ls h.0 (find-DistinctIds ls h.1),
)

-- What one posting needs of the lines and the map, and what the map is afterwards.
record Adds (lines : List SalesOrderLine) (m : List (String × ℤ)) (p : DeliveryPosting)
    (n : List (String × ℤ)) : Type 0 where
  line : SalesOrderLine
  found : find (has_id p.sales_order_line_id) lines ≡ some line
  positive : pos 0 <ℤ p.quantity
  fits : held m line.id +ℤ p.quantity ≤ℤ line.quantity
  put_there : n ≡ Maps.put line.id (held m line.id +ℤ p.quantity) m

fits_iff : (a q l : ℤ) → (ltb_ℤ (l -ℤ a) q ≡ false) ↔ (a +ℤ q ≤ℤ l)
fits_iff a q l = (
  λ h. ground (arith, +ℤ_parts a q, -ℤ_parts l a),
  λ h. ground (arith, +ℤ_parts a q, -ℤ_parts l a),
)

add_posting-Adds :
    (lines : List SalesOrderLine) (m : List (String × ℤ)) (p : DeliveryPosting)
    {n : List (String × ℤ)}
    → add_posting lines m p ≡ ok n
    → Adds lines m p n
unfolding add_posting
add_posting-Adds lines m p {n} h = elim (Option-cases (find (has_id p.sales_order_line_id) lines)) [
  | inl e ↦ absurd (ground arith)
  | inr (l, e) ↦ record {
    line = l;
    found = e;
    positive = ground arith;
    fits = (fits_iff (held m l.id) p.quantity l.quantity).0 (ground arith);
    put_there = ground arith;
  }
]

Adds-add_posting :
    (lines : List SalesOrderLine) (m : List (String × ℤ)) (p : DeliveryPosting)
    {n : List (String × ℤ)}
    → Adds lines m p n
    → add_posting lines m p ≡ ok n
unfolding add_posting
Adds-add_posting lines m p {n} a = ground (
  arith,
  a.found,
  (fits_iff (held m a.line.id) p.quantity a.line.quantity).1 a.fits,
  a.positive,
  a.put_there,
)

-- The line of a posting has its id.
Adds-id :
    (lines : List SalesOrderLine) (m : List (String × ℤ)) (p : DeliveryPosting)
    {n : List (String × ℤ)} (a : Adds lines m p n)
    → a.line.id ≡ p.sales_order_line_id
Adds-id lines m p a =
    (eq_iff a.line.id p.sales_order_line_id).0
      (find-test (has_id p.sales_order_line_id) lines a.found)

-- The quantity that a posting has for a key.
abbrev share : String → DeliveryPosting → ℤ
share k p = if str_eq p.sales_order_line_id k then p.quantity else pos 0

-- A posting adds its quantity to the line that it names, and leaves the others.
Adds-get :
    (lines : List SalesOrderLine) (m : List (String × ℤ)) (p : DeliveryPosting)
    {n : List (String × ℤ)}
    → Adds lines m p n
    → (k : String) {v : ℤ} → Maps.get k m ≡ some v
    → Maps.get k n ≡ some (v +ℤ share k p)
Adds-get lines m p {n} a k {v} h =
    let now : Maps.get k n
        ≡ (if str_eq a.line.id k then some (held m a.line.id +ℤ p.quantity) else Maps.get k m) =
      ap (Maps.get k) a.put_there ∙ Maps.get-put a.line.id k _ m in
    elim (Bool-cases (str_eq p.sales_order_line_id k)) [
      | inl t ↦
          let key : a.line.id ≡ k = Adds-id lines m p a ∙ (eq_iff p.sales_order_line_id k).0 t in
          rw (now, t, key, eq_refl k, h) refl
      | inr f ↦ rw (now, Adds-id lines m p a, f, h) (ap some (omega int_laws))
    ]

Adds-within :
    (lines : List SalesOrderLine) (m : List (String × ℤ)) (p : DeliveryPosting)
    {n : List (String × ℤ)}
    → Adds lines m p n
    → (x : SalesOrderLine) {v : ℤ} → find (has_id x.id) lines ≡ some x
    → Maps.get x.id m ≡ some v
    → v ≤ℤ x.quantity
    → v +ℤ share x.id p ≤ℤ x.quantity
Adds-within lines m p a x {v} found e w = elim (Bool-cases (str_eq p.sales_order_line_id x.id)) [
  | inl t ↦
      let same : find (has_id x.id) lines ≡ some a.line =
        ap (λ k. find (has_id k) lines) (sym ((eq_iff p.sales_order_line_id x.id).0 t)) ∙ a.found in
      let line : a.line ≡ x = some_inj (sym same ∙ found) in
      let fits = a.fits in rw t (rw (line, e) at fits)
  | inr f ↦ rw (f, add_zero v) w
]

-- Every posting names a line and has a positive quantity.
abbrev pub Named : List SalesOrderLine → List DeliveryPosting → Type 0
Named lines = All (λ p.
    (pos 0 <ℤ p.quantity)
    × ((l : SalesOrderLine) × (find (has_id p.sales_order_line_id) lines ≡ some l)))

-- What the loop shows of the postings, when it returns.
pub add_postings-Named :
    (lines : List SalesOrderLine) (m : List (String × ℤ)) (ps : List DeliveryPosting)
    {n : List (String × ℤ)}
    → add_postings lines m ps ≡ ok n
    → Named lines ps
unfolding add_postings
add_postings-Named lines m [] h = tt
add_postings-Named lines m (p ∷ ps) {n} h = elim (Result-cases (add_posting lines m p)) [
  | inr (e, bad) ↦ absurd (ground arith)
  | inl (next, fine) ↦
      let a = add_posting-Adds lines m p fine in
      ((a.positive, (a.line, a.found)), add_postings-Named lines next ps {n = n} (ground arith))
]

-- What the loop leaves in the map for a line, and that it is within the line's quantity.
pub add_postings-get :
    (lines : List SalesOrderLine) (m : List (String × ℤ)) (ps : List DeliveryPosting)
    {n : List (String × ℤ)}
    → add_postings lines m ps ≡ ok n
    → (x : SalesOrderLine) {v : ℤ} → find (has_id x.id) lines ≡ some x
    → Maps.get x.id m ≡ some v
    → (Maps.get x.id n ≡ some (v +ℤ posted_to x.id ps))
      × (v ≤ℤ x.quantity → v +ℤ posted_to x.id ps ≤ℤ x.quantity)
unfolding add_postings
add_postings-get lines m [] {n} h x {v} found e =
    let same : n ≡ m = ground arith in
    (rw (same, e) (ap some (omega int_laws)), λ w. rw (add_zero v) w)
add_postings-get lines m (p ∷ ps) {n} h x {v} found e =
    elim (Result-cases (add_posting lines m p)) [
      | inr (e, bad) ↦ absurd (ground arith)
      | inl (next, fine) ↦
          let a = add_posting-Adds lines m p fine in
          let (later, within) =
            add_postings-get lines next ps (ground arith) x found (Adds-get lines m p a x.id e) in
          (
            later ∙ ap some (+ℤ_assoc v _ _),
            λ w.
                rw (← +ℤ_assoc v (share x.id p) (posted_to x.id ps))
                  (within (Adds-within lines m p a x found e w)),
          )
    ]

pub posted_nonneg :
    (lines : List SalesOrderLine) (ps : List DeliveryPosting) (k : String)
    → Named lines ps
    → pos 0 ≤ℤ posted_to k ps
posted_nonneg lines [] k h = omega int_laws
posted_nonneg lines (p ∷ ps) k h = elim (Bool-cases (str_eq p.sales_order_line_id k)) [
  | inl t ↦ rw t (omega (int_laws, h.0.0, posted_nonneg lines ps k h.1))
  | inr f ↦ rw f (omega (int_laws, posted_nonneg lines ps k h.1))
]

-- The lines are in the map, and the postings still to come fit.
abbrev pub Room :
    List SalesOrderLine → List (String × ℤ) → List DeliveryPosting → SalesOrderLine → Type 0
Room lines m ps x = (v : ℤ) × (Maps.get x.id m ≡ some v) × (v +ℤ posted_to x.id ps ≤ℤ x.quantity)

least_part : (v q rest limit : ℤ) → pos 0 ≤ℤ rest → v +ℤ (q +ℤ rest) ≤ℤ limit → v +ℤ q ≤ℤ limit
least_part v q rest limit h k = omega (int_laws, h, k)

-- The loop returns when every posting names a line, is positive, and all of them fit.
pub Named-add_postings :
    (lines : List SalesOrderLine) (m : List (String × ℤ)) (ps : List DeliveryPosting)
    → Named lines ps
    → ((x : SalesOrderLine) → find (has_id x.id) lines ≡ some x → Room lines m ps x)
    → (n : List (String × ℤ)) × (add_postings lines m ps ≡ ok n)
unfolding add_postings
Named-add_postings lines m [] h r = (m, refl)
Named-add_postings lines m (p ∷ ps) h r =
    let (positive, (l, found)) = h.0 in
    let key =
      (eq_iff l.id p.sales_order_line_id).0
        (find-test (has_id p.sales_order_line_id) lines found) in
    let own : find (has_id l.id) lines ≡ some l = ap (λ k. find (has_id k) lines) key ∙ found in
    let (w, at, room) = r l own in
    let rest_nonneg = posted_nonneg lines ps l.id h.1 in
    let fits : held m l.id +ℤ p.quantity ≤ℤ l.quantity = rw at (
      least_part w p.quantity (posted_to l.id ps) l.quantity rest_nonneg
        (rw (sym key, eq_refl l.id) at room)) in
    let next = Maps.put l.id (held m l.id +ℤ p.quantity) m in
    let a : Adds lines m p next = record {
      line = l;
      found = found;
      positive = positive;
      fits = fits;
      put_there = refl;
    } in
    let (n, e) = Named-add_postings lines next ps h.1 (λ x f.
      let (v, there, room) = r x f in
      (v +ℤ share x.id p, Adds-get lines m p a x.id there, rw (+ℤ_assoc v _ _) room)) in
    (n, rw (Adds-add_posting lines m p a) e)

-- Something is posted to the line that the first posting names.
pub first_posted :
    (lines : List SalesOrderLine) (p : DeliveryPosting) (ps : List DeliveryPosting)
    (l : SalesOrderLine)
    → Named lines (p ∷ ps)
    → find (has_id p.sales_order_line_id) lines ≡ some l
    → pos 0 <ℤ posted_to l.id (p ∷ ps)
first_posted lines p ps l h found =
    let key =
      (eq_iff l.id p.sales_order_line_id).0
        (find-test (has_id p.sales_order_line_id) lines found) in
    let rest = posted_nonneg lines ps l.id h.1 in
    let hit : str_eq p.sales_order_line_id l.id ≡ true = rw key (eq_refl p.sales_order_line_id) in
    rw hit (omega (int_laws, h.0.0, rest))
