-- ===== src/Inventory/Fifo.antt =====
-- What a FIFO consumption costs and leaves, and in which order it takes the layers.
use mathlib.Core.List.Perm
use nestjs_api_template.Inventory.Costing.{
  CostLayerSnapshot, FifoConsumption, comes_first, consume_fifo, fifo_loop, insert_layer,
  sort_layers,
}
use nestjs_api_template.Inventory.Fefo.{
  IsAllocation, allocate_fefo-IsAllocation, allocate_fefo_parts, left_over, taken_from, total_stock,
  uncovered,
}
use nestjs_api_template.Prelude.{
  Bool-cases, List, Perm, [], append-nil, append_assoc, arith, false, inl, inr, map, ok, refl, true,
  ◌++◌, ◌<◌, ◌==◌, ◌∙◌, ◌∷◌, ◌≡◌, ◌⊎◌,
}
use nestjs_api_template.Prelude.Int.{
  int_laws, leb_ℤ, ltb_ℤ, min_ℤ, pos, ℤ, ◌*ℤ◌, ◌+ℤ◌, ◌-ℤ◌, ◌<ℤ◌, ◌≤ℤ◌,
}
use nestjs_api_template.Prelude.Lists.{All, filter, sum_by}
use nestjs_api_template.Prelude.Text.{Unicode}

abbrev remaining : CostLayerSnapshot → ℤ
remaining l = l.remaining_qty

-- A layer after its part was taken, and the cost of that part.
abbrev pub drawn : CostLayerSnapshot × ℤ → CostLayerSnapshot
drawn (l, take) = record l { remaining_qty = l.remaining_qty -ℤ take }

abbrev pub drawn_cost : CostLayerSnapshot × ℤ → ℤ
drawn_cost (l, take) = take *ℤ l.unit_cost_minor

-- One layer is used before another: it was received earlier or, where both were received at one
-- time, its id does not come after the other's.
abbrev pub IsBefore : ⦃u : Unicode⦄ → CostLayerSnapshot → CostLayerSnapshot → Type 0
IsBefore ⦃u⦄ a b =
    (a.received_at < b.received_at)
    ⊎ ((a.received_at ≡ b.received_at)
        × ((u.locale_compare a.id b.id ≤ℤ pos 0) ⊎ (pos 0 <ℤ u.locale_compare b.id a.id)))

-- Each layer is before the next.
abbrev pub AreOldestFirst : ⦃u : Unicode⦄ → List CostLayerSnapshot → Type 0
AreOldestFirst [] = Unit
AreOldestFirst (a ∷ []) = Unit
AreOldestFirst (a ∷ b ∷ ls) = IsBefore a b × AreOldestFirst (b ∷ ls)

-- The layers that still hold something, as the code sorts them.
abbrev open_layers : ⦃u : Unicode⦄ → List CostLayerSnapshot → List CostLayerSnapshot
open_layers layers = sort_layers (filter (λ l. ltb_ℤ (pos 0) l.remaining_qty) layers)

add_assoc : (a b c : ℤ) → a +ℤ b +ℤ c ≡ a +ℤ (b +ℤ c)
add_assoc a b c = omega int_laws

add_zero : (a : ℤ) → a +ℤ pos 0 ≡ a
add_zero a = omega int_laws

abbrev AreOpen : List CostLayerSnapshot → Type 0
AreOpen = All (λ l. pos 0 <ℤ l.remaining_qty)

fifo_loop_lem :
    (ls : List CostLayerSnapshot) (q c : ℤ) (done : List CostLayerSnapshot)
    → AreOpen ls
    → fifo_loop ls q c done ≡ record {
      cost_minor = c +ℤ sum_by drawn_cost (taken_from remaining ls q);
      updated = done ++ map drawn (taken_from remaining ls q);
      uncosted = left_over remaining ls q;
    }
unfolding fifo_loop taken_from left_over
fifo_loop_lem [] q c done h = rw (add_zero, append-nil)
fifo_loop_lem (l ∷ ls) q c done (o, h) = elim (Bool-cases (leb_ℤ q (pos 0))) [
  | inl e ↦ rw (e, add_zero, append-nil)
  | inr e ↦
      let f : leb_ℤ l.remaining_qty (pos 0) ≡ false = ground arith in
      rw (e, f)
        (fifo_loop_lem ls (q -ℤ min_ℤ l.remaining_qty q) _ _ h ∙ rw (add_assoc, append_assoc))
]

filter-AreOpen :
    (ls : List CostLayerSnapshot) → AreOpen (filter (λ l. ltb_ℤ (pos 0) l.remaining_qty) ls)
filter-AreOpen [] = tt
filter-AreOpen (l ∷ ls) = ground (arith, filter-AreOpen ls)

module _ ⦃u : Unicode⦄ where
  insert_layer-AreOpen :
      (x : CostLayerSnapshot) (ls : List CostLayerSnapshot)
      → pos 0 <ℤ x.remaining_qty
      → AreOpen ls
      → AreOpen (insert_layer x ls)
  unfolding insert_layer
  insert_layer-AreOpen x [] o h = (o, tt)
  insert_layer-AreOpen x (l ∷ ls) o (p, h) = ground (arith, insert_layer-AreOpen x ls o h)

  sort_layers-AreOpen : (ls : List CostLayerSnapshot) → AreOpen ls → AreOpen (sort_layers ls)
  unfolding sort_layers
  sort_layers-AreOpen [] h = tt
  sort_layers-AreOpen (l ∷ ls) (o, h) =
      insert_layer-AreOpen l (sort_layers ls) o (sort_layers-AreOpen ls h)

  insert_layer-perm :
      (x : CostLayerSnapshot) (ls : List CostLayerSnapshot) → Perm (insert_layer x ls) (x ∷ ls)
  unfolding insert_layer
  insert_layer-perm x [] = Perm.refl _
  insert_layer-perm x (l ∷ ls) = elim (Bool-cases (comes_first x l)) [
    | inl e ↦ rw e (Perm.refl _)
    | inr e ↦ rw e (Perm.trans (Perm.cons l (insert_layer-perm x ls)) (Perm.swap _ _ _))
  ]

  pub sort_layers-perm : (ls : List CostLayerSnapshot) → Perm (sort_layers ls) ls
  unfolding sort_layers
  sort_layers-perm [] = Perm.refl _
  sort_layers-perm (l ∷ ls) =
      Perm.trans (insert_layer-perm l (sort_layers ls)) (Perm.cons l (sort_layers-perm ls))

  comes_first-IsBefore : (x y : CostLayerSnapshot) → comes_first x y ≡ true → IsBefore x y
  unfolding comes_first
  comes_first-IsBefore x y h = elim (Bool-cases (x.received_at == y.received_at)) [
    | inl e ↦ inr (ground arith, inl (ground (arith, rw e at h)))
    | inr e ↦ inl (ground (arith, rw e at h))
  ]

  comes_later-IsBefore : (x y : CostLayerSnapshot) → comes_first x y ≡ false → IsBefore y x
  unfolding comes_first
  comes_later-IsBefore x y h = elim (Bool-cases (x.received_at == y.received_at)) [
    | inl e ↦ inr (ground arith, inr (ground (arith, rw e at h)))
    | inr e ↦ inl (ground (arith, rw e at h))
  ]

  insert_after :
      (y x : CostLayerSnapshot) (ls : List CostLayerSnapshot)
      → IsBefore y x
      → AreOldestFirst (y ∷ ls)
      → AreOldestFirst (y ∷ insert_layer x ls)
  unfolding insert_layer
  insert_after y x [] k h = (k, tt)
  insert_after y x (l ∷ ls) k h = elim (Bool-cases (comes_first x l)) [
    | inl e ↦ rw e (k, (comes_first-IsBefore x l e, h.1))
    | inr e ↦ rw e (h.0, insert_after l x ls (comes_later-IsBefore x l e) h.1)
  ]

  insert_layer-AreOldestFirst :
      (x : CostLayerSnapshot) (ls : List CostLayerSnapshot)
      → AreOldestFirst ls
      → AreOldestFirst (insert_layer x ls)
  unfolding insert_layer
  insert_layer-AreOldestFirst x [] h = tt
  insert_layer-AreOldestFirst x (l ∷ ls) h = elim (Bool-cases (comes_first x l)) [
    | inl e ↦ rw e (comes_first-IsBefore x l e, h)
    | inr e ↦ rw e (insert_after l x ls (comes_later-IsBefore x l e) h)
  ]

  sort_layers-AreOldestFirst : (ls : List CostLayerSnapshot) → AreOldestFirst (sort_layers ls)
  unfolding sort_layers
  sort_layers-AreOldestFirst [] = tt
  sort_layers-AreOldestFirst (l ∷ ls) =
      insert_layer-AreOldestFirst l (sort_layers ls) (sort_layers-AreOldestFirst ls)

  insert_layer-stock :
      (x : CostLayerSnapshot) (ls : List CostLayerSnapshot)
      → total_stock remaining (insert_layer x ls) ≡ total_stock remaining (x ∷ ls)
  unfolding insert_layer
  insert_layer-stock x [] = refl
  insert_layer-stock x (l ∷ ls) = elim (Bool-cases (comes_first x l)) [
    | inl e ↦ rw e
    | inr e ↦ rw (e, insert_layer-stock x ls) (omega int_laws)
  ]

  sort_layers-stock :
      (ls : List CostLayerSnapshot)
      → total_stock remaining (sort_layers ls) ≡ total_stock remaining ls
  unfolding sort_layers
  sort_layers-stock [] = refl
  sort_layers-stock (l ∷ ls) = insert_layer-stock l (sort_layers ls) ∙ rw (sort_layers-stock ls)

zero_add : (a : ℤ) → pos 0 +ℤ a ≡ a
zero_add a = omega int_laws

filter-stock :
    (ls : List CostLayerSnapshot)
    → total_stock remaining (filter (λ l. ltb_ℤ (pos 0) l.remaining_qty) ls)
      ≡ total_stock remaining ls
filter-stock [] = refl
filter-stock (l ∷ ls) = elim (Bool-cases (ltb_ℤ (pos 0) l.remaining_qty)) [
  | inl e ↦ rw (e, filter-stock ls)
  | inr e ↦
      let f : leb_ℤ l.remaining_qty (pos 0) ≡ true = ground arith in
      rw (e, f, zero_add) (filter-stock ls)
]

-- What a consumption of the layers has to be.
pub record IsFifo ⦃u : Unicode⦄ (layers : List CostLayerSnapshot) (q : ℤ) (r : FifoConsumption)
    : Type 0 where
  pub ordered : List CostLayerSnapshot
  pub same_layers : Perm ordered (filter (λ l. ltb_ℤ (pos 0) l.remaining_qty) layers)
  pub oldest_first : AreOldestFirst ordered
  pub allocations : List (CostLayerSnapshot × ℤ)
  pub allocation : IsAllocation (λ l. l.remaining_qty) ordered q (allocations, r.uncosted)
  pub cost_is : r.cost_minor ≡ sum_by drawn_cost allocations
  pub updated_is : r.updated ≡ map drawn allocations
  pub uncosted_is : r.uncosted ≡ uncovered (total_stock (λ l. l.remaining_qty) layers) q

fifo_loop-IsFifo :
    ⦃u : Unicode⦄ (layers : List CostLayerSnapshot) (q : ℤ)
    → pos 0 ≤ℤ q
    → IsFifo layers q (fifo_loop (open_layers layers) q (pos 0) [])
fifo_loop-IsFifo layers q h =
    let ls = open_layers layers in
    let e = fifo_loop_lem ls q (pos 0) [] (sort_layers-AreOpen _ (filter-AreOpen layers)) in
    let split = allocate_fefo_parts remaining ls q in
    let a : IsAllocation remaining ls q (taken_from remaining ls q, left_over remaining ls q) =
      rw split at (allocate_fefo-IsAllocation remaining ls q h) in
    rw e (record {
      ordered = ls;
      same_layers = sort_layers-perm _;
      oldest_first = sort_layers-AreOldestFirst _;
      allocations = taken_from remaining ls q;
      allocation = a;
      cost_is = zero_add _;
      updated_is = refl;
      uncosted_is = a.shortfall_is ∙ rw (sort_layers-stock, filter-stock);
    })

-- Consuming a positive quantity always succeeds. It takes from the layers that hold something in the
-- order of their receipt, and of their ids where they were received at one time: none is skipped
-- before the last that is used, every layer but the last is emptied, the cost is that of each part at
-- its layer's unit cost, each touched layer is written back with its part taken, and what is left
-- uncosted is what all layers together lack.
pub consume_fifo-IsFifo :
    ⦃u : Unicode⦄ (layers : List CostLayerSnapshot) (q : ℤ)
    → pos 0 <ℤ q
    → (r : FifoConsumption) × (consume_fifo layers q ≡ ok r) × IsFifo layers q r
unfolding consume_fifo
consume_fifo-IsFifo layers q h = (
  fifo_loop (open_layers layers) q (pos 0) [],
  ground arith,
  fifo_loop-IsFifo layers q (omega arith),
)
