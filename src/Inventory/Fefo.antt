-- ===== src/Inventory/Fefo.antt =====
-- FEFO allocation: the loop against a plain recursion, and what it allocates.
use nestjs_api_template.Inventory.Balance.{allocate_fefo, fefo_loop}
use nestjs_api_template.Prelude.{
  Bool-cases, List, [], ap, append-nil, append_assoc, arith, false, if◌then◌else◌, inl, inr, map,
  refl, true, ◌++◌, ◌∙◌, ◌∷◌, ◌≡◌, ◌⊎◌,
}
use nestjs_api_template.Prelude.Int.{
  +ℤ_parts, eq_of_parts, int_laws, leb_ℤ, ltb_ℤ, min_ℤ, pos, ℤ, ◌+ℤ◌, ◌-ℤ◌, ◌<ℤ◌, ◌≤ℤ◌, -ℤ_parts,
}
use nestjs_api_template.Prelude.Lists.{All, filter, sum_by}

-- What stock cannot cover of a demand.
abbrev pub uncovered : ℤ → ℤ → ℤ
uncovered stock demand = if leb_ℤ demand stock then pos 0 else demand -ℤ stock

uncovered_zero : (q : ℤ) → pos 0 ≤ℤ q → q ≡ uncovered (pos 0) q
uncovered_zero q h =
    ground (arith, -ℤ_parts q (pos 0), eq_of_parts q (pos 0), eq_of_parts q (q -ℤ pos 0))

uncovered_none : (s q : ℤ) → pos 0 ≤ℤ s → pos 0 ≤ℤ q → leb_ℤ q (pos 0) ≡ true → q ≡ uncovered s q
uncovered_none s q hs hq e = ground (arith, -ℤ_parts q s, eq_of_parts q (pos 0))

rest_nonneg : (a q : ℤ) → pos 0 ≤ℤ q → pos 0 ≤ℤ q -ℤ min_ℤ a q
rest_nonneg a q h = ground (arith, -ℤ_parts q a, -ℤ_parts q q)

uncovered_rest :
    (a s q : ℤ)
    → pos 0 ≤ℤ s
    → leb_ℤ a (pos 0) ≡ false
    → leb_ℤ q (pos 0) ≡ false
    → uncovered s (q -ℤ min_ℤ a q) ≡ uncovered (a +ℤ s) q
uncovered_rest a s q hs ha hq = ground (
  arith,
  -ℤ_parts q a,
  -ℤ_parts q q,
  +ℤ_parts a s,
  -ℤ_parts (q -ℤ a) s,
  -ℤ_parts (q -ℤ q) s,
  -ℤ_parts q (a +ℤ s),
  eq_of_parts (q -ℤ a -ℤ s) (q -ℤ (a +ℤ s)),
)

zero_add : (a : ℤ) → pos 0 +ℤ a ≡ a
zero_add a = omega int_laws

module _ {A : Type 0} (available : A → ℤ) where
  -- The allocations and the shortfall, as recursions without an accumulator.
  unfoldable pub taken_from : List A → ℤ → List (A × ℤ)
  taken_from [] q = []
  taken_from (c ∷ cs) q =
      let take = min_ℤ (available c) q in
      let rest = taken_from cs q in
      let after = (c, take) ∷ taken_from cs (q -ℤ take) in
      if leb_ℤ q (pos 0) then [] else if leb_ℤ (available c) (pos 0) then rest else after

  unfoldable pub left_over : List A → ℤ → ℤ
  left_over [] q = q
  left_over (c ∷ cs) q =
      let rest = left_over cs q in
      let after = left_over cs (q -ℤ min_ℤ (available c) q) in
      if leb_ℤ q (pos 0) then q else if leb_ℤ (available c) (pos 0) then rest else after

  loop_lem :
      (cs : List A) (q : ℤ) (acc : List (A × ℤ))
      → fefo_loop available cs q acc ≡ (acc ++ taken_from cs q, left_over cs q)
  unfolding fefo_loop taken_from left_over
  loop_lem [] q acc = rw append-nil
  loop_lem (c ∷ cs) q acc = elim (Bool-cases (leb_ℤ q (pos 0))) [
    | inl e ↦ rw (e, append-nil)
    | inr e ↦ elim (Bool-cases (leb_ℤ (available c) (pos 0))) [
      | inl f ↦ rw (e, f) (loop_lem cs q acc)
      | inr f ↦
          rw (e, f)
            (loop_lem cs (q -ℤ min_ℤ (available c) q) (acc ++ (c, min_ℤ (available c) q) ∷ [])
              ∙ rw append_assoc)
    ]
  ]

  -- All that the candidates have, those with nothing left out.
  abbrev pub total_stock : List A → ℤ
  total_stock [] = pos 0
  total_stock (c ∷ cs) =
      (if leb_ℤ (available c) (pos 0) then pos 0 else available c) +ℤ total_stock cs

  abbrev pub quantity_taken : List (A × ℤ) → ℤ
  quantity_taken = sum_by (λ p. p.1)

  -- Every allocation but the last takes all that its source has.
  abbrev pub AreDrained : List (A × ℤ) → Type 0
  AreDrained [] = Unit
  AreDrained (p ∷ []) = Unit
  AreDrained (p ∷ r ∷ rs) = (p.1 ≡ available p.0) × AreDrained (r ∷ rs)

  -- What an allocation of a quantity over candidates, in their order, has to be.
  pub record IsAllocation (cs : List A) (q : ℤ) (r : List (A × ℤ) × ℤ) : Type 0 where
    pub covers : quantity_taken r.0 +ℤ r.1 ≡ q
    pub shortfall_is : r.1 ≡ uncovered (total_stock cs) q
    pub within : All (λ p. (pos 0 <ℤ p.1) × (p.1 ≤ℤ available p.0)) r.0
    pub drained : AreDrained r.0
    pub used : List A
    pub unused : List A
    pub first_are_used : cs ≡ used ++ unused
    pub none_is_skipped : map (λ p. p.0) r.0 ≡ filter (λ c. ltb_ℤ (pos 0) (available c)) used

  stock_nonneg : (cs : List A) → pos 0 ≤ℤ total_stock cs
  stock_nonneg [] = omega arith
  stock_nonneg (c ∷ cs) = grind (int_laws, stock_nonneg cs)

  one_more : (t s q x : ℤ) → s +ℤ x ≡ q -ℤ t → t +ℤ s +ℤ x ≡ q
  one_more t s q x e = grind (int_laws)

  covers_lem : (cs : List A) (q : ℤ) → quantity_taken (taken_from cs q) +ℤ left_over cs q ≡ q
  unfolding taken_from left_over
  covers_lem [] q = omega int_laws
  covers_lem (c ∷ cs) q = elim (Bool-cases (leb_ℤ q (pos 0))) [
    | inl e ↦ rw e (omega int_laws)
    | inr e ↦ elim (Bool-cases (leb_ℤ (available c) (pos 0))) [
      | inl f ↦ rw (e, f) (covers_lem cs q)
      | inr f ↦
          let m = min_ℤ (available c) q in
          rw (e, f)
            (one_more m (quantity_taken (taken_from cs (q -ℤ m))) q (left_over cs (q -ℤ m))
              (covers_lem cs (q -ℤ m)))
    ]
  ]

  left_over_lem : (cs : List A) (q : ℤ) → pos 0 ≤ℤ q → left_over cs q ≡ uncovered (total_stock cs) q
  unfolding left_over
  left_over_lem [] q h = uncovered_zero q h
  left_over_lem (c ∷ cs) q h = elim (Bool-cases (leb_ℤ q (pos 0))) [
    | inl e ↦ rw e (uncovered_none (total_stock (c ∷ cs)) q (stock_nonneg (c ∷ cs)) h e)
    | inr e ↦ elim (Bool-cases (leb_ℤ (available c) (pos 0))) [
      | inl f ↦ rw (e, f) (left_over_lem cs q h ∙ rw (zero_add (total_stock cs)))
      | inr f ↦
          rw (e, f)
            (left_over_lem cs (q -ℤ min_ℤ (available c) q) (rest_nonneg (available c) q h)
              ∙ uncovered_rest (available c) (total_stock cs) q (stock_nonneg cs) f e)
    ]
  ]

  abbrev IsWithin : A × ℤ → Type 0
  IsWithin p = (pos 0 <ℤ p.1) × (p.1 ≤ℤ available p.0)

  within_lem : (cs : List A) (q : ℤ) → All IsWithin (taken_from cs q)
  unfolding taken_from
  within_lem [] q = tt
  within_lem (c ∷ cs) q = elim (Bool-cases (leb_ℤ q (pos 0))) [
    | inl e ↦ rw e tt
    | inr e ↦ elim (Bool-cases (leb_ℤ (available c) (pos 0))) [
      | inl f ↦ rw (e, f) (within_lem cs q)
      | inr f ↦ rw (e, f) (ground arith, within_lem cs (q -ℤ min_ℤ (available c) q))
    ]
  ]

  -- The candidates up to the last that is needed, and the others.
  abbrev Split : List A → List (A × ℤ) → Type 0
  Split cs taken =
      (used : List A) × (unused : List A) × (cs ≡ used ++ unused)
      × (map (λ p. p.0) taken ≡ filter (λ c. ltb_ℤ (pos 0) (available c)) used)

  taken-Split : (cs : List A) (q : ℤ) → Split cs (taken_from cs q)
  unfolding taken_from
  taken-Split [] q = ([], [], refl, refl)
  taken-Split (c ∷ cs) q = elim (Bool-cases (leb_ℤ q (pos 0))) [
    | inl e ↦ rw e ([], c ∷ cs, refl, refl)
    | inr e ↦ elim (Bool-cases (leb_ℤ (available c) (pos 0))) [
      | inl f ↦
          let empty : ltb_ℤ (pos 0) (available c) ≡ false = ground arith in
          let (used, unused, parts, sources) = taken-Split cs q in
          rw (e, f) (c ∷ used, unused, ap (λ x. c ∷ x) parts, rw empty sources)
      | inr f ↦
          let stocked : ltb_ℤ (pos 0) (available c) ≡ true = ground arith in
          let (used, unused, parts, sources) = taken-Split cs (q -ℤ min_ℤ (available c) q) in
          rw (e, f) (c ∷ used, unused, ap (λ x. c ∷ x) parts, rw stocked (ap (λ x. c ∷ x) sources))
    ]
  ]

  -- Nothing is taken for a demand of nothing.
  taken_none : (cs : List A) (q : ℤ) → leb_ℤ q (pos 0) ≡ true → taken_from cs q ≡ []
  unfolding taken_from
  taken_none [] q e = refl
  taken_none (c ∷ cs) q e = rw e

  drained-cons :
      (p : A × ℤ) (rs : List (A × ℤ))
      → (rs ≡ []) ⊎ (p.1 ≡ available p.0)
      → AreDrained rs
      → AreDrained (p ∷ rs)
  drained-cons p [] k d = tt
  drained-cons p (r ∷ rs) (inl e) d = absurd (cc)
  drained-cons p (r ∷ rs) (inr e) d = (e, d)

  exhausted : (a q : ℤ) → ltb_ℤ a q ≡ false → leb_ℤ (q -ℤ min_ℤ a q) (pos 0) ≡ true
  exhausted a q e = ground (arith, -ℤ_parts q q)

  last_or_drained :
      (a q : ℤ) (cs : List A) → (taken_from cs (q -ℤ min_ℤ a q) ≡ []) ⊎ (min_ℤ a q ≡ a)
  last_or_drained a q cs = elim (Bool-cases (ltb_ℤ a q)) [
    | inl e ↦ inr (rw e)
    | inr e ↦ inl (taken_none cs (q -ℤ min_ℤ a q) (exhausted a q e))
  ]

  drained_lem : (cs : List A) (q : ℤ) → AreDrained (taken_from cs q)
  unfolding taken_from
  drained_lem [] q = tt
  drained_lem (c ∷ cs) q = elim (Bool-cases (leb_ℤ q (pos 0))) [
    | inl e ↦ rw e tt
    | inr e ↦ elim (Bool-cases (leb_ℤ (available c) (pos 0))) [
      | inl f ↦ rw (e, f) (drained_lem cs q)
      | inr f ↦
          rw (e, f)
            (drained-cons (c, min_ℤ (available c) q) (taken_from cs (q -ℤ min_ℤ (available c) q))
              (last_or_drained (available c) q cs) (drained_lem cs (q -ℤ min_ℤ (available c) q)))
    ]
  ]

  -- An allocation of a quantity that is not negative takes from the first candidates, in their
  -- order: no candidate with stock is skipped before the last one that is used, every source but the
  -- last is drained, and it falls short by exactly what all candidates together lack.
  pub allocate_fefo-IsAllocation :
      (cs : List A) (q : ℤ) → pos 0 ≤ℤ q → IsAllocation cs q (allocate_fefo available cs q)
  unfolding allocate_fefo
  allocate_fefo-IsAllocation cs q h =
      let (used, unused, parts, sources) = taken-Split cs q in
      rw (loop_lem cs q []) (record {
        covers = covers_lem cs q;
        shortfall_is = left_over_lem cs q h;
        within = within_lem cs q;
        drained = drained_lem cs q;
        used = used;
        unused = unused;
        first_are_used = parts;
        none_is_skipped = sources;
      })

  pub allocate_fefo_parts :
      (cs : List A) (q : ℤ) → allocate_fefo available cs q ≡ (taken_from cs q, left_over cs q)
  unfolding allocate_fefo
  allocate_fefo_parts cs q = loop_lem cs q []
