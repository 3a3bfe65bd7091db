-- ===== src/Prelude/Lists.antt =====
-- Lists measured by native numbers, and predicates on lists by recursion.
use Prim.Native.Nat.{ℕ, suc, ◌+◌}
use mathlib.Core.Path.{◌≡◌, refl}
use mathlib.Core.Option.{Option, none, some}
use mathlib.Core.Logic.{inl, inr}
use mathlib.Core.Bool.{Bool, true, false, ◌||◌, ◌&&◌}
use mathlib.Core.List.{List, [], ◌∷◌, ◌++◌, map}
use native.Mathlib.Omega.{arith}
use nestjs_api_template.Prelude.Int.{int_laws, pos, ℤ, ◌+ℤ◌, ◌-ℤ◌}
use nestjs_api_template.Prelude.Tests.{Bool-cases, if◌then◌else◌}

module _ {ℓ} {A : Type ℓ} where
  abbrev pub length : List A → ℕ
  length [] = 0
  length (x ∷ xs) = suc (length xs)

  abbrev pub any : (A → Bool) → List A → Bool
  any p [] = false
  any p (x ∷ xs) = p x || any p xs

  abbrev pub all : (A → Bool) → List A → Bool
  all p [] = true
  all p (x ∷ xs) = p x && all p xs

  -- `xs.filter(p)` with a Boolean test.
  abbrev pub filter : (A → Bool) → List A → List A
  filter p [] = []
  filter p (x ∷ xs) = let rest = filter p xs in if p x then x ∷ rest else rest

  -- `xs.find(p)`
  abbrev pub find : (A → Bool) → List A → Option A
  find p [] = none
  find p (x ∷ xs) = let rest = find p xs in if p x then some x else rest

  abbrev pub All {κ} : (A → Type κ) → List A → Type κ
  All P [] = Unit
  All P (x ∷ xs) = P x × All P xs

  -- A relation between each element and each later one.
  abbrev pub Pairs {κ} : (A → A → Type κ) → List A → Type κ
  Pairs R [] = Unit
  Pairs R (x ∷ xs) = All (R x) xs × Pairs R xs

  -- `xs.reduce((s, x) => s + f(x), 0n)`, as a plain recursion.
  abbrev pub sum_by : (A → ℤ) → List A → ℤ
  sum_by f [] = pos 0
  sum_by f (x ∷ xs) = f x +ℤ sum_by f xs

module _ {ℓ} {A : Type ℓ} where
  pub length-append : (xs ys : List A) → length (xs ++ ys) ≡ length xs + length ys
  length-append [] ys = omega arith
  length-append (x ∷ xs) ys = omega (arith, length-append xs ys)

  pub sum_by-append :
      (f : A → ℤ) (xs ys : List A) → sum_by f (xs ++ ys) ≡ sum_by f xs +ℤ sum_by f ys
  sum_by-append f [] ys = omega int_laws
  sum_by-append f (x ∷ xs) ys = rw (sum_by-append f xs ys) (omega int_laws)

module _ {ℓ} {A : Type ℓ} where
  pub All-append {κ} : (P : A → Type κ) (xs ys : List A) → All P xs → All P ys → All P (xs ++ ys)
  All-append P [] ys h k = k
  All-append P (x ∷ xs) ys h k = (h.0, All-append P xs ys h.1 k)

  pub All-map {κ ι μ} :
      {B : Type ι} (P : A → Type κ) (Q : B → Type μ) (f : A → B)
      → ((x : A) → P x → Q (f x))
      → (xs : List A) → All P xs
      → All Q (map f xs)
  All-map P Q f k [] h = tt
  All-map P Q f k (x ∷ xs) h = (k x h.0, All-map P Q f k xs h.1)

  -- What `find` finds has the test.
  pub find-test : (p : A → Bool) (xs : List A) {x : A} → find p xs ≡ some x → p x ≡ true
  find-test p [] e = absurd (ground arith)
  find-test p (y ∷ ys) {x} e = elim (Bool-cases (p y)) [
    | inl t ↦ let same : y ≡ x = ground arith in rw (← same) t
    | inr f ↦ find-test p ys (rw f at e)
  ]

  pub find-All {κ} :
      (P : A → Type κ) (p : A → Bool) (xs : List A) {x : A}
      → All P xs
      → find p xs ≡ some x
      → P x × (p x ≡ true)
  find-All P p [] h e = absurd (ground arith)
  find-All P p (y ∷ ys) {x} h e = elim (Bool-cases (p y)) [
    | inl t ↦ let same : y ≡ x = ground arith in rw (← same) (h.0, t)
    | inr f ↦ find-All P p ys h.1 (rw f at e)
  ]

  pub Pairs-snoc {κ} :
      (R : A → A → Type κ) (xs : List A) (y : A)
      → Pairs R xs
      → All (λ x. R x y) xs
      → Pairs R (xs ++ y ∷ [])
  Pairs-snoc R [] y h k = (tt, tt)
  Pairs-snoc R (x ∷ xs) y h k =
      (All-append (R x) xs (y ∷ []) h.0 (k.0, tt), Pairs-snoc R xs y h.1 k.1)

  -- A predicate that follows from two that hold everywhere.
  pub All-both {κ ι μ} :
      {P : A → Type κ} {Q : A → Type ι} {R : A → Type μ}
      → ((x : A) → P x → Q x → R x)
      → (xs : List A) → All P xs
      → All Q xs
      → All R xs
  All-both k [] h g = tt
  All-both k (x ∷ xs) h g = (k x h.0 g.0, All-both k xs h.1 g.1)

  pub any-map-find {ι} :
      {B : Type ι} (p : A → Bool) (q : B → Bool) (f : A → B) (xs : List A) {x : A}
      → find p xs ≡ some x
      → q (f x) ≡ true
      → any q (map f xs) ≡ true
  any-map-find p q f [] h e = absurd (ground arith)
  any-map-find p q f (y ∷ ys) {x} h e = elim (Bool-cases (p y)) [
    | inl t ↦ let same : y ≡ x = ground arith in rw (same, e) refl
    | inr n ↦ rw (any-map-find p q f ys (rw n at h) e) (ground arith)
  ]

module _ {ℓ κ} {A : Type ℓ} {B : Type κ} where
  pub All-unmap {μ} :
      (P : B → Type μ) (f : A → B) (xs : List A) → All P (map f xs) → All (λ x. P (f x)) xs
  All-unmap P f [] h = tt
  All-unmap P f (x ∷ xs) h = (h.0, All-unmap P f xs h.1)

  pub All-of_map {μ} :
      (P : B → Type μ) (f : A → B) (xs : List A) → All (λ x. P (f x)) xs → All P (map f xs)
  All-of_map P f [] h = tt
  All-of_map P f (x ∷ xs) h = (h.0, All-of_map P f xs h.1)

  pub Pairs-unmap {μ} :
      (R : B → B → Type μ) (f : A → B) (xs : List A)
      → Pairs R (map f xs)
      → Pairs (λ x y. R (f x) (f y)) xs
  Pairs-unmap R f [] h = tt
  Pairs-unmap R f (x ∷ xs) h = (All-unmap (R (f x)) f xs h.0, Pairs-unmap R f xs h.1)

  pub Pairs-map {μ} :
      (R : B → B → Type μ) (f : A → B) (xs : List A)
      → Pairs (λ x y. R (f x) (f y)) xs
      → Pairs R (map f xs)
  Pairs-map R f [] h = tt
  Pairs-map R f (x ∷ xs) h = (All-of_map (R (f x)) f xs h.0, Pairs-map R f xs h.1)

  pub map-All : (f g : A → B) (xs : List A) → All (λ x. f x ≡ g x) xs → map f xs ≡ map g xs
  map-All f g [] h = refl
  map-All f g (x ∷ xs) h = rw (h.0, map-All f g xs h.1) refl

-- `[...xs].sort(compare)`, which is stable: an element comes before the later ones that are not
-- below it.
module _ {ℓ} {A : Type ℓ} (below : A → A → Bool) where
  unfoldable pub insert_by : A → List A → List A
  insert_by x [] = x ∷ []
  insert_by x (y ∷ ys) = let rest = insert_by x ys in if below y x then y ∷ rest else x ∷ y ∷ ys

  unfoldable pub sort_by : List A → List A
  unfolding insert_by
  sort_by [] = []
  sort_by (x ∷ xs) = insert_by x (sort_by xs)

  sum_by-insert_by :
      (f : A → ℤ) (x : A) (ys : List A) → sum_by f (insert_by x ys) ≡ f x +ℤ sum_by f ys
  unfolding insert_by
  sum_by-insert_by f x [] = refl
  sum_by-insert_by f x (y ∷ ys) = elim (Bool-cases (below y x)) [
    | inl e ↦ rw (e, sum_by-insert_by f x ys) (omega int_laws)
    | inr e ↦ rw e refl
  ]

  pub sum_by-sort_by : (f : A → ℤ) (xs : List A) → sum_by f (sort_by xs) ≡ sum_by f xs
  unfolding sort_by
  sum_by-sort_by f [] = refl
  sum_by-sort_by f (x ∷ xs) = rw (sum_by-insert_by f x (sort_by xs), sum_by-sort_by f xs) refl

  All-insert_by {κ} :
      (P : A → Type κ) (x : A) (ys : List A) → P x → All P ys → All P (insert_by x ys)
  unfolding insert_by
  All-insert_by P x [] p h = (p, tt)
  All-insert_by P x (y ∷ ys) p h = elim (Bool-cases (below y x)) [
    | inl e ↦ rw e (h.0, All-insert_by P x ys p h.1)
    | inr e ↦ rw e (p, h)
  ]

  pub All-sort_by {κ} : (P : A → Type κ) (xs : List A) → All P xs → All P (sort_by xs)
  unfolding sort_by
  All-sort_by P [] h = tt
  All-sort_by P (x ∷ xs) h = All-insert_by P x (sort_by xs) h.0 (All-sort_by P xs h.1)

module _ {ℓ} {A : Type ℓ} where
  pub sum_by-add :
      (f g : A → ℤ) (xs : List A) → sum_by (λ x. f x +ℤ g x) xs ≡ sum_by f xs +ℤ sum_by g xs
  sum_by-add f g [] = omega int_laws
  sum_by-add f g (x ∷ xs) = rw (sum_by-add f g xs) (omega int_laws)

  pub sum_by-sub :
      (f g : A → ℤ) (xs : List A) → sum_by (λ x. f x -ℤ g x) xs ≡ sum_by f xs -ℤ sum_by g xs
  sum_by-sub f g [] = omega int_laws
  sum_by-sub f g (x ∷ xs) = rw (sum_by-sub f g xs) (omega int_laws)

  pub sum_by-All : (f g : A → ℤ) (xs : List A) → All (λ x. f x ≡ g x) xs → sum_by f xs ≡ sum_by g xs
  sum_by-All f g [] h = refl
  sum_by-All f g (x ∷ xs) h = rw (h.0, sum_by-All f g xs h.1) refl

  pub sum_by-zero : (f : A → ℤ) (xs : List A) → All (λ x. f x ≡ pos 0) xs → sum_by f xs ≡ pos 0
  sum_by-zero f [] h = refl
  sum_by-zero f (x ∷ xs) h = rw (h.0, sum_by-zero f xs h.1) (omega int_laws)

  pub All-imp {κ ι} :
      {P : A → Type κ} {Q : A → Type ι}
      → ((x : A) → P x → Q x)
      → (xs : List A) → All P xs
      → All Q xs
  All-imp k [] h = tt
  All-imp k (x ∷ xs) h = (k x h.0, All-imp k xs h.1)

  pub All-every {κ} : {P : A → Type κ} → ((x : A) → P x) → (xs : List A) → All P xs
  All-every k [] = tt
  All-every k (x ∷ xs) = (k x, All-every k xs)
