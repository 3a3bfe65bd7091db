-- ===== src/Prelude/Maps.antt =====
-- `Map<string, V>`, in the order of insertion: an association list in which a key that is set again
-- keeps its place.
use mathlib.Core.Path.{◌≡◌, refl, sym, ◌∙◌}
use mathlib.Core.Logic.{inl, inr}
use mathlib.Core.Bool.{false}
use mathlib.Core.Option.{Option, none, some}
use mathlib.Core.List.{List, [], ◌∷◌, map}
use Prim.Native.String.{String}
use native.Mathlib.Omega.{arith}
use nestjs_api_template.Prelude.Int.{+ℤ_assoc, int_laws, pos, ℤ, ◌+ℤ◌}
use nestjs_api_template.Prelude.Lists.{All, Pairs, sum_by}
use nestjs_api_template.Prelude.Tests.{Bool-cases, if◌then◌else◌}
use nestjs_api_template.Prelude.Text.{eq_iff, eq_refl, str_eq}

module _ {V : Type 0} where
  -- `m.get(k)`
  unfoldable pub get : String → List (String × V) → Option V
  get k [] = none
  get k ((j, v) ∷ rest) = let later = get k rest in if str_eq j k then some v else later

  -- `m.set(k, v)`
  unfoldable pub put : String → V → List (String × V) → List (String × V)
  put k v [] = (k, v) ∷ []
  put k v ((j, w) ∷ rest) =
      let later = put k v rest in if str_eq j k then (j, v) ∷ rest else (j, w) ∷ later

  -- `new Map(entries)`, after the entries that `m` already holds.
  unfoldable pub from_entries : List (String × V) → List (String × V) → List (String × V)
  from_entries m [] = m
  from_entries m ((k, v) ∷ rest) = from_entries (put k v m) rest

  -- `[...m.values()]`
  abbrev pub values : List (String × V) → List V
  values m = map (λ p. p.1) m

  pub get-put :
      (k j : String) (v : V) (m : List (String × V))
      → get j (put k v m) ≡ (if str_eq k j then some v else get j m)
  unfolding get put
  get-put k j v [] = refl
  get-put k j v ((i, w) ∷ m) = ground (arith, eq_iff i k, eq_iff k j, eq_iff i j, get-put k j v m)

  -- The value that `get` finds has what every entry has.
  pub get-All :
      (P : String × V → Type 0) (k : String) (m : List (String × V)) {v : V}
      → All P m
      → get k m ≡ some v
      → P (k, v)
  unfolding get
  get-All P k [] h e = absurd (ground arith)
  get-All P k ((j, w) ∷ m) {v} h e = elim (Bool-cases (str_eq j k)) [
    | inl t ↦
        let key : j ≡ k = (eq_iff j k).0 t in
        let value : w ≡ v = ground arith in rw (← key, ← value) h.0
    | inr f ↦ get-All P k m h.1 (ground arith)
  ]

  pub put-All :
      (P : String × V → Type 0) (k : String) (v : V) (m : List (String × V))
      → P (k, v)
      → All P m
      → All P (put k v m)
  unfolding put
  put-All P k v [] p h = (p, tt)
  put-All P k v ((j, w) ∷ m) p h = elim (Bool-cases (str_eq j k)) [
    | inl t ↦ rw (t, (eq_iff j k).0 t) (p, h.1)
    | inr f ↦ rw f (h.0, put-All P k v m p h.1)
  ]

  -- What a sum over the values gains when a key is set.
  abbrev pub old_value : (V → ℤ) → Option V → ℤ
  old_value f none = pos 0
  old_value f (some v) = f v

  pub sum_by-put :
      (f : V → ℤ) (k : String) (v : V) (m : List (String × V))
      → sum_by f (values (put k v m)) +ℤ old_value f (get k m) ≡ sum_by f (values m) +ℤ f v
  unfolding put get
  sum_by-put f k v [] = omega int_laws
  sum_by-put f k v ((j, w) ∷ m) = elim (Bool-cases (str_eq j k)) [
    | inl t ↦ rw t (omega int_laws)
    | inr e ↦
        rw (e, +ℤ_assoc (f w) _ (old_value f (get k m)), sum_by-put f k v m)
          (sym (+ℤ_assoc (f w) (sum_by f (values m)) (f v)))
  ]

  -- A key that no entry has keeps what the map held for it.
  pub get-from_entries :
      (k : String) (m es : List (String × V))
      → All (λ e. str_eq e.0 k ≡ false) es
      → get k (from_entries m es) ≡ get k m
  unfolding from_entries
  get-from_entries k m [] h = refl
  get-from_entries k m ((j, v) ∷ es) h =
      get-from_entries k (put j v m) es h.1 ∙ get-put j k v m ∙ rw h.0 refl

  -- Where the keys are distinct the map holds every entry.
  pub from_entries-All :
      (m es : List (String × V))
      → Pairs (λ e d. str_eq d.0 e.0 ≡ false) es
      → All (λ e. get e.0 (from_entries m es) ≡ some e.1) es
  unfolding from_entries
  from_entries-All m [] h = tt
  from_entries-All m ((j, v) ∷ es) h = (
    get-from_entries j (put j v m) es h.0 ∙ get-put j j v m ∙ rw (eq_refl j) refl,
    from_entries-All (put j v m) es h.1,
  )
