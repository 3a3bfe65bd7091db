-- ===== src/Inventory/CountHistory.antt =====
-- The life of a count sheet: the calls as a relation, and what no sequence of calls breaks.
use nestjs_api_template.Prelude.Maps
use nestjs_api_template.Inventory.Count.{
  CountEntry, CountLine, CountLineInput, CountStatus, CreateCountProps, StockCount, cancel_count,
  cancelled, check_entries, counted_line, counting, counts_by_id, create_count, draft, is_counted,
  make_count_lines, post_count, posted, record_counts, recount, review, start, status_eq,
  submit_for_review, transition, transitions, with_approval,
}
use nestjs_api_template.Prelude.{
  Bool-cases, List, Option, Result-cases, String, [], arith, false, inl, inr, ltb, map, none, not,
  ok, refl, some, suc, true, ℕ, ◌∙◌, ◌∷◌, ◌≡◌,
}
use nestjs_api_template.Prelude.Int.{pos, ℤ, ◌-ℤ◌, ◌≤ℤ◌}
use nestjs_api_template.Prelude.Lists.{All, All-imp, All-of_map, any, filter, length}
use nestjs_api_template.Shared.Money.{same}

-- The variance is what was counted less what the system held, and zero before the count.
abbrev pub Varies : Option ℤ → ℤ → ℤ → Type 0
Varies none system variance = variance ≡ pos 0
Varies (some counted) system variance = (pos 0 ≤ℤ counted) × (variance ≡ counted -ℤ system)

abbrev pub IsLine : CountLine → Type 0
IsLine l = (pos 0 ≤ℤ l.system_qty) × Varies l.counted_qty l.system_qty l.variance_qty

abbrev pub IsCounted : CountLine → Type 0
IsCounted l = is_counted l.counted_qty ≡ true

-- A sheet in review or posted is counted in full.
abbrev pub CountedAs : CountStatus → List CountLine → Type 0
CountedAs draft lines = Unit {0}
CountedAs counting lines = Unit {0}
CountedAs review lines = All IsCounted lines
CountedAs posted lines = All IsCounted lines
CountedAs cancelled lines = Unit {0}

abbrev pub IsValid : StockCount → Type 0
IsValid s = All IsLine s.lines × CountedAs s.status s.lines

infix 40 ◌⇒◌ ◌⇒*◌
-- One call that returns.
pub data ◌⇒◌ : StockCount → StockCount → Type 0 where
  starts : {s t : StockCount} (now : ℕ) → start s now ≡ ok t → s ⇒ t
  counts :
      {s t : StockCount} (entries : List CountEntry) (now : ℕ)
      → record_counts s entries now ≡ ok t
      → s ⇒ t
  submits : {s t : StockCount} (now : ℕ) → submit_for_review s now ≡ ok t → s ⇒ t
  recounts : {s t : StockCount} (now : ℕ) → recount s now ≡ ok t → s ⇒ t
  approves : {s t : StockCount} (id : String) (now : ℕ) → with_approval s id now ≡ ok t → s ⇒ t
  posts : {s t : StockCount} (now : ℕ) → post_count s now ≡ ok t → s ⇒ t
  cancels : {s t : StockCount} (now : ℕ) → cancel_count s now ≡ ok t → s ⇒ t

pub data ◌⇒*◌ : StockCount → StockCount → Type 0 where
  unchanged : {s : StockCount} → s ⇒* s
  onward : {s t u : StockCount} → s ⇒ t → t ⇒* u → s ⇒* u

-- The sheet without what was counted.
abbrev pub sheet : StockCount → List CountLineInput
sheet s = map (λ l. l.input) s.lines

make_count_lines_lem :
    (ids : List String) (n : ℕ) (inputs : List CountLineInput) {lines : List CountLine}
    → make_count_lines ids n inputs ≡ ok lines
    → All IsLine lines × (map (λ l. l.input) lines ≡ inputs)
unfolding make_count_lines
make_count_lines_lem ids n [] {lines} h =
    let nothing : lines ≡ [] = ground arith in rw nothing (tt, refl)
make_count_lines_lem ids n (l ∷ rest) {lines} h =
    elim (Result-cases (make_count_lines (l.id ∷ ids) (suc n) rest)) [
      | inr (e, bad) ↦ absurd (ground (arith, bad))
      | inl (others, fine) ↦
          let (good, same) = make_count_lines_lem (l.id ∷ ids) (suc n) rest fine in
          let nonneg : pos 0 ≤ℤ l.system_qty = ground (arith, fine) in
          let all_lines : lines
              ≡ record { input = l; line_no = suc n; counted_qty = none; variance_qty = pos 0 }
                ∷ others =
            ground (arith, fine) in
          rw all_lines (((nonneg, refl), good), rw same refl)
    ]

create_count-IsValid :
    (props : CreateCountProps) {s : StockCount}
    → create_count props ≡ ok s
    → IsValid s × (sheet s ≡ props.lines)
unfolding create_count
create_count-IsValid props {s} h = elim (Result-cases (make_count_lines [] 0 props.lines)) [
  | inr (e, bad) ↦ absurd (ground (arith, bad))
  | inl (lines, fine) ↦
      let (good, same) = make_count_lines_lem [] 0 props.lines fine in
      let lines_are : s.lines ≡ lines = ground (arith, fine) in
      let is_draft : s.status ≡ draft = ground (arith, fine) in
      rw (lines_are, is_draft) ((good, tt), same)
]

transition_lem :
    (s : StockCount) (to : CountStatus) (now : ℕ) (patched : StockCount) {t : StockCount}
    → transition s to now patched ≡ ok t
    → (any (status_eq to) (transitions s.status) ≡ true)
      × (t ≡ record patched { status = to; updated_at = now })
unfolding transition
transition_lem s to now patched h = (ground arith, ground arith)

-- The entries of the map are those of the call, which are not negative.
check_entries_lem :
    (lines : List CountLine) (entries : List CountEntry) {u : Unit {0}}
    → check_entries lines entries ≡ ok u
    → All (λ e. pos 0 ≤ℤ e.counted_qty) entries
unfolding check_entries
check_entries_lem lines [] h = tt
check_entries_lem lines (e ∷ rest) h = (ground arith, check_entries_lem lines rest (ground arith))

entries-All :
    (P : String × ℤ → Type 0) (m es : List (String × ℤ))
    → All P m
    → All P es
    → All P (Maps.from_entries m es)
unfolding Maps.from_entries
entries-All P m [] h k = h
entries-All P m ((j, v) ∷ es) h k =
    entries-All P (Maps.put j v m) es (Maps.put-All P j v m k.0 h) k.1

entry-IsLine :
    (l : CountLine) (o : Option ℤ) (m : List (String × ℤ))
    → All (λ p. pos 0 ≤ℤ p.1) m
    → Maps.get l.id m ≡ o
    → IsLine l
    → IsLine (counted_line l o)
entry-IsLine l none m h e v = v
entry-IsLine l (some c) m h e v = (v.0, (Maps.get-All (λ p. pos 0 ≤ℤ p.1) l.id m h e, refl))

input_kept : (l : CountLine) (o : Option ℤ) → (counted_line l o).input ≡ l.input
input_kept l none = refl
input_kept l (some c) = refl

counted_sheet :
    (m : List (String × ℤ)) (lines : List CountLine)
    → map (λ l. l.input) (map (λ l. counted_line l (Maps.get l.id m)) lines)
      ≡ map (λ l. l.input) lines
counted_sheet m [] = refl
counted_sheet m (l ∷ rest) = rw (input_kept l (Maps.get l.id m), counted_sheet m rest) refl

counting_of_test : (st : CountStatus) → status_eq st counting ≡ true → st ≡ counting
counting_of_test counting h = refl
counting_of_test draft h = absurd (ground arith)
counting_of_test review h = absurd (ground arith)
counting_of_test posted h = absurd (ground arith)
counting_of_test cancelled h = absurd (ground arith)

record_counts_lem :
    (s : StockCount) (entries : List CountEntry) (now : ℕ) {t : StockCount}
    → IsValid s
    → record_counts s entries now ≡ ok t
    → IsValid t × (sheet t ≡ sheet s)
unfolding record_counts
record_counts_lem s entries now {t} (v, c) h = elim (Result-cases (check_entries s.lines entries)) [
  | inr (e, bad) ↦ absurd (ground (arith, bad))
  | inl (u, fine) ↦
      let m = counts_by_id entries in
      let nonneg =
        entries-All (λ p. pos 0 ≤ℤ p.1) [] (map (λ e. (e.line_id, e.counted_qty)) entries) tt
          (All-of_map (λ p. pos 0 ≤ℤ p.1) (λ e. (e.line_id, e.counted_qty)) entries
            (check_entries_lem s.lines entries fine)) in
      let was : s.status ≡ counting = counting_of_test s.status (ground (arith, fine)) in
      let status_is : t.status ≡ counting = ground (arith, fine, was) in
      let lines_are : t.lines ≡ map (λ l. counted_line l (Maps.get l.id m)) s.lines =
        ground (arith, fine) in
      rw (status_is, lines_are)
        (
          (
            All-of_map IsLine (λ l. counted_line l (Maps.get l.id m)) s.lines
                (All-imp (λ l g. entry-IsLine l (Maps.get l.id m) m nonneg refl g) s.lines v),
            tt,
          ),
          counted_sheet m s.lines,
        )
]

All-IsCounted :
    (lines : List CountLine)
    → ltb 0 (length (filter (λ l. not (is_counted l.counted_qty)) lines)) ≡ false
    → All IsCounted lines
All-IsCounted [] h = tt
All-IsCounted (l ∷ rest) h = elim (Bool-cases (is_counted l.counted_qty)) [
  | inl e ↦ (e, All-IsCounted rest (rw e at h))
  | inr e ↦ absurd (ground (arith, rw e at h))
]

-- A status from which a sheet is posted.
review_only : (st : CountStatus) → any (status_eq posted) (transitions st) ≡ true → st ≡ review
review_only review h = refl
review_only draft h = absurd (ground arith)
review_only counting h = absurd (ground arith)
review_only posted h = absurd (ground arith)
review_only cancelled h = absurd (ground arith)

⇒-IsValid : {s t : StockCount} → s ⇒ t → IsValid s → IsValid t × (sheet t ≡ sheet s)
unfolding start submit_for_review recount with_approval post_count cancel_count
⇒-IsValid {s} (starts now h) (v, c) =
    let (_, end) = transition_lem s counting now s h in rw end ((v, tt), refl)
⇒-IsValid {s} (counts entries now h) v = record_counts_lem s entries now v h
⇒-IsValid {s} {t} (submits now h) (v, c) =
    let counted = All-IsCounted s.lines (ground arith) in
    let (_, end) =
      transition_lem s review now (record s { counted_at = some now }) {t = t} (ground arith) in
    rw end ((v, counted), refl)
⇒-IsValid {s} (recounts now h) (v, c) =
    let (_, end) = transition_lem s counting now (record s { approval_request_id = none }) h in
    rw end ((v, tt), refl)
⇒-IsValid {s} {t} (approves id now h) (v, c) =
    let end : t ≡ record s { approval_request_id = some id; updated_at = now } = ground arith in
    rw end ((v, c), refl)
⇒-IsValid {s} (posts now h) (v, c) =
    let (from, end) = transition_lem s posted now (record s { posted_at = some now }) h in
    let was = review_only s.status from in rw end ((v, rw was at c), refl)
⇒-IsValid {s} (cancels now h) (v, c) =
    let (_, end) = transition_lem s cancelled now s h in rw end ((v, tt), refl)

history-IsValid : {s t : StockCount} → s ⇒* t → IsValid s → IsValid t × (sheet t ≡ sheet s)
history-IsValid unchanged v = (v, refl)
history-IsValid (onward a p) v =
    let (w, same) = ⇒-IsValid a v in let (x, sames) = history-IsValid p w in (x, sames ∙ same)

-- Whatever calls follow the creation of a count sheet: it holds the lines it was created with, the
-- variance of each is what was counted less what the system held, or zero while it is not counted,
-- and a sheet that is in review or posted is counted in full.
pub created_count-IsValid :
    (props : CreateCountProps) {s t : StockCount}
    → create_count props ≡ ok s
    → s ⇒* t
    → IsValid t × (sheet t ≡ props.lines)
created_count-IsValid props h p =
    let (v, same) = create_count-IsValid props h in
    let (w, sames) = history-IsValid p v in (w, sames ∙ same)
