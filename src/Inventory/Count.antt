-- ===== src/Inventory/Count.antt =====
-- physical-count.ts: `class StockCount`. The methods return a new sheet and leave the old one.
use nestjs_api_template.Prelude.Maps
use nestjs_api_template.Inventory.Movement.{MovementType, adjust_in, adjust_out}
use nestjs_api_template.Prelude.{
  Bool, List, Option, Result, String, [], false, if◌then◌else◌, ltb, map, none, not, ok, some, suc,
  throw_if, true, ℕ, ◌==◌, ◌>>=◌, ◌>>◌, ◌∷◌,
}
use nestjs_api_template.Prelude.Int.{abs, eqb_ℤ, ltb_ℤ, neg, pos, ℤ, ◌*ℤ◌, ◌-ℤ◌}
use nestjs_api_template.Prelude.Lists.{any, filter, length, sum_by}
use nestjs_api_template.Prelude.Text.{is_empty, or_empty, str_eq, text_length, trim}

pub data CountStatus : Type 0 where
  draft : CountStatus
  counting : CountStatus
  review : CountStatus
  posted : CountStatus
  cancelled : CountStatus

pub data CountError : Type 0 where
  illegal_count_transition : String → CountStatus → CountStatus → CountError
  invalid_count : CountError

abbrev pub transitions : CountStatus → List CountStatus
transitions draft = counting ∷ cancelled ∷ []
transitions counting = review ∷ cancelled ∷ []
transitions review = posted ∷ counting ∷ cancelled ∷ []
transitions posted = []
transitions cancelled = []

abbrev pub status_eq : CountStatus → CountStatus → Bool
status_eq draft draft = true
status_eq counting counting = true
status_eq review review = true
status_eq posted posted = true
status_eq cancelled cancelled = true
status_eq _ _ = false

pub record CountLineInput : Type 0 where
  pub id : String
  pub item_id : String
  pub item_sku : String
  pub lot_id : Option String
  pub lot_number : Option String
  pub uom_code : String
  pub system_qty : ℤ
  pub unit_cost_minor : ℤ

pub record CountLine : Type 0 where
  pub input : CountLineInput
  pub open input use *
  pub line_no : ℕ
  pub counted_qty : Option ℤ
  pub variance_qty : ℤ

pub record StockCount : Type 0 where
  pub id : String
  pub tenant_id : String
  pub number : String
  pub warehouse_id : String
  pub status : CountStatus
  pub notes : Option String
  pub approval_request_id : Option String
  pub version : ℕ
  pub created_by : String
  pub counted_at : Option ℕ
  pub posted_at : Option ℕ
  pub lines : List CountLine
  pub created_at : ℕ
  pub updated_at : ℕ

pub record CreateCountProps : Type 0 where
  pub id : String
  pub tenant_id : String
  pub number : String
  pub warehouse_id : String
  pub notes : Option String
  pub created_by : String
  pub lines : List CountLineInput
  pub now : ℕ

pub record CountEntry : Type 0 where
  pub line_id : String
  pub counted_qty : ℤ

-- The map over the lines, with the ids seen and the number of the line.
unfoldable pub make_count_lines :
    List String → ℕ → List CountLineInput → Result CountError (List CountLine)
make_count_lines ids n [] = ok []
make_count_lines ids n (l ∷ rest) = do
  throw_if (any (str_eq l.id) ids) invalid_count
  throw_if (ltb_ℤ l.system_qty (pos 0)) invalid_count
  lines ← make_count_lines (l.id ∷ ids) (suc n) rest
  ok (record { input = l; line_no = suc n; counted_qty = none; variance_qty = pos 0 } ∷ lines)

unfoldable pub create_count : CreateCountProps → Result CountError StockCount
unfolding make_count_lines
create_count props = do
  throw_if (length props.lines == 0) invalid_count
  let notes = trim (or_empty props.notes)
  throw_if (ltb 2000 (text_length notes)) invalid_count
  lines ← make_count_lines [] 0 props.lines
  ok (record {
    id = props.id;
    tenant_id = props.tenant_id;
    number = props.number;
    warehouse_id = props.warehouse_id;
    status = draft;
    notes = if is_empty notes then none else some notes;
    approval_request_id = none;
    version = 0;
    created_by = props.created_by;
    counted_at = none;
    posted_at = none;
    lines = lines;
    created_at = props.now;
    updated_at = props.now;
  })

unfoldable pub has_variance : StockCount → Bool
has_variance s = any (λ l. not (eqb_ℤ l.variance_qty (pos 0))) s.lines

unfoldable pub variance_value_minor : StockCount → ℤ
variance_value_minor s = sum_by (λ l. pos (abs l.variance_qty) *ℤ l.unit_cost_minor) s.lines

-- `transition`: the patched sheet with the new status.
unfoldable pub transition : StockCount → CountStatus → ℕ → StockCount → Result CountError StockCount
transition s to now patched =
    throw_if (not (any (status_eq to) (transitions s.status)))
      (illegal_count_transition s.id s.status to)
    >> ok (record patched { status = to; updated_at = now })

unfoldable pub start : StockCount → ℕ → Result CountError StockCount
unfolding transition
start s now = transition s counting now s

-- The loop over the entries.
unfoldable pub check_entries : List CountLine → List CountEntry → Result CountError (Unit {0})
check_entries lines [] = ok tt
check_entries lines (e ∷ rest) =
    throw_if (ltb_ℤ e.counted_qty (pos 0)) invalid_count
    >> throw_if (not (any (λ l. str_eq l.id e.line_id) lines)) invalid_count
    >> check_entries lines rest

-- A line after the count that the map holds for it.
abbrev pub counted_line : CountLine → Option ℤ → CountLine
counted_line l none = l
counted_line l (some counted) = record l {
  counted_qty = some counted;
  variance_qty = counted -ℤ l.system_qty;
}

abbrev pub counts_by_id : List CountEntry → List (String × ℤ)
counts_by_id entries = Maps.from_entries [] (map (λ e. (e.line_id, e.counted_qty)) entries)

unfoldable pub record_counts : StockCount → List CountEntry → ℕ → Result CountError StockCount
unfolding check_entries
record_counts s entries now = do
  throw_if (not (status_eq s.status counting)) (illegal_count_transition s.id s.status counting)
  check_entries s.lines entries
  ok (record s {
    lines = map (λ l. counted_line l (Maps.get l.id (counts_by_id entries))) s.lines;
    updated_at = now;
  })

abbrev pub is_counted : Option ℤ → Bool
is_counted none = false
is_counted (some n) = true

unfoldable pub submit_for_review : StockCount → ℕ → Result CountError StockCount
unfolding transition
submit_for_review s now = do
  throw_if (ltb 0 (length (filter (λ l. not (is_counted l.counted_qty)) s.lines))) invalid_count
  transition s review now (record s { counted_at = some now })

unfoldable pub recount : StockCount → ℕ → Result CountError StockCount
unfolding transition
recount s now = transition s counting now (record s { approval_request_id = none })

unfoldable pub with_approval : StockCount → String → ℕ → Result CountError StockCount
with_approval s approval_request_id now = do
  throw_if (not (status_eq s.status review)) (illegal_count_transition s.id s.status review)
  ok (record s { approval_request_id = some approval_request_id; updated_at = now })

unfoldable pub post_count : StockCount → ℕ → Result CountError StockCount
unfolding transition
post_count s now = transition s posted now (record s { posted_at = some now })

unfoldable pub cancel_count : StockCount → ℕ → Result CountError StockCount
unfolding transition
cancel_count s now = transition s cancelled now s

-- physical-count.use-cases.ts, postAdjustments: the movement asked for a line, if there is a variance.
unfoldable pub adjustment_of : CountLine → Option (MovementType × ℤ)
adjustment_of l =
    if eqb_ℤ l.variance_qty (pos 0)
    then none
    else if ltb_ℤ (pos 0) l.variance_qty
    then some (adjust_in, l.variance_qty)
    else some (adjust_out, neg l.variance_qty)
