-- ===== src/Sales/DeliveryNote.antt =====
-- delivery-note.ts: `class DeliveryNote`. The methods return a new note and leave the old one.
use nestjs_api_template.Prelude.{
  Bool, List, Option, Result, String, [], false, if◌then◌else◌, ltb, none, not, ok, some, suc,
  throw_if, true, ℕ, ◌+◌, ◌==◌, ◌>>=◌, ◌>>◌, ◌∷◌,
}
use nestjs_api_template.Prelude.Int.{leb_ℤ, pos, ℤ}
use nestjs_api_template.Prelude.Lists.{any, length}
use nestjs_api_template.Prelude.Text.{or_empty, str_eq, text_length, trim}
use nestjs_api_template.Shared.IsoDate.{is_iso_date}

pub data DeliveryNoteStatus : Type 0 where
  draft : DeliveryNoteStatus
  shipped : DeliveryNoteStatus
  cancelled : DeliveryNoteStatus

pub data DeliveryNoteError : Type 0 where
  illegal_note_transition : String → DeliveryNoteStatus → DeliveryNoteStatus → DeliveryNoteError
  invalid_delivery_note : DeliveryNoteError
  note_version_conflict : String → ℕ → ℕ → DeliveryNoteError

pub record DeliveryNoteLineInput : Type 0 where
  pub id : String
  pub sales_order_line_id : String
  pub item_id : String
  pub item_sku : String
  pub uom_code : String
  pub quantity : ℤ

pub record DeliveryNoteLine : Type 0 where
  pub input : DeliveryNoteLineInput
  pub open input use *
  pub line_no : ℕ

pub record DeliveryNote : Type 0 where
  pub id : String
  pub tenant_id : String
  pub sales_order_id : String
  pub number : String
  pub status : DeliveryNoteStatus
  pub delivery_date : String
  pub warehouse_id : Option String
  pub ship_to_address : Option String
  pub notes : Option String
  pub version : ℕ
  pub created_by : String
  pub shipped_at : Option ℕ
  pub lines : List DeliveryNoteLine
  pub created_at : ℕ
  pub updated_at : ℕ

pub record CreateDeliveryNoteProps : Type 0 where
  pub id : String
  pub tenant_id : String
  pub sales_order_id : String
  pub number : String
  pub delivery_date : String
  pub warehouse_id : Option String
  pub ship_to_address : Option String
  pub notes : Option String
  pub created_by : String
  pub lines : List DeliveryNoteLineInput
  pub now : ℕ

abbrev pub max_address : ℕ
max_address = 500

abbrev pub max_notes : ℕ
max_notes = 2000

unfoldable pub clean : Option String → ℕ → Result DeliveryNoteError (Option String)
clean v max = do
  let t = trim (or_empty v)
  throw_if (ltb max (text_length t)) invalid_delivery_note
  ok (if text_length t == 0 then none else some t)

-- The map over the lines, with the order lines seen so far and the index.
unfoldable pub number_lines :
    List String → ℕ → List DeliveryNoteLineInput → Result DeliveryNoteError (List DeliveryNoteLine)
number_lines seen i [] = ok []
number_lines seen i (l ∷ ls) =
    throw_if (leb_ℤ l.quantity (pos 0)) invalid_delivery_note
    >> throw_if (any (str_eq l.sales_order_line_id) seen) invalid_delivery_note
    >> number_lines (l.sales_order_line_id ∷ seen) (suc i) ls
    >>= λ rest. ok (record { input = l; line_no = i + 1 } ∷ rest)

unfoldable pub create_note : CreateDeliveryNoteProps → Result DeliveryNoteError DeliveryNote
create_note props = do
  throw_if (not (is_iso_date props.delivery_date)) invalid_delivery_note
  throw_if (length props.lines == 0) invalid_delivery_note
  lines ← number_lines [] 0 props.lines
  address ← clean props.ship_to_address max_address
  notes ← clean props.notes max_notes
  ok (record {
    id = props.id;
    tenant_id = props.tenant_id;
    sales_order_id = props.sales_order_id;
    number = props.number;
    status = draft;
    delivery_date = props.delivery_date;
    warehouse_id = props.warehouse_id;
    ship_to_address = address;
    notes = notes;
    version = 0;
    created_by = props.created_by;
    shipped_at = none;
    lines = lines;
    created_at = props.now;
    updated_at = props.now;
  })

abbrev pub is_draft : DeliveryNoteStatus → Bool
is_draft draft = true
is_draft _ = false

unfoldable pub note_transition :
    DeliveryNote → DeliveryNoteStatus → ℕ → DeliveryNote → Result DeliveryNoteError DeliveryNote
note_transition s to now patched = do
  throw_if (not (is_draft s.status)) (illegal_note_transition s.id s.status to)
  ok (record patched { status = to; updated_at = now })

unfoldable pub ship : DeliveryNote → ℕ → Result DeliveryNoteError DeliveryNote
ship s now = note_transition s shipped now (record s { shipped_at = some now })

unfoldable pub cancel_note : DeliveryNote → ℕ → Result DeliveryNoteError DeliveryNote
cancel_note s now = note_transition s cancelled now s
