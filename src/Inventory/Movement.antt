-- ===== src/Inventory/Movement.antt =====
-- movement.ts and errors.ts: the kinds of movement and the checks on a ledger row.
use nestjs_api_template.Prelude.{
  Bool, Char, List, Option, Result, String, [], code, false, leb, ltb, none, not, some, throw_if,
  true, ℕ, ◌&&◌, ◌==◌, ◌>>◌, ◌||◌, ◌∷◌,
}
use nestjs_api_template.Prelude.Int.{leb_ℤ, ltb_ℤ, pos, ℤ}
use nestjs_api_template.Prelude.Lists.{any}
use nestjs_api_template.Prelude.Text.{is_capital, is_empty, text_length, trim}

pub data InventoryError : Type 0 where
  invalid_movement : InventoryError
  reservation_exceeds_stock : InventoryError

pub data MovementType : Type 0 where
  receipt : MovementType
  issue : MovementType
  transfer_out : MovementType
  transfer_in : MovementType
  reserve : MovementType
  unreserve : MovementType
  adjust_in : MovementType
  adjust_out : MovementType

abbrev pub movement_type_eq : MovementType → MovementType → Bool
movement_type_eq receipt receipt = true
movement_type_eq issue issue = true
movement_type_eq transfer_out transfer_out = true
movement_type_eq transfer_in transfer_in = true
movement_type_eq reserve reserve = true
movement_type_eq unreserve unreserve = true
movement_type_eq adjust_in adjust_in = true
movement_type_eq adjust_out adjust_out = true
movement_type_eq _ _ = false

abbrev pub inbound_types : List MovementType
inbound_types = receipt ∷ transfer_in ∷ adjust_in ∷ []

abbrev pub outbound_types : List MovementType
outbound_types = issue ∷ transfer_out ∷ adjust_out ∷ []

abbrev pub is_inbound : MovementType → Bool
is_inbound t = any (movement_type_eq t) inbound_types

abbrev pub is_outbound : MovementType → Bool
is_outbound t = any (movement_type_eq t) outbound_types

pub record StockMovementSnapshot : Type 0 where
  pub id : String
  pub tenant_id : String
  pub warehouse_id : String
  pub item_id : String
  pub item_sku : String
  pub lot_id : Option String
  pub uom_code : String
  pub type : MovementType
  pub quantity : ℤ
  pub unit_cost_minor : ℤ
  pub cost_minor : ℤ
  pub currency : String
  pub reference_type : String
  pub reference_id : String
  pub reason : Option String
  pub serial_numbers : List String
  pub occurred_at : ℕ
  pub created_by : String

-- `/[A-Z0-9_]/`
abbrev is_snake : Char → Bool
is_snake c = is_capital c || leb b'0' (code c) && leb (code c) b'9' || code c == b'_'

all_snake : String → Bool
all_snake String.[] = true
all_snake (String.◌∷◌ c s) = is_snake c && all_snake s

-- `/^[A-Z][A-Z0-9_]{2,31}$/`
unfoldable pub is_reference_type : String → Bool
unfolding all_snake text_length
is_reference_type String.[] = false
is_reference_type (String.◌∷◌ c s) =
    is_capital c && all_snake s && leb 2 (text_length s) && leb (text_length s) 31

abbrev text_or_empty : Option String → String
text_or_empty none = ""
text_or_empty (some s) = s

unfoldable pub validate_movement : StockMovementSnapshot → Result InventoryError (Unit {0})
unfolding is_reference_type
validate_movement m = do
  throw_if (leb_ℤ m.quantity (pos 0)) invalid_movement
  throw_if (ltb_ℤ m.unit_cost_minor (pos 0) || ltb_ℤ m.cost_minor (pos 0)) invalid_movement
  throw_if (not (is_reference_type m.reference_type)) invalid_movement
  throw_if (text_length (trim m.reference_id) == 0) invalid_movement
  throw_if (ltb 500 (text_length (text_or_empty m.reason))) invalid_movement
  throw_if
      ((movement_type_eq m.type adjust_in || movement_type_eq m.type adjust_out)
        && is_empty (trim (text_or_empty m.reason)))
      invalid_movement
