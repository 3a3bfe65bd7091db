-- ===== src/Inventory/CountTests.antt =====
-- A count sheet at concrete values, on which the theorems apply.
use nestjs_api_template.Prelude.Maps
use nestjs_api_template.Inventory.Balance.{StockBalanceSnapshot}
use nestjs_api_template.Inventory.Count.{
  CountLine, CountLineInput, CreateCountProps, StockCount, adjustment_of, check_entries, counting,
  create_count, draft, make_count_lines, post_count, posted, record_counts, review, start,
  submit_for_review, transition,
}
use nestjs_api_template.Inventory.CountAdjusted.{adjusted, adjusted_to_count}
use nestjs_api_template.Inventory.CountHistory.{
  IsLine, IsValid, counts, created_count-IsValid, onward, posts, sheet, starts, submits, unchanged,
}
use nestjs_api_template.Prelude.{[], arith, none, ok, refl, some, ◌∷◌, ◌≡◌}
use nestjs_api_template.Prelude.Int.{negsuc, pos, ◌-ℤ◌}
use nestjs_api_template.Prelude.Text.{text_length, trim}

abbrev sheet_line : CountLineInput
sheet_line = record {
  id = "L1";
  item_id = "I";
  item_sku = "BOLT";
  lot_id = none;
  lot_number = none;
  uom_code = "PCS";
  system_qty = pos 10;
  unit_cost_minor = pos 5;
}

abbrev props : CreateCountProps
props = record {
  id = "C";
  tenant_id = "T";
  number = "SC-1";
  warehouse_id = "W";
  notes = some " north aisle ";
  created_by = "ann";
  lines = sheet_line ∷ [];
  now = 1;
}

abbrev drafted : StockCount
drafted = record {
  id = "C";
  tenant_id = "T";
  number = "SC-1";
  warehouse_id = "W";
  status = draft;
  notes = some "north aisle";
  approval_request_id = none;
  version = 0;
  created_by = "ann";
  counted_at = none;
  posted_at = none;
  lines = record { input = sheet_line; line_no = 1; counted_qty = none; variance_qty = pos 0 } ∷ [];
  created_at = 1;
  updated_at = 1;
}

abbrev started : StockCount
started = record drafted { status = counting; updated_at = 2 }

abbrev counted_as : CountLine
counted_as = record {
  input = sheet_line;
  line_no = 1;
  counted_qty = some (pos 7);
  variance_qty = negsuc 2;
}

abbrev counted : StockCount
counted = record started { lines = counted_as ∷ []; updated_at = 3 }

abbrev reviewed : StockCount
reviewed = record counted { status = review; counted_at = some 4; updated_at = 4 }

abbrev adjusted_sheet : StockCount
adjusted_sheet = record reviewed { status = posted; posted_at = some 5; updated_at = 5 }

count_is_created : create_count props ≡ ok drafted
unfolding create_count make_count_lines trim text_length
count_is_created = refl

count_is_started : start drafted 2 ≡ ok started
unfolding start transition
count_is_started = refl

count_is_recorded :
    record_counts started (record { line_id = "L1"; counted_qty = pos 7 } ∷ []) 3 ≡ ok counted
unfolding record_counts check_entries Maps.get Maps.put Maps.from_entries ◌-ℤ◌
count_is_recorded = refl

count_is_submitted : submit_for_review counted 4 ≡ ok reviewed
unfolding submit_for_review transition
count_is_submitted = refl

count_is_posted : post_count reviewed 5 ≡ ok adjusted_sheet
unfolding post_count transition
count_is_posted = refl

created_count-IsValid_example : IsValid adjusted_sheet × (sheet adjusted_sheet ≡ props.lines)
created_count-IsValid_example = created_count-IsValid props count_is_created (
    onward (starts 2 count_is_started) (
      onward (counts (record { line_id = "L1"; counted_qty = pos 7 } ∷ []) 3 count_is_recorded)
        (onward (submits 4 count_is_submitted) (onward (posts 5 count_is_posted) unchanged))))

abbrev on_shelf : StockBalanceSnapshot
on_shelf = record {
  id = "B";
  tenant_id = "T";
  warehouse_id = "W";
  item_id = "I";
  lot_id = none;
  uom_code = "PCS";
  on_hand_qty = pos 10;
  reserved_qty = pos 2;
  version = 0;
}

entry-IsLine : IsLine counted_as
unfolding ◌-ℤ◌
entry-IsLine = (omega arith, (omega arith, refl))

adjusted_to_count_example :
    adjusted on_shelf (adjustment_of counted_as) ≡ ok (record on_shelf { on_hand_qty = pos 7 })
adjusted_to_count_example =
    adjusted_to_count counted_as on_shelf (pos 7) entry-IsLine refl
      (record { reserved_nonneg = omega arith; reserved_le = omega arith }) refl (omega arith)
