-- ===== src/ProductionOrder/Order/Commands.antt =====
-- The calls that change an order, as data.
use nestjs_api_template.Prelude.{Bool, Result, String, ℕ}
use nestjs_api_template.ProductionOrder.Money.{Money, MoneyError}
use nestjs_api_template.ProductionOrder.Order.Methods.{
  approve, cancel, recall, release, report_progress, submit,
}
use nestjs_api_template.ProductionOrder.Order.State.{Method}
use nestjs_api_template.ProductionOrder.Policies.{TolerancePolicy}
use nestjs_api_template.ProductionOrder.Quantity.{Quantity}

pub data Command : Type 0 where
  submit_command : String → ℕ → Command
  recall_command : String → ℕ → Command
  approve_command : String → (Money → Result MoneyError Bool) → ℕ → Command
  release_command : String → ℕ → Command
  report_command : Quantity → String → ℕ → TolerancePolicy → Command
  cancel_command : String → String → ℕ → Command

unfoldable pub run : Command → Method (Unit {0})
run (submit_command actor now) = submit actor now
run (recall_command actor now) = recall actor now
run (approve_command actor threshold now) = approve actor threshold now
run (release_command actor now) = release actor now
run (report_command quantity actor now tolerance) = report_progress quantity actor now tolerance
run (cancel_command actor reason now) = cancel actor reason now
