-- ===== src/Execution/Samples.antt =====
-- A sale, the settings and the account that the tests of the execution modules share.
use stock_brain.Prelude.{ℕ, true, false, [], ◌∷◌, Option, none, some, codes}
use stock_brain.Decimal.{whole}
use stock_brain.Enums.{ProposalStatus, AuthorizationSource, ExecutionPolicy, OrderSide}
use stock_brain.Control.{ControlSnapshot, ControlFlag, inactive}
use stock_brain.Risk.Models.{AccountState}
use stock_brain.Execution.Settings.{Settings, BrokerEnvironment, ExecutionMode}
use stock_brain.Store.{TradeProposal}
use stock_brain.Execution.Preflight.{Revalidation}

abbrev pub demo_settings : Settings
demo_settings = record {
  t212_env = BrokerEnvironment.demo;
  t212_api_key = codes "k";
  t212_api_secret = codes "s";
  t212_execution_enabled = true;
  t212_live_execution_enabled = false;
  t212_written_consent_confirmed = false;
  t212_automated_trading_consent_confirmed = false;
  execution_mode = ExecutionMode.manual_approval;
}

abbrev pub running : ControlSnapshot
running = record {
  paused = inactive ControlFlag.trading_paused;
  kill_switch = inactive ControlFlag.kill_switch;
}

abbrev pub sale : TradeProposal
sale = record {
  id = 7;
  thesis_id = some 1;
  company_id = some 2;
  broker_instrument_id = some 3;
  research_run_id = some 4;
  risk_policy_version = some (codes "1");
  approved_by = some (codes "ada");
  created_at = 10;
  updated_at = 40;
  invalidated_at = none;
  rejected_at = none;
  rejected_by = none;
  executed_at = none;
  dedupe_key = some (codes "k");
  broker_environment = codes "demo";
  broker_ticker = codes "ACME_US_EQ";
  side = OrderSide.sell;
  status = ProposalStatus.approved;
  execution_policy = ExecutionPolicy.manual;
  authorization_source = some AuthorizationSource.human_web;
  approved_at = some 40;
  expires_at = 100;
  proposed_quantity = whole 3;
  max_quantity = whole 3;
  reference_price = whole 10;
  estimated_notional = whole 30;
  estimated_notional_account_currency = some (whole 30);
  fx_required = false;
  fx_rate = none;
  version = 2;
}

abbrev pub holding : AccountState
holding = record {
  currency = codes "USD";
  cash_available = whole 0;
  total_value = whole 50;
  captured_at = 45;
  invested_value = whole 50;
  positions =
      (
        codes "ACME_US_EQ",
        record { quantity = whole 9; quantity_available = whole 5; market_value = none },
      )
      ∷ [];
}

abbrev pub passed : Revalidation
passed = record { rules = []; account = some holding }

abbrev pub always : Revalidation → ℕ → Option Revalidation
always r now = some r
