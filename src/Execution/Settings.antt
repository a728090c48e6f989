-- ===== src/Execution/Settings.antt =====
-- The gates of backend/stockbrain/config.py on sending orders: `execution_blockers`, which is about
-- the live environment, and `order_transmission_blockers`.
use stock_brain.Prelude.{
  Bool, true, false, ◌&&◌, List, [], ◌∷◌, ◌++◌, Text, codes, if◌then◌else◌, non_empty,
}

pub data BrokerEnvironment : Type 0 where
  demo live : BrokerEnvironment

pub data ExecutionMode : Type 0 where
  research_only manual_approval : ExecutionMode

abbrev pub is_live : BrokerEnvironment → Bool
is_live BrokerEnvironment.live = true
is_live _ = false

-- The value of the enumeration.
abbrev pub environment_name : BrokerEnvironment → Text
environment_name BrokerEnvironment.demo = codes "demo"
environment_name BrokerEnvironment.live = codes "live"

abbrev pub is_manual_approval : ExecutionMode → Bool
is_manual_approval ExecutionMode.manual_approval = true
is_manual_approval _ = false

-- The settings that these gates read.
pub record Settings : Type 0 where
  pub t212_env : BrokerEnvironment
  pub t212_api_key : Text
  pub t212_api_secret : Text
  pub t212_execution_enabled : Bool
  pub t212_live_execution_enabled : Bool
  pub t212_written_consent_confirmed : Bool
  pub t212_automated_trading_consent_confirmed : Bool
  pub execution_mode : ExecutionMode

-- A sentence of the two lists.
pub data Gate : Type 0 where
  not_live live_disabled no_written_consent wrong_mode no_credentials execution_disabled : Gate

-- `broker_credentials_present`
abbrev pub broker_credentials_present : Settings → Bool
broker_credentials_present s = non_empty s.t212_api_key && non_empty s.t212_api_secret

-- `blockers.append(gate)` under a condition.
abbrev pub unless : Bool → Gate → List Gate
unless ok gate = if ok then [] else gate ∷ []

-- `execution_blockers`
unfoldable pub execution_blockers : Settings → List Gate
execution_blockers s =
    unless (is_live s.t212_env) Gate.not_live
    ++ (unless s.t212_live_execution_enabled Gate.live_disabled
        ++ (unless s.t212_written_consent_confirmed Gate.no_written_consent
            ++ (unless (is_manual_approval s.execution_mode) Gate.wrong_mode
                ++ unless (broker_credentials_present s) Gate.no_credentials)))

-- `order_transmission_blockers`
unfoldable pub order_transmission_blockers : Settings → List Gate
unfolding execution_blockers
order_transmission_blockers s =
    unless s.t212_execution_enabled Gate.execution_disabled
    ++ (unless (broker_credentials_present s) Gate.no_credentials
        ++ (unless (is_manual_approval s.execution_mode) Gate.wrong_mode
            ++ (if is_live s.t212_env then execution_blockers s else [])))
