-- ===== src/Control/Tests.antt =====
-- The theorems on the control flags at concrete tables.
use stock_brain.Prelude.{◌≡◌, refl, true, List, [], ◌∷◌, none, some, codes}
use stock_brain.Control.{
  ControlFlag, ControlTables, StoredValue, Change, set_flag, snapshot, trading_halted,
  engage_kill_switch, upsert, row_of_flag, state_from_row,
}
use stock_brain.Control.Halts.{
  Operation, perform_all, IsChange, set_flag-IsChange, kill_switch_stays,
}

abbrev by_phone : Change
by_phone = record {
  actor = codes "ana";
  source = codes "HUMAN_TELEGRAM";
  reason = some (codes "gap");
}

-- A pause from before, and a row that cannot be read.
abbrev tables : ControlTables
tables = record {
  settings =
      (ControlFlag.trading_paused, StoredValue.stored true 5 (codes "ana") (codes "HUMAN_WEB") none)
      ∷ (ControlFlag.kill_switch, StoredValue.unreadable)
      ∷ [];
  audit = [];
}

abbrev killed_tables : ControlTables
killed_tables = engage_kill_switch 9 by_phone tables

set_flag-IsChange_example :
    IsChange ControlFlag.kill_switch true 9 tables
      (set_flag ControlFlag.kill_switch true 9 by_phone tables)
set_flag-IsChange_example = set_flag-IsChange ControlFlag.kill_switch true 9 by_phone tables

abbrev later : List Operation
later =
    Operation.resuming 10 by_phone
    ∷ Operation.pausing 11 by_phone
    ∷ Operation.resuming 12 by_phone
    ∷ []

kill_switch_stays_example :
    ((snapshot (perform_all later killed_tables)).kill_switch.active ≡ true)
    × (trading_halted (snapshot (perform_all later killed_tables)) ≡ true)
unfolding snapshot engage_kill_switch set_flag upsert row_of_flag state_from_row
kill_switch_stays_example = kill_switch_stays later killed_tables refl refl
