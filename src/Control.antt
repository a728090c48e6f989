-- ===== src/Control.antt =====
-- backend/stockbrain/control/state.py: the durable flags that halt trading. The table of settings maps
-- a flag to its stored value, and the audit log lists the changes, the last one first.
pub mod Halts
mod Tests
use stock_brain.Prelude.{
  ℕ, zero, suc, Bool, true, false, not, ◌&&◌, ◌||◌, List, [], ◌∷◌, ◌++◌, Option, none, some,
  if◌then◌else◌, Text, codes, starts_with, non_empty, truncate,
}

pub data ControlFlag : Type 0 where
  trading_paused kill_switch : ControlFlag

abbrev pub flag_eq : ControlFlag → ControlFlag → Bool
flag_eq ControlFlag.trading_paused ControlFlag.trading_paused = true
flag_eq ControlFlag.kill_switch ControlFlag.kill_switch = true
flag_eq _ _ = false

pub record ControlState : Type 0 where
  pub flag : ControlFlag
  pub active : Bool
  pub changed_at : Option ℕ
  pub actor : Option Text
  pub source : Option Text
  pub reason : Option Text

pub record ControlSnapshot : Type 0 where
  pub paused : ControlState
  pub kill_switch : ControlState

-- `ControlSnapshot.trading_halted`
unfoldable pub trading_halted : ControlSnapshot → Bool
trading_halted snapshot = snapshot.paused.active || snapshot.kill_switch.active

-- A sentence of `control_blockers`: the flag, and the reason that it was given.
pub data ControlBlocker : Type 0 where
  killed paused : Option Text → ControlBlocker

-- `control_blockers`
unfoldable pub control_blockers : ControlSnapshot → List ControlBlocker
control_blockers snapshot =
    (if snapshot.kill_switch.active
      then ControlBlocker.killed snapshot.kill_switch.reason ∷ []
      else [])
    ++ (if snapshot.paused.active then ControlBlocker.paused snapshot.paused.reason ∷ [] else [])

-- What the row of a flag holds: the dictionary that `_set` writes, or something unreadable.
pub data StoredValue : Type 0 where
  unreadable : StoredValue
  stored :
      (active : Bool) (changed_at : ℕ) (actor source : Text) (reason : Option Text) → StoredValue

pub record AuditEntry : Type 0 where
  pub by_user : Bool
  pub actor_id : Text
  pub flag : ControlFlag
  pub engaged : Bool
  pub source : Text
  pub reason : Option Text

-- The two tables.
pub record ControlTables : Type 0 where
  pub settings : List (ControlFlag × StoredValue)
  pub audit : List AuditEntry

-- `_text`: an empty text counts as missing.
abbrev pub text_of : Text → Option Text
text_of [] = none
text_of (c ∷ t) = some (c ∷ t)

abbrev pub inactive : ControlFlag → ControlState
inactive flag = record {
  flag = flag;
  active = false;
  changed_at = none;
  actor = none;
  source = none;
  reason = none;
}

-- `_state_from_row`
unfoldable pub state_from_row : ControlFlag → Option StoredValue → ControlState
state_from_row flag none = inactive flag
state_from_row flag (some StoredValue.unreadable) = inactive flag
state_from_row flag (some (StoredValue.stored active changed_at actor source reason)) = record {
  flag = flag;
  active = active;
  changed_at = some changed_at;
  actor = text_of actor;
  source = text_of source;
  reason = elim reason [ none ↦ none | some text ↦ text_of text ];
}

-- `rows.get(flag)`
unfoldable pub row_of_flag : ControlFlag → List (ControlFlag × StoredValue) → Option StoredValue
row_of_flag flag [] = none
row_of_flag flag ((key, value) ∷ rest) =
    let later = row_of_flag flag rest in if flag_eq key flag then some value else later

-- `snapshot`
unfoldable pub snapshot : ControlTables → ControlSnapshot
snapshot tables = record {
  paused =
      state_from_row ControlFlag.trading_paused
        (row_of_flag ControlFlag.trading_paused tables.settings);
  kill_switch =
      state_from_row ControlFlag.kill_switch (row_of_flag ControlFlag.kill_switch tables.settings);
}

-- `INSERT … ON CONFLICT DO UPDATE`
unfoldable pub upsert :
    ControlFlag → StoredValue → List (ControlFlag × StoredValue) → List (ControlFlag × StoredValue)
upsert flag value [] = (flag, value) ∷ []
upsert flag value ((key, old) ∷ rest) =
    let later = upsert flag value rest in
    if flag_eq key flag then (key, value) ∷ rest else (key, old) ∷ later

-- `(reason or None) and reason[:500]`
abbrev pub short_reason : Option Text → Option Text
short_reason none = none
short_reason (some []) = none
short_reason (some (c ∷ t)) = some (truncate 500 (c ∷ t))

-- Who changes a flag, from where, and why.
pub record Change : Type 0 where
  pub actor : Text
  pub source : Text
  pub reason : Option Text

-- `_set`: both tables change in one transaction, at the instant `now`.
unfoldable pub set_flag : ControlFlag → Bool → ℕ → Change → ControlTables → ControlTables
set_flag flag active now change tables = record {
  settings =
      upsert flag
        (StoredValue.stored active now change.actor change.source (short_reason change.reason))
        tables.settings;
  audit =
      (record {
        by_user = starts_with (codes "HUMAN") change.source;
        actor_id = change.actor;
        flag = flag;
        engaged = active;
        source = change.source;
        reason = short_reason change.reason;
      })
      ∷ tables.audit;
}

unfoldable pub pause : ℕ → Change → ControlTables → ControlTables
unfolding set_flag
pause = set_flag ControlFlag.trading_paused true

unfoldable pub resume : ℕ → Change → ControlTables → ControlTables
unfolding set_flag
resume = set_flag ControlFlag.trading_paused false

unfoldable pub engage_kill_switch : ℕ → Change → ControlTables → ControlTables
unfolding set_flag
engage_kill_switch = set_flag ControlFlag.kill_switch true

unfoldable pub release_kill_switch : ℕ → Change → ControlTables → ControlTables
unfolding set_flag
release_kill_switch = set_flag ControlFlag.kill_switch false
