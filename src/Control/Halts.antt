-- ===== src/Control/Halts.antt =====
-- The flags are read back as they were set, and only an explicit release lifts the kill switch.
use stock_brain.Prelude.{
  ℕ, suc, ◌≡◌, refl, Bool, true, false, List, [], ◌∷◌, some, arith, non_empty, length, ap, ◌∙◌, any,
}
use stock_brain.Control.{
  ControlFlag, flag_eq, ControlState, ControlSnapshot, trading_halted, control_blockers,
  ControlTables, StoredValue, state_from_row, row_of_flag, snapshot, upsert, set_flag, Change,
  pause, resume, engage_kill_switch, release_kill_switch, short_reason,
}

-- Trading is halted exactly when there is a blocker to show.
pub trading_halted-control_blockers :
    (s : ControlSnapshot) → trading_halted s ≡ non_empty (control_blockers s)
unfolding trading_halted control_blockers
trading_halted-control_blockers s = ground arith

row_of_flag-upsert :
    (flag : ControlFlag) (value : StoredValue) (rows : List (ControlFlag × StoredValue))
    → row_of_flag flag (upsert flag value rows) ≡ some value
unfolding row_of_flag upsert
row_of_flag-upsert ControlFlag.trading_paused value [] = refl
row_of_flag-upsert ControlFlag.kill_switch value [] = refl
row_of_flag-upsert flag value ((key, old) ∷ rest) =
    ground (arith, row_of_flag-upsert flag value rest)

row_of_flag-upsert_other :
    (flag other : ControlFlag) (value : StoredValue) (rows : List (ControlFlag × StoredValue))
    → flag_eq flag other ≡ false
    → row_of_flag other (upsert flag value rows) ≡ row_of_flag other rows
unfolding row_of_flag upsert
row_of_flag-upsert_other flag other value [] h = ground (arith, h)
row_of_flag-upsert_other flag other value ((key, old) ∷ rest) h =
    ground (arith, h, row_of_flag-upsert_other flag other value rest h)

-- The state of a flag in a snapshot.
abbrev pub state_of : ControlFlag → ControlSnapshot → ControlState
state_of ControlFlag.trading_paused s = s.paused
state_of ControlFlag.kill_switch s = s.kill_switch

state_of-snapshot :
    (flag : ControlFlag) (tables : ControlTables)
    → state_of flag (snapshot tables) ≡ state_from_row flag (row_of_flag flag tables.settings)
unfolding snapshot
state_of-snapshot ControlFlag.trading_paused tables = refl
state_of-snapshot ControlFlag.kill_switch tables = refl

-- What a change of a flag does: the flag reads as it was set, at the instant of the change; the other
-- flag reads as before; and one entry is added to the log.
pub record IsChange (flag : ControlFlag) (active : Bool) (now : ℕ) (before after : ControlTables)
    : Type 0 where
  pub reads : (state_of flag (snapshot after)).active ≡ active
  pub dated : (state_of flag (snapshot after)).changed_at ≡ some now
  pub others :
      (other : ControlFlag)
      → flag_eq flag other ≡ false
      → state_of other (snapshot after) ≡ state_of other (snapshot before)
  pub logged : length after.audit ≡ suc (length before.audit)

-- Every change of a flag, in whatever order the rows of the table stand and whatever they held.
pub set_flag-IsChange :
    (flag : ControlFlag) (active : Bool) (now : ℕ) (change : Change) (tables : ControlTables)
    → IsChange flag active now tables (set_flag flag active now change tables)
unfolding set_flag state_from_row
set_flag-IsChange flag active now change tables =
    let value =
      StoredValue.stored active now change.actor change.source (short_reason change.reason) in
    let after = set_flag flag active now change tables in
    let row = row_of_flag-upsert flag value tables.settings in
    record {
      reads = rw (state_of-snapshot flag after, row) refl;
      dated = rw (state_of-snapshot flag after, row) refl;
      others = λ other h.
          rw
            (
              state_of-snapshot other after,
              state_of-snapshot other tables,
              row_of_flag-upsert_other flag other value tables.settings h,
            )
            refl;
      logged = refl;
    }

-- The operations on the flags.
pub data Operation : Type 0 where
  pausing resuming engaging releasing : (now : ℕ) (change : Change) → Operation

abbrev pub perform : Operation → ControlTables → ControlTables
perform (Operation.pausing now change) tables = pause now change tables
perform (Operation.resuming now change) tables = resume now change tables
perform (Operation.engaging now change) tables = engage_kill_switch now change tables
perform (Operation.releasing now change) tables = release_kill_switch now change tables

abbrev pub is_release : Operation → Bool
is_release (Operation.releasing _ _) = true
is_release _ = false

abbrev pub perform_all : List Operation → ControlTables → ControlTables
perform_all [] tables = tables
perform_all (op ∷ rest) tables = perform_all rest (perform op tables)

kill_kept :
    (op : Operation) (tables : ControlTables)
    → is_release op ≡ false
    → (snapshot tables).kill_switch.active ≡ true
    → (snapshot (perform op tables)).kill_switch.active ≡ true
unfolding pause resume engage_kill_switch
kill_kept (Operation.pausing now change) tables h k =
    ap (λ (s : ControlState). s.active)
      ((set_flag-IsChange ControlFlag.trading_paused true now change tables).others
        ControlFlag.kill_switch refl)
    ∙ k
kill_kept (Operation.resuming now change) tables h k =
    ap (λ (s : ControlState). s.active)
      ((set_flag-IsChange ControlFlag.trading_paused false now change tables).others
        ControlFlag.kill_switch refl)
    ∙ k
kill_kept (Operation.engaging now change) tables h k =
    (set_flag-IsChange ControlFlag.kill_switch true now change tables).reads
kill_kept (Operation.releasing now change) tables h k = absurd (ground (arith, h))

-- An engaged kill switch halts trading through any sequence of pauses, resumptions and engagements:
-- only a release lifts it.
pub kill_switch_stays :
    (ops : List Operation) (tables : ControlTables)
    → any is_release ops ≡ false
    → (snapshot tables).kill_switch.active ≡ true
    → ((snapshot (perform_all ops tables)).kill_switch.active ≡ true)
      × (trading_halted (snapshot (perform_all ops tables)) ≡ true)
unfolding trading_halted
kill_switch_stays [] tables h k = (k, ground (arith, k))
kill_switch_stays (op ∷ rest) tables h k =
    kill_switch_stays rest (perform op tables) (ground (arith, h))
      (kill_kept op tables (ground (arith, h)) k)
