-- ===== src/Execution/Stamps.antt =====
-- The time stamps of a commit.
use harel.Prelude.{◌≡◌, refl, ◌⊎◌, true, false, none, some, is_some, arith}
use harel.Value.{Value}
use harel.Execution.{Execution, stamp, is_finished}

-- A record whose end is stamped exactly when it has ended.
abbrev pub EndsStamped : Execution → Type 0
EndsStamped exe = is_some exe.finished_at ≡ is_finished exe.status

-- A stamp of a record whose end is stamped exactly when it has ended gives one of that kind, with a
-- time of creation, the one that it had if any, and the commit's time as its update; the end of a
-- record that had ended stays.
stamp_lem :
    (exe : Execution) (now : Value)
    → EndsStamped exe
    → (is_some (stamp exe now).created_at ≡ true)
      × ((exe.created_at ≡ none) ⊎ ((stamp exe now).created_at ≡ exe.created_at))
      × ((stamp exe now).updated_at ≡ some now)
      × EndsStamped (stamp exe now)
      × ((is_finished exe.status ≡ false) ⊎ ((stamp exe now).finished_at ≡ exe.finished_at))
unfolding stamp
stamp_lem exe now h = (ground arith, ground arith, refl, ground arith, ground arith)
