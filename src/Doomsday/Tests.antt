-- ===== src/Doomsday/Tests.antt =====
-- Runs of a timer at examples, after the unit tests of src/doomsday.rs, in milliseconds.
use future_aio.Base.{◌≡◌, ◌≢◌, refl, true, false, List, [], ◌∷◌, Option, some, replicate, arith}
use future_aio.Doomsday.{
  World, panic, taking_time, sleeping, exploded, returned, Act, loops, passes, begins_reset,
  ends_reset, defuses, explodes, spawn, explode_inner, step, run,
}
use future_aio.Doomsday.Deadline.{InTime-never_explodes, overdue_explodes}
use future_aio.Doomsday.Defused.{defused_never_explodes, defused_too_late}

-- A reset after five milliseconds, and the next turn of the loop.
abbrev kept_alive : List Act
kept_alive =
    loops
    ∷ loops
    ∷ loops
    ∷ passes 5
    ∷ begins_reset
    ∷ ends_reset 0
    ∷ passes 5
    ∷ loops
    ∷ loops
    ∷ loops
    ∷ []

InTime-never_explodes_example : (run (spawn 0 10 false) kept_alive).loop ≢ exploded panic
unfolding spawn step
InTime-never_explodes_example = InTime-never_explodes 0 10 false kept_alive panic (omega arith)

-- test_explode: the timer of one millisecond after two.
abbrev late : World
late = record {
  timer = record { time_to_explode = 1; duration = 1; defused = false; aggressive_mode = false };
  clock = 2;
  loop = sleeping 1;
  pending = [];
  client_explosion = Option.none;
}

late_is_reached : run (spawn 0 1 false) (loops ∷ loops ∷ loops ∷ passes 2 ∷ []) ≡ late
unfolding run spawn step
late_is_reached = refl

overdue_explodes_example : (run late (replicate 4 loops)).loop ≡ exploded panic
overdue_explodes_example = overdue_explodes late refl (omega arith) (omega arith)

-- test_do_not_explode
defused_ends : (run (step late defuses) (loops ∷ loops ∷ [])).loop ≡ returned
unfolding run step
defused_ends = refl

defused_never_explodes_example :
    ((run (step late defuses) (replicate 4 loops)).timer.defused ≡ true)
    × ((run (step late defuses) (replicate 4 loops)).loop ≢ exploded panic)
defused_never_explodes_example = defused_never_explodes late (replicate 4 loops) panic tt

defused_too_late_example :
    ((run (record late { loop = taking_time }) (defuses ∷ loops ∷ loops ∷ [])).loop
      ≡ exploded panic)
    × ((run (record late { loop = taking_time }) (defuses ∷ explodes ∷ [])).client_explosion
        ≡ some panic)
unfolding explode_inner
defused_too_late_example = defused_too_late (record late { loop = taking_time }) refl (omega arith)
