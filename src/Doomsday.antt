-- ===== src/Doomsday.antt =====
-- `DoomsdayTimer` of src/doomsday.rs: the shared timer, its main loop one atomic action at a time,
-- and the calls of the clients, in any order. Instants and durations are numbers of nanoseconds, and
-- the sum of an instant and a duration does not overflow.
pub mod Deadline
pub mod Defused
mod Tests
use Prim.Native.String.{◌++◌}
use future_aio.Base.{
  ℕ, String, zero, suc, ◌+◌, ◌-◌, Bool, true, false, ltb, leb, if◌then◌else◌, List, [], ◌∷◌, Option,
  none, some, get_elem?,
}

-- The fields that the clones of a timer share are one state here.
pub record DoomsdayTimer : Type 0 where
  pub time_to_explode : ℕ
  pub duration : ℕ
  pub defused : Bool
  pub aggressive_mode : Bool

-- `Display`, with the `Debug` of a duration.
pub display : (ℕ → String) → DoomsdayTimer → String
display show t =
    let fail_mode : String = if t.aggressive_mode then "Exits" else "Panics" in
    "DoomsdayTimer(Duration: " ++ show t.duration ++ ", " ++ fail_mode ++ ")"

pub data Explosion : Type 0 where
  exit panic : Explosion

-- Where the main loop stands: before the load of `defused`; before it takes the time; before it
-- locks `time_to_explode`, with the time that it took; asleep until an instant; at its end.
pub data Loop : Type 0 where
  loading taking_time : Loop
  locking : ℕ → Loop
  sleeping : ℕ → Loop
  returned : Loop
  exploded : Explosion → Loop

pub explode_inner : DoomsdayTimer → Explosion
explode_inner t = if t.aggressive_mode then exit else panic

-- The next action of `main_loop` at the time `clock`. The subtraction is below the test that makes
-- it exact.
main_loop : DoomsdayTimer → ℕ → Loop → Loop
main_loop t clock loading = if t.defused then returned else taking_time
main_loop t clock taking_time = locking clock
main_loop t clock (locking now) =
    if ltb t.time_to_explode now
    then exploded (explode_inner t)
    else sleeping (clock + (t.time_to_explode - now))
main_loop t clock (sleeping until) = if leb until clock then loading else sleeping until
main_loop t clock returned = returned
main_loop t clock (exploded e) = exploded e

-- `pending` holds the new times of the calls of `reset` that wait for the lock.
pub record World : Type 0 where
  pub timer : DoomsdayTimer
  pub clock : ℕ
  pub loop : Loop
  pub pending : List ℕ
  pub client_explosion : Option Explosion

pub spawn : ℕ → ℕ → Bool → World
spawn now duration exit_on_explode = record {
  timer = record {
    time_to_explode = now + duration;
    duration = duration;
    defused = false;
    aggressive_mode = exit_on_explode;
  };
  clock = now;
  loop = loading;
  pending = [];
  client_explosion = none;
}

set_time : World → ℕ → World
set_time w t = record w { timer = record w.timer { time_to_explode = t } }

remove : ℕ → List ℕ → List ℕ
remove i [] = []
remove zero (t ∷ ts) = ts
remove (suc i) (t ∷ ts) = t ∷ remove i ts

-- `reset` computes the new time, and writes it once it has the lock.
pub begin_reset : World → World
begin_reset w = record w { pending = (w.clock + w.timer.duration) ∷ w.pending }

pub end_reset : World → ℕ → World
unfolding set_time remove
end_reset w i = elim (get_elem? w.pending i) [
  | none ↦ w
  | some t ↦ set_time (record w { pending = remove i w.pending }) t
]

pub defuse : World → World
defuse w = record w { timer = record w.timer { defused = true } }

pub explode : World → World
explode w = record w { client_explosion = some (explode_inner w.timer) }

-- What happens next: an action of the loop, time passing, or a part of a call of a client.
pub data Act : Type 0 where
  loops : Act
  passes : ℕ → Act
  begins_reset : Act
  ends_reset : ℕ → Act
  defuses explodes : Act

pub step : World → Act → World
unfolding main_loop begin_reset end_reset defuse explode explode_inner
step w loops = record w { loop = main_loop w.timer w.clock w.loop }
step w (passes d) = record w { clock = w.clock + d }
step w begins_reset = begin_reset w
step w (ends_reset i) = end_reset w i
step w defuses = defuse w
step w explodes = explode w

pub run : World → List Act → World
run w [] = w
run w (a ∷ acts) = run (step w a) acts
