-- ===== src/Doomsday/Deadline.antt =====
-- When the main loop explodes.
use mathlib.Core.Path.{subst₂}
use future_aio.Base.{
  ℕ, zero, suc, ◌+◌, ◌≤◌, ◌<◌, ◌≡◌, refl, Bool, true, false, List, [], ◌∷◌, arith, ge→ltb, leb,
  if◌then◌else◌, subst, sym, ◌∙◌, ap, replicate, ◌≢◌,
}
use future_aio.Doomsday.{
  DoomsdayTimer, Explosion, exit, panic, Loop, loading, taking_time, locking, sleeping, returned,
  exploded, World, Act, loops, passes, begins_reset, ends_reset, defuses, explodes, explode_inner,
  main_loop, spawn, end_reset, step, run,
}

-- A time that the loop took is not in the future, and the loop has not exploded.
abbrev pub Calm : ℕ → Loop → Type 0
Calm clock (locking now) = now ≤ clock
Calm clock (exploded e) = ⊥
Calm clock l = Unit {0}

-- Before each action of a run the time to explode is not yet over.
abbrev pub InTime : World → List Act → Type 0
InTime w [] = Unit {0}
InTime w (a ∷ acts) = (w.clock ≤ w.timer.time_to_explode) × InTime (step w a) acts

if-Calm :
    (b : Bool) (clock : ℕ) (x y : Loop)
    → Calm clock x
    → Calm clock y
    → Calm clock (if b then x else y)
if-Calm true clock x y p q = p
if-Calm false clock x y p q = q

main_loop-Calm :
    (t : DoomsdayTimer) (clock : ℕ) (l : Loop)
    → clock ≤ t.time_to_explode
    → Calm clock l
    → Calm clock (main_loop t clock l)
unfolding main_loop
main_loop-Calm t clock loading h c = if-Calm t.defused clock returned taking_time tt tt
main_loop-Calm t clock taking_time h c = omega arith
main_loop-Calm t clock (locking now) h c = rw (ge→ltb t.time_to_explode now (omega arith)) tt
main_loop-Calm t clock (sleeping until) h c =
    if-Calm (leb until clock) clock loading (sleeping until) tt tt
main_loop-Calm t clock returned h c = tt
main_loop-Calm t clock (exploded e) h c = c

Calm-later : (clock d : ℕ) (l : Loop) → Calm clock l → Calm (clock + d) l
Calm-later clock d loading c = tt
Calm-later clock d taking_time c = tt
Calm-later clock d (locking now) c = omega arith
Calm-later clock d (sleeping until) c = tt
Calm-later clock d returned c = tt
Calm-later clock d (exploded e) c = c

-- A reset leaves the clock and the loop.
end_reset_frame :
    (w : World) (i : ℕ) → ((end_reset w i).clock ≡ w.clock) × ((end_reset w i).loop ≡ w.loop)
unfolding end_reset
end_reset_frame w i = ground arith

step-Calm :
    (w : World) (a : Act)
    → w.clock ≤ w.timer.time_to_explode
    → Calm w.clock w.loop
    → Calm (step w a).clock (step w a).loop
unfolding step
step-Calm w loops h c = main_loop-Calm w.timer w.clock w.loop h c
step-Calm w (passes d) h c = Calm-later w.clock d w.loop c
step-Calm w begins_reset h c = c
step-Calm w (ends_reset i) h c =
    let (clock, loop) = end_reset_frame w i in subst₂ Calm (sym clock) (sym loop) c
step-Calm w defuses h c = c
step-Calm w explodes h c = c

run-Calm :
    (acts : List Act) (w : World)
    → InTime w acts
    → Calm w.clock w.loop
    → Calm (run w acts).clock (run w acts).loop
unfolding run
run-Calm [] w h c = c
run-Calm (a ∷ acts) w h c = run-Calm acts (step w a) h.1 (step-Calm w a h.0 c)

-- However the actions of the loop, of the clients and of the clock follow one another, a timer whose
-- time to explode is not over before any of them does not explode in its main loop.
pub InTime-never_explodes :
    (now duration : ℕ) (mode : Bool) (acts : List Act) (e : Explosion)
    → InTime (spawn now duration mode) acts
    → (run (spawn now duration mode) acts).loop ≢ exploded e
unfolding spawn
InTime-never_explodes now duration mode acts e h x =
    subst (Calm (run (spawn now duration mode) acts).clock) x (run-Calm acts _ h tt)

-- The loop is not asleep beyond the clock, nor holds a time that it took before the deadline.
abbrev pub Awake : DoomsdayTimer → ℕ → Loop → Type 0
Awake t clock (locking now) = t.time_to_explode < now
Awake t clock (sleeping until) = until ≤ clock
Awake t clock (exploded e) = e ≡ explode_inner t
Awake t clock returned = ⊥
Awake t clock l = Unit {0}

-- One more action of the loop, none of which explodes it for another reason.
turns : ℕ → DoomsdayTimer → ℕ → Loop → Loop
turns zero t clock l = l
turns (suc n) t clock l = turns n t clock (main_loop t clock l)

overdue_turns :
    (t : DoomsdayTimer) (clock : ℕ) (l : Loop)
    → t.defused ≡ false
    → t.time_to_explode < clock
    → Awake t clock l
    → turns 4 t clock l ≡ exploded (explode_inner t)
unfolding turns main_loop
overdue_turns t clock loading d o a = ground arith
overdue_turns t clock taking_time d o a = ground arith
overdue_turns t clock (locking now) d o a = ground arith
overdue_turns t clock (sleeping until) d o a = ground arith
overdue_turns t clock returned d o a = absurd a
overdue_turns t clock (exploded e) d o a = ap exploded a

run_loops : (n : ℕ) (w : World) → (run w (replicate n loops)).loop ≡ turns n w.timer w.clock w.loop
unfolding run turns step
run_loops zero w = refl
run_loops (suc n) w = run_loops n (step w loops)

-- Once the time to explode is over, and no call comes between, four actions of a main loop that is
-- awake and not defused make it explode: with an exit in the aggressive mode, else with a panic.
pub overdue_explodes :
    (w : World)
    → w.timer.defused ≡ false
    → w.timer.time_to_explode < w.clock
    → Awake w.timer w.clock w.loop
    → (run w (replicate 4 loops)).loop ≡ exploded (if w.timer.aggressive_mode then exit else panic)
unfolding explode_inner
overdue_explodes w d o a = run_loops 4 w ∙ overdue_turns w.timer w.clock w.loop d o a
