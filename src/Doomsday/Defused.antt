-- ===== src/Doomsday/Defused.antt =====
-- What `defuse` promises, and where it comes too late.
use future_aio.Base.{
  ℕ, ◌<◌, ◌≡◌, ◌≢◌, refl, sym, ◌∙◌, subst, Bool, true, false, List, [], ◌∷◌, some, arith, leb,
  if◌then◌else◌,
}
use future_aio.Doomsday.{
  DoomsdayTimer, Explosion, Loop, loading, taking_time, locking, sleeping, returned, exploded,
  World, Act, loops, passes, begins_reset, ends_reset, defuses, explodes, explode_inner, main_loop,
  end_reset, step, run,
}

-- The loop will load `defused` before it looks at the deadline, or has ended.
abbrev pub Quiet : Loop → Type 0
Quiet taking_time = ⊥
Quiet (locking now) = ⊥
Quiet (exploded e) = ⊥
Quiet l = Unit {0}

abbrev pub IsSafe : World → Type 0
IsSafe w = (w.timer.defused ≡ true) × Quiet w.loop

if-Quiet : (b : Bool) (x y : Loop) → Quiet x → Quiet y → Quiet (if b then x else y)
if-Quiet true x y p q = p
if-Quiet false x y p q = q

main_loop-Quiet :
    (t : DoomsdayTimer) (clock : ℕ) (l : Loop)
    → t.defused ≡ true
    → Quiet l
    → Quiet (main_loop t clock l)
unfolding main_loop
main_loop-Quiet t clock loading d q =
    subst (λ b. Quiet (if b then returned else taking_time)) (sym d) tt
main_loop-Quiet t clock taking_time d q = absurd q
main_loop-Quiet t clock (locking now) d q = absurd q
main_loop-Quiet t clock (sleeping until) d q =
    if-Quiet (leb until clock) loading (sleeping until) tt tt
main_loop-Quiet t clock returned d q = tt
main_loop-Quiet t clock (exploded e) d q = absurd q

end_reset_keeps :
    (w : World) (i : ℕ)
    → ((end_reset w i).timer.defused ≡ w.timer.defused) × ((end_reset w i).loop ≡ w.loop)
unfolding end_reset
end_reset_keeps w i = ground arith

step-IsSafe : (w : World) (a : Act) → IsSafe w → IsSafe (step w a)
unfolding step
step-IsSafe w loops (d, q) = (d, main_loop-Quiet w.timer w.clock w.loop d q)
step-IsSafe w (passes n) s = s
step-IsSafe w begins_reset s = s
step-IsSafe w (ends_reset i) (d, q) =
    let (same, loop) = end_reset_keeps w i in (same ∙ d, subst Quiet (sym loop) q)
step-IsSafe w defuses (d, q) = (refl, q)
step-IsSafe w explodes s = s

run-IsSafe : (acts : List Act) (w : World) → IsSafe w → IsSafe (run w acts)
unfolding run
run-IsSafe [] w s = s
run-IsSafe (a ∷ acts) w s = run-IsSafe acts (step w a) (step-IsSafe w a s)

-- A timer that is defused while its main loop sleeps, has ended, or is about to load `defused`,
-- stays defused and never explodes in its main loop, whatever follows.
pub defused_never_explodes :
    (w : World) (acts : List Act) (e : Explosion)
    → Quiet w.loop
    → ((run (step w defuses) acts).timer.defused ≡ true)
      × ((run (step w defuses) acts).loop ≢ exploded e)
unfolding step
defused_never_explodes w acts e q =
    let s = run-IsSafe acts (record w { timer = record w.timer { defused = true } }) (refl, q) in
    (s.0, λ x. subst Quiet x s.1)

-- Defusing comes too late for a loop that has passed its load: if the time to explode is over, the
-- loop explodes with its next two actions all the same. And `explode` does not look at `defused`.
pub defused_too_late :
    (w : World)
    → w.loop ≡ taking_time
    → w.timer.time_to_explode < w.clock
    → ((run w (defuses ∷ loops ∷ loops ∷ [])).loop ≡ exploded (explode_inner w.timer))
      × ((run w (defuses ∷ explodes ∷ [])).client_explosion ≡ some (explode_inner w.timer))
unfolding run step
defused_too_late w l o = (ground arith, ground arith)
