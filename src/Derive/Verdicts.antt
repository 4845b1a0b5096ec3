-- ===== src/Derive/Verdicts.antt =====
-- What the tests that fluvio-future-derive generates do when they are run.
use text.Mathlib.Text.{◌==◌}
use text.Mathlib.TextPositions.{eq_refl}
use future_aio.Base.{
  ℕ, ◌+◌, ◌≡◌, refl, ap, ◌∙◌, Bool, true, false, if◌then◌else◌, Option, none, some, List, [], ◌∷◌,
  Result, ok, err, Outcome, returns, panics, arith, Target, not_wasm32, wasm32,
}
use future_aio.Derive.{
  Meta, ignore, should_panic, unread, Attribute, test_attribute, generate_test_attributes, ItemFn,
  Expr, ft, call, await, async_block, async_stmt, run_block_on, if_let_err, Stmt, init_logger, item,
  let_ft, expr, semi, not_wasm, Generated, test_async, test,
}

-- A value; a future tells how often it will run the item's block, and with which end.
pub data Value : Type 0 where
  unit_value ok_value err_value : Value
  future_returns : ℕ → Value → Value
  future_panics : ℕ → Value

-- How often the block has run, how often it is left to run to detached tasks, and how it ended.
pub record Run : Type 0 where
  pub ran : ℕ
  pub detached : ℕ
  pub outcome : Outcome Value

abbrev pub done : Value → Option Run
done v = some (record { ran = 0; detached = 0; outcome = returns v })

-- The run and, if it returns, what follows; no run stands for code that has no type.
abbrev add : Run → Option Run → Option Run
add r none = none
add r (some s) = some (record s { ran = r.ran + s.ran; detached = r.detached + s.detached })

abbrev after : Option Run → (Value → Option Run) → Option Run
after none k = none
after (some r) k = elim r.outcome [ panics ↦ some r | returns v ↦ add r (k v) ]

abbrev run_future : Value → Option Run
run_future (future_returns n v) = some (record { ran = n; detached = 0; outcome = returns v })
run_future (future_panics n) = some (record { ran = n; detached = 0; outcome = panics })
run_future v = none

-- `wasm_bindgen_futures::spawn_local` returns at once.
abbrev spawn_local : Value → Option Run
spawn_local (future_returns n v) =
    some (record { ran = 0; detached = n; outcome = returns unit_value })
spawn_local (future_panics n) =
    some (record { ran = 0; detached = n; outcome = returns unit_value })
spawn_local v = none

abbrev block_on : Target → Value → Option Run
block_on not_wasm32 v = run_future v
block_on wasm32 v = spawn_local v

-- `if let Err(err) = v { assert!(false) }`.
abbrev assert_ok : Value → Option Run
assert_ok ok_value = done unit_value
assert_ok err_value = some (record { ran = 0; detached = 0; outcome = panics })
assert_ok v = none

abbrev future_of : ℕ → Outcome Value → Value
future_of n (returns v) = future_returns n v
future_of n panics = future_panics n

abbrev deferred : Option Run → Option Run
deferred none = none
deferred (some r) = done (future_of r.ran r.outcome)

abbrev called : List ℕ → Option Run → Option Run
called [] r = r
called (input ∷ inputs) r = none

module _ (target : Target) (block : Outcome Value) where
  -- `f` is the item in scope, `var` the value of `ft`.
  eval : ItemFn → Option Value → Expr → Option Run
  eval f none ft = none
  eval f (some v) ft = done v
  -- A call without arguments of an item that takes some has no type.
  eval f var (call name) =
      if f.ident == name
      then called f.inputs (
          if f.is_async
          then done (future_of 1 block)
          else some (record { ran = 1; detached = 0; outcome = block }))
      else none
  eval f var (await e) = after (eval f var e) run_future
  eval f var (async_block e) = deferred (eval f var e)
  eval f var (async_stmt e) = deferred (after (eval f var e) (λ v. done unit_value))
  eval f var (run_block_on e) = after (eval f var e) (block_on target)
  eval f var (if_let_err e) = after (eval f var e) assert_ok

  -- The statements behind the item.
  exec : ItemFn → Option Value → List Stmt → Option Run
  unfolding eval
  exec f var [] = done unit_value
  exec f var (init_logger ∷ rest) = exec f var rest
  exec f var (item g ∷ rest) = exec g var rest
  exec f var (let_ft e ∷ rest) = after (eval f var e) (λ v. exec f (some v) rest)
  exec f var (expr e ∷ rest) = eval f var e
  exec f var (semi e ∷ rest) = after (eval f var e) (λ v. exec f var rest)
  exec f var (not_wasm e ∷ rest) = elim target [
    | not_wasm32 ↦ after (eval f var e) (λ v. exec f var rest)
    | wasm32 ↦ exec f var rest
  ]

-- What the harness does with a test: it runs it, runs it and expects a panic, or leaves it out.
pub data Plan : Type 0 where
  plain inverted skipped : Plan

abbrev expect_panic : Plan → Plan
expect_panic plain = inverted
expect_panic p = p

abbrev map_plan : (Plan → Plan) → Option Plan → Option Plan
map_plan f none = none
map_plan f (some p) = some (f p)

-- The plan for the arguments `ignore` and `should_panic`, of which the first counts more; there is
-- none where another attribute stands, which may do anything.
abbrev pub plan_of : List Meta → Option Plan
plan_of [] = some plain
plan_of (ignore ∷ metas) = map_plan (λ p. skipped) (plan_of metas)
plan_of (should_panic ∷ metas) = map_plan expect_panic (plan_of metas)
plan_of (unread n ∷ metas) = none

abbrev turned : Run → Run
turned r = elim r.outcome [
  | panics ↦ record r { outcome = returns unit_value }
  | returns v ↦ record r { outcome = panics }
]

-- What is reported of a test whose code runs as `r` says; a test that is left out does not fail.
abbrev pub reported : Option Plan → Option Run → Option Run
reported none r = none
reported (some skipped) r = done unit_value
reported (some plain) r = r
reported (some inverted) none = none
reported (some inverted) (some r) = some (turned r)

-- The harness runs only what carries `#[test]`.
abbrev is_test : List Attribute → Bool
is_test [] = false
is_test (test_attribute ∷ attrs) = true
is_test (Attribute.passed m ∷ attrs) = is_test attrs

abbrev metas_of : List Attribute → List Meta
metas_of [] = []
metas_of (test_attribute ∷ attrs) = metas_of attrs
metas_of (Attribute.passed m ∷ attrs) = m ∷ metas_of attrs

abbrev harness : List Attribute → Option Run → Option Run
harness attrs r = if is_test attrs then reported (plan_of (metas_of attrs)) r else none

metas_of-generate : (args : List Meta) → metas_of (generate_test_attributes args) ≡ args
unfolding generate_test_attributes
metas_of-generate [] = refl
metas_of-generate (m ∷ ms) = ap (◌∷◌ m) (metas_of-generate ms)

-- A run of a test on the item by the harness: its block ends as `block` says.
pub run_test : Target → Outcome Value → ItemFn → Generated → Option Run
unfolding exec
run_test target block f g = harness g.attributes (exec target block f none g.body)

-- The block of an item that gives a `Result`.
abbrev pub block_of : Outcome (Result (Unit {0}) (Unit {0})) → Outcome Value
block_of (returns (ok u)) = returns ok_value
block_of (returns (err u)) = returns err_value
block_of panics = panics

abbrev pub passed : ℕ → ℕ → Option Run
passed ran detached = some (record { ran = ran; detached = detached; outcome = returns unit_value })

abbrev pub failed : Option Run
failed = some (record { ran = 1; detached = 0; outcome = panics })

-- A test fails if its block unwinds, and one that looks at the result also if that is an error.
abbrev pub asserted : Outcome (Result (Unit {0}) (Unit {0})) → Option Run
asserted (returns (ok u)) = passed 1 0
asserted (returns (err u)) = failed
asserted panics = failed

abbrev pub ignored : Outcome (Result (Unit {0}) (Unit {0})) → Option Run
ignored (returns r) = passed 1 0
ignored panics = failed

module _ (f : ItemFn) (b : Outcome (Result (Unit {0}) (Unit {0}))) (is_async : f.is_async ≡ true)
    (no_inputs : f.inputs ≡ []) where
  native_test_async :
      (args : List Meta) → exec not_wasm32 (block_of b) f none (test_async args f).body ≡ asserted b
  unfolding exec test_async
  native_test_async args = ground (arith, eq_refl f.ident)

  native_test :
      (args : List Meta) → exec not_wasm32 (block_of b) f none (test args f).body ≡ ignored b
  unfolding exec test
  native_test args = ground (arith, eq_refl f.ident)

  wasm32_test_async :
      (args : List Meta) → exec wasm32 (block_of b) f none (test_async args f).body ≡ passed 0 0
  unfolding exec test_async
  wasm32_test_async args = ground (arith, eq_refl f.ident)

  wasm32_test : (args : List Meta) → exec wasm32 (block_of b) f none (test args f).body ≡ passed 0 1
  unfolding exec test
  wasm32_test args = ground (arith, eq_refl f.ident)

pub tests-verdict :
    (args : List Meta) (f : ItemFn) (b : Outcome (Result (Unit {0}) (Unit {0})))
    → f.is_async ≡ true
    → f.inputs ≡ []
    → (run_test not_wasm32 (block_of b) f (test_async args f)
        ≡ reported (plan_of args) (asserted b))
      × (run_test not_wasm32 (block_of b) f (test args f) ≡ reported (plan_of args) (ignored b))
      × (run_test wasm32 (block_of b) f (test_async args f) ≡ reported (plan_of args) (passed 0 0))
      × (run_test wasm32 (block_of b) f (test args f) ≡ reported (plan_of args) (passed 0 1))
unfolding run_test test_async test
tests-verdict args f b a i =
    let metas = metas_of-generate args in
    (
      ap (λ ms. reported (plan_of ms) _) metas
          ∙ ap (reported (plan_of args)) (native_test_async f b a i args),
      ap (λ ms. reported (plan_of ms) _) metas
          ∙ ap (reported (plan_of args)) (native_test f b a i args),
      ap (λ ms. reported (plan_of ms) _) metas
          ∙ ap (reported (plan_of args)) (wasm32_test_async f b a i args),
      ap (λ ms. reported (plan_of ms) _) metas
          ∙ ap (reported (plan_of args)) (wasm32_test f b a i args),
    )
