-- ===== src/Derive/Typing.antt =====
-- The types of the code that the macros of fluvio-future-derive generate, as the compiler finds them.
use text.Mathlib.Text.{◌==◌}
use text.Mathlib.TextPositions.{eq_refl}
use future_aio.Base
use future_aio.Base.{
  arith, Target, not_wasm32, wasm32, ℕ, String, ◌≡◌, ◌↔◌, refl, sym, ap, ◌∙◌, Bool, true, false,
  ◌&&◌, if◌then◌else◌, Option, none, some, List, [], ◌∷◌, Bool-cases, inl, inr,
}
use future_aio.Derive.{
  Meta, ItemFn, Expr, ft, call, await, async_block, async_stmt, run_block_on, if_let_err, Stmt,
  init_logger, item, let_ft, expr, semi, not_wasm, Generated, Expansion, expanded, main_async,
  main_of, test_async, test,
}

-- `output` is a type that the item writes.
pub data Ty : Type 0 where
  unit : Ty
  output : ℕ → Ty
  future : Ty → Ty

abbrev pub ty_eq : Ty → Ty → Bool
ty_eq unit unit = true
ty_eq (output s) (output t) = Base.◌==◌ s t
ty_eq (future s) (future t) = ty_eq s t
ty_eq s t = false

abbrev pub ty_of : Option ℕ → Ty
ty_of none = unit
ty_of (some t) = output t

-- A call without arguments of the item, by its name.
abbrev pub call_ty : ItemFn → String → Option Ty
call_ty f name =
    if f.ident == name
    then (elim f.inputs [
      | [] ↦ some (if f.is_async then future (ty_of f.output) else ty_of f.output)
      | i ∷ is ↦ none
    ])
    else none

abbrev awaited : Bool → Option Ty → Option Ty
awaited true (some (future t)) = some t
awaited in_async t = none

-- `run_block_on` of src/task.rs gives the output of the future, but on wasm32 nothing.
abbrev blocked_on : Target → Option Ty → Option Ty
blocked_on not_wasm32 (some (future t)) = some t
blocked_on wasm32 (some (future t)) = some unit
blocked_on target t = none

abbrev in_future : Option Ty → Option Ty
in_future (some t) = some (future t)
in_future none = none

abbrev dropped : Option Ty → Option Ty
dropped (some t) = some unit
dropped none = none

-- The types of the items that are a `Result` whose error can be shown.
abbrev matched_err : (ℕ → Bool) → Option Ty → Option Ty
matched_err is_result (some (output t)) = if is_result t then some unit else none
matched_err is_result t = none

-- What is in scope: the item, and the type of `ft`.
record Scope : Type 0 where
  function : Option ItemFn
  variable : Option Ty

abbrev found : Option ItemFn → String → Option Ty
found none name = none
found (some f) name = call_ty f name

module _ (target : Target) (is_result : ℕ → Bool) where
  -- The type of an expression; the flag tells whether it stands in an `async` block.
  ty_expr : Scope → Bool → Expr → Option Ty
  ty_expr c in_async ft = c.variable
  ty_expr c in_async (call name) = found c.function name
  ty_expr c in_async (await e) = awaited in_async (ty_expr c in_async e)
  ty_expr c in_async (async_block e) = in_future (ty_expr c true e)
  ty_expr c in_async (async_stmt e) = in_future (dropped (ty_expr c true e))
  ty_expr c in_async (run_block_on e) = blocked_on target (ty_expr c in_async e)
  ty_expr c in_async (if_let_err e) = matched_err is_result (ty_expr c in_async e)

  -- The type of a body: that of its last expression, or unit.
  ty_body : Scope → List Stmt → Option Ty
  unfolding ty_expr
  ty_body c [] = some unit
  ty_body c (init_logger ∷ rest) = ty_body c rest
  ty_body c (item f ∷ rest) = ty_body (record c { function = some f }) rest
  ty_body c (let_ft e ∷ rest) = elim (ty_expr c false e) [
    | none ↦ none
    | some t ↦ ty_body (record c { variable = some t }) rest
  ]
  ty_body c (expr e ∷ []) = ty_expr c false e
  ty_body c (expr e ∷ s ∷ rest) = none
  ty_body c (semi e ∷ rest) = elim (ty_expr c false e) [ none ↦ none | some t ↦ ty_body c rest ]
  ty_body c (not_wasm e ∷ rest) = elim target [
    | not_wasm32 ↦ elim (ty_expr c false e) [ none ↦ none | some t ↦ ty_body c rest ]
    | wasm32 ↦ ty_body c rest
  ]

  -- The body has the type that the function says.
  unfoldable pub compiles : Generated → Bool
  unfolding ty_body
  compiles g = elim (ty_body (record { function = none; variable = none }) g.body) [
    | none ↦ false
    | some t ↦ ty_eq t (ty_of g.returned)
  ]

abbrev pub no_inputs : ItemFn → Bool
no_inputs f = elim f.inputs [ [] ↦ true | i ∷ is ↦ false ]

abbrev pub gives_nothing : ItemFn → Bool
gives_nothing f = elim f.output [ none ↦ true | some t ↦ false ]

abbrev pub gives_result : (ℕ → Bool) → ItemFn → Bool
gives_result is_result f = elim f.output [ none ↦ false | some t ↦ is_result t ]

main_of-compiles :
    (is_result : ℕ → Bool) (f : ItemFn)
    → (compiles not_wasm32 is_result (main_of f) ≡ no_inputs f)
      × (compiles wasm32 is_result (main_of f) ≡ (no_inputs f && gives_nothing f))
unfolding compiles
main_of-compiles is_result f = (ground arith, ground arith)

expanded-injective : {g h : Generated} → ◌≡◌ {A = Expansion} (expanded g) (expanded h) → g ≡ h
expanded-injective h = cc

-- `main_async` expands an item only if it is called main and is async. What it generates has the
-- type that it declares: on a native target exactly if the item takes no arguments, on wasm32
-- exactly if besides it gives nothing.
pub main_async-compiles :
    (is_result : ℕ → Bool) (f : ItemFn) (g : Generated)
    → main_async f ≡ expanded g
    → ((f.ident == "main") ≡ true)
      × (f.is_async ≡ true)
      × (compiles not_wasm32 is_result g ≡ no_inputs f)
      × (compiles wasm32 is_result g ≡ (no_inputs f && gives_nothing f))
unfolding main_async
main_async-compiles is_result f g h = elim (Bool-cases (f.ident == "main")) [
  | inr other ↦ let e = rw other at h in cc
  | inl named ↦ elim (Bool-cases f.is_async) [
    | inr sync ↦ let e = rw (named, sync) at h in cc
    | inl async ↦
        let e = expanded-injective (rw (named, async) at h) in
        let (on_native, on_wasm32) = main_of-compiles is_result f in
        (
          named,
          async,
          ap (compiles not_wasm32 is_result) (sym e) ∙ on_native,
          ap (compiles wasm32 is_result) (sym e) ∙ on_wasm32,
        )
  ]
]

-- What the two test macros generate has the type that it declares exactly if the item is async and
-- takes no arguments; from `test_async`, on a native target, only if besides it gives a `Result`.
pub tests_compile :
    (is_result : ℕ → Bool) (args : List Meta) (f : ItemFn)
    → (compiles not_wasm32 is_result (test_async args f)
        ≡ (no_inputs f && f.is_async && gives_result is_result f))
      × (compiles wasm32 is_result (test_async args f) ≡ (no_inputs f && f.is_async))
      × (compiles not_wasm32 is_result (test args f) ≡ (no_inputs f && f.is_async))
      × (compiles wasm32 is_result (test args f) ≡ (no_inputs f && f.is_async))
unfolding compiles test_async test
tests_compile is_result args f = (
  ground (arith, eq_refl f.ident),
  ground (arith, eq_refl f.ident),
  ground (arith, eq_refl f.ident),
  ground (arith, eq_refl f.ident),
)
