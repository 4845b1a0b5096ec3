-- ===== src/Derive.antt =====
-- The attribute macros of fluvio-future-derive/src/lib.rs: which code they generate from the item
-- that they stand on. Tokens that a macro passes on unread are numbers.
pub mod Typing
pub mod Verdicts
mod Tests
use Prim.Native.String.{◌++◌}
use text.Mathlib.Text.{◌==◌}
use future_aio.Base.{ℕ, String, Bool, true, false, if◌then◌else◌, Option, none, some, List, [], ◌∷◌}

-- `syn::ItemFn`; no output stands for the unit type, and no `vis` for a private item.
pub record ItemFn : Type 0 where
  pub attrs : List ℕ
  pub vis : Option ℕ
  pub is_async : Bool
  pub ident : String
  pub inputs : List ℕ
  pub output : Option ℕ
  pub block : ℕ

-- An argument of a test macro: one of the two that the test harness reads, or any other.
pub data Meta : Type 0 where
  ignore should_panic : Meta
  unread : ℕ → Meta

-- An attribute of a generated function: `#[test]`, and one for each argument of the macro.
pub data Attribute : Type 0 where
  test_attribute : Attribute
  passed : Meta → Attribute

-- The expressions that are generated: the variable `ft`, a call without arguments, `e.await`,
-- `async { e }`, `async { e; }`, `run_block_on(e)`, and the `if let Err(err) = e` that asserts false.
pub data Expr : Type 0 where
  ft : Expr
  call : String → Expr
  await async_block async_stmt run_block_on if_let_err : Expr → Expr

-- The statements, of which `not_wasm` carries `#[cfg(not(target_arch = "wasm32"))]`.
pub data Stmt : Type 0 where
  init_logger : Stmt
  item : ItemFn → Stmt
  let_ft expr semi not_wasm : Expr → Stmt

-- A generated function; it is not async and takes no arguments.
pub record Generated : Type 0 where
  pub attributes : List Attribute
  pub visibility : Option ℕ
  pub name : String
  pub returned : Option ℕ
  pub body : List Stmt

pub data CompileError : Type 0 where
  only_main async_missing : CompileError

pub data Expansion : Type 0 where
  compile_error : CompileError → Expansion
  expanded : Generated → Expansion

-- The code of `main_async` for an item that passes its two tests.
abbrev pub main_of : ItemFn → Generated
main_of input = record {
  attributes = [];
  visibility = input.vis;
  name = "main";
  returned = input.output;
  body =
      init_logger
      ∷ item (record input { vis = none; is_async = true; ident = "main" })
      ∷ expr (run_block_on (async_block (await (call "main"))))
      ∷ [];
}

pub main_async : ItemFn → Expansion
main_async input =
    if input.ident == "main"
    then (if input.is_async then expanded (main_of input) else compile_error async_missing)
    else compile_error only_main

generate_test_attributes : List Meta → List Attribute
generate_test_attributes [] = []
generate_test_attributes (meta ∷ attributes) = passed meta ∷ generate_test_attributes attributes

-- What the two test macros generate around the statements that run `ft`.
abbrev test_fn : List Meta → ItemFn → List Stmt → Generated
test_fn args input rest = record {
  attributes = test_attribute ∷ generate_test_attributes args;
  visibility = none;
  name = input.ident ++ "_sync";
  returned = none;
  body = init_logger ∷ item input ∷ rest;
}

unfoldable pub test_async : List Meta → ItemFn → Generated
unfolding generate_test_attributes
test_async args input =
    test_fn args input (
      let_ft (async_block (await (call input.ident)))
      ∷ not_wasm (if_let_err (run_block_on ft))
      ∷ [])

unfoldable pub test : List Meta → ItemFn → Generated
unfolding generate_test_attributes
test args input =
    test_fn args input
      (let_ft (async_stmt (await (call input.ident))) ∷ semi (run_block_on ft) ∷ [])
