-- ===== src/Derive/Tests.antt =====
-- The macros on examples of src/test_util.rs and of a main function.
use text.Mathlib.Text.{◌==◌}
use future_aio.Base.{
  ℕ, ◌≡◌, refl, Bool, true, false, ◌&&◌, if◌then◌else◌, Option, none, some, List, [], ◌∷◌, ok,
  panics, not_wasm32, wasm32,
}
use future_aio.Base
use future_aio.Derive.{
  ignore, ItemFn, main_async, main_of, test_async, test, compile_error, only_main, async_missing,
  test_attribute, passed,
}
use future_aio.Derive.Typing.{compiles, main_async-compiles, tests_compile}
use future_aio.Derive.Verdicts.{Run, Value, block_of, run_test, tests-verdict}
use future_aio.Derive.Verdicts

-- The type number 7 is a `Result`.
abbrev is_result : ℕ → Bool
is_result t = Base.◌==◌ t 7

abbrev main_fn : ItemFn
main_fn = record {
  attrs = [];
  vis = none;
  is_async = true;
  ident = "main";
  inputs = [];
  output = some 7;
  block = 1;
}

main_async-compiles_example :
    ((main_fn.ident == "main") ≡ true)
    × (main_fn.is_async ≡ true)
    × (compiles not_wasm32 is_result (main_of main_fn) ≡ true)
    × (compiles wasm32 is_result (main_of main_fn) ≡ false)
unfolding main_async
main_async-compiles_example = main_async-compiles is_result main_fn (main_of main_fn) refl

-- The name is tested before the keyword.
refused :
    (main_async (record main_fn { ident = "serve"; is_async = false }) ≡ compile_error only_main)
    × (main_async (record main_fn { is_async = false }) ≡ compile_error async_missing)
unfolding main_async
refused = (refl, refl)

-- async_derive_test_ignore
abbrev ignored_test : ItemFn
ignored_test = record main_fn { ident = "async_derive_test_ignore" }

sync_name :
    ((test_async (ignore ∷ []) ignored_test).name ≡ "async_derive_test_ignore_sync")
    × ((test_async (ignore ∷ []) ignored_test).attributes ≡ test_attribute ∷ passed ignore ∷ [])
unfolding test_async
sync_name = (refl, refl)

compiled_tests :
    (compiles not_wasm32 is_result (test_async [] ignored_test) ≡ true)
    × (compiles wasm32 is_result (test_async [] ignored_test) ≡ true)
    × (compiles not_wasm32 is_result (test [] ignored_test) ≡ true)
    × (compiles wasm32 is_result (test [] ignored_test) ≡ true)
compiled_tests = tests_compile is_result [] ignored_test

-- async_derive_test_ignore is not run, whatever its block does.
left_out :
    run_test not_wasm32 (block_of panics) ignored_test (test_async (ignore ∷ []) ignored_test)
    ≡ Verdicts.passed 0 0
left_out = (tests-verdict (ignore ∷ []) ignored_test panics refl refl).0
