-- ===== src/Fs/Bounded/Memory.antt =====
-- A file system that holds files in memory, for runs on concrete inputs.
use future_aio.Base.{
  ℕ, ◌≡◌, refl, sym, ap, ok-injective, List, [], ◌∷◌, ◌++◌, length, take, length-take, Result, ok,
  ready, IoError, arith,
}
use future_aio.Fs.Util.{FileSystem}
use future_aio.Fs.Bounded.Logged.{Appends}

-- A write takes two bytes at most.
abbrev pub memory : FileSystem
memory = record {
  File = List ℕ;
  create_file = λ path. ok [];
  open_file = λ path. ok (9 ∷ []);
  open_with = λ options path. ok (9 ∷ []);
  raw_fd = λ f. 3;
  metadata_len = λ f. ok (length f);
  poll_write = λ f buf. (ready (ok (length (take 2 buf))), f ++ take 2 buf);
  poll_flush = λ f. (ready (ok tt), f);
  poll_close = λ f. (ready (ok tt), f);
}

pub told_length :
    (f : List ℕ) (n : ℕ) → ◌≡◌ {A = Result ℕ IoError} (ok (length f)) (ok n) → length f ≡ n
told_length f n h = cc

pub take-written : (buf : List ℕ) → take (length (take 2 buf)) buf ≡ take 2 buf
take-written [] = refl
take-written (x ∷ []) = refl
take-written (x ∷ y ∷ xs) = refl

abbrev pub created_file :
    (path : ℕ) (f : List ℕ) → ◌≡◌ {A = Result (List ℕ) IoError} (ok []) (ok f) → Unit {0} × (f ≡ [])
created_file path f h = (tt, sym (ok-injective h))

abbrev pub memory_appends : Appends memory
memory_appends = record {
  AtEnd = λ f. Unit {0};
  content = λ f. f;
  created = λ path f h. created_file path f h;
  appended = λ path f h. tt;
  told = λ path f n o h. told_length f n h;
  at_end = λ f buf a. tt;
  wrote = λ f buf a. (omega (arith, length-take 2 buf), ap (λ b. f ++ b) (sym (take-written buf)));
  flushed = λ f a. (tt, refl);
  closed = λ f a. (tt, refl);
}
