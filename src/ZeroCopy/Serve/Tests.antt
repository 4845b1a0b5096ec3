-- ===== src/ZeroCopy/Serve/Tests.antt =====
-- A log that is written, flushed and sent, over files with a buffer and a wire.
use future_aio.Base.{
  ℕ, ◌≡◌, refl, sym, ap, ◌∙◌, ok-injective, some, List, [], ◌∷◌, ◌++◌, append-nil, append_assoc,
  length, take, take_beyond, Result, ok, Poll, ready, IoError, Outcome, release, arith,
}
use future_aio.FileSlice.{AsyncFileSlice}
use future_aio.Fs.Util.{FileSystem, open_read_append}
use future_aio.Fs.Bounded.{BoundedFileSink, poll_write, poll_flush, get_current_len, slice_from}
use future_aio.Fs.Bounded.Logged.{
  Appends, Log, Request, Reply, wrote, write, tell, length_is, serve, serve_all,
}
use future_aio.ZeroCopy.{SendFileError, copy_slice}
use future_aio.ZeroCopy.Tests.{Wire, wires, wire_laws, socket}
use future_aio.ZeroCopy.Serve.Logged.{offered, acked_all, Delivered, acked-Delivered}

-- What is on the disk, and what was written but not flushed.
abbrev Buffered : Type 0
Buffered = List ℕ × List ℕ

abbrev buffered : FileSystem
buffered = record {
  File = Buffered;
  create_file = λ path. ok ([], []);
  open_file = λ path. ok ([], []);
  open_with = λ options path. ok (9 ∷ [], []);
  raw_fd = λ f. 3;
  metadata_len = λ f. ok (length f.0);
  poll_write = λ f buf. (ready (ok (length buf)), (f.0, f.1 ++ buf));
  poll_flush = λ f. (ready (ok tt), (f.0 ++ f.1, []));
  poll_close = λ f. (ready (ok tt), f);
}

told :
    (path : ℕ) (f : Buffered) (n : ℕ)
    → open_read_append buffered path ≡ ok f
    → ◌≡◌ {A = Result ℕ IoError} (ok (length f.0)) (ok n)
    → length (f.0 ++ f.1) ≡ n
unfolding open_read_append
told path f n o h =
    let e = ok-injective o in
    ap (λ (g : Buffered). length (g.0 ++ g.1)) (sym e)
    ∙ ap (λ (g : Buffered). length g.0) e
    ∙ ok-injective h

created :
    (path : ℕ) (f : Buffered)
    → ◌≡◌ {A = Result Buffered IoError} (ok ([], [])) (ok f)
    → Unit {0} × (f.0 ++ f.1 ≡ [])
created path f h = (tt, ap (λ (g : Buffered). g.0 ++ g.1) (sym (ok-injective h)))

whole : (f : Buffered) (buf : List ℕ) → f.0 ++ (f.1 ++ buf) ≡ (f.0 ++ f.1) ++ take (length buf) buf
whole f buf =
    sym (append_assoc f.0 f.1 buf)
    ∙ ap (λ bs. (f.0 ++ f.1) ++ bs) (sym (take_beyond (length buf) buf (omega arith)))

abbrev buffered_appends : Appends buffered
buffered_appends = record {
  AtEnd = λ f. Unit {0};
  content = λ f. f.0 ++ f.1;
  created = λ path f h. created path f h;
  appended = λ path f h. tt;
  told = told;
  at_end = λ f buf a. tt;
  wrote = λ f buf a. (omega arith, whole f buf);
  flushed = λ f a. (tt, append-nil (f.0 ++ f.1));
  closed = λ f a. (tt, refl);
}

-- The system sees what is on the disk, and the wire answers EAGAIN once.
abbrev plugged : Buffered → Wire
plugged f = record { file = f.0; got = []; busy = 1 }

synced :
    (f f' : Buffered)
    → ◌≡◌ {A = Poll (Result (Unit {0}) IoError) × Buffered}
        (ready (ok tt), (f.0 ++ f.1, []))
        (ready (ok tt), f')
    → f'.0 ≡ f'.0 ++ f'.1
synced f f' h =
    let e : (f.0 ++ f.1, []) ≡ f' =
      ap (λ (p : Poll (Result (Unit {0}) IoError) × Buffered). p.1) h in
    sym (append-nil f'.0) ∙ ap (λ bs. f'.0 ++ bs) (ap (λ (g : Buffered). g.1) e)

abbrev sink : Buffered → ℕ → BoundedFileSink buffered
sink f len = record {
  option = record { max_len = some 10 };
  current_len = len;
  writer = f;
  path = 1;
}

abbrev nine : Log
nine = record { content = 9 ∷ []; capacity = some 10 }

abbrev requests : List Request
requests = write (1 ∷ 2 ∷ []) ∷ tell ∷ write (3 ∷ []) ∷ []

abbrev replies : List Reply
replies = wrote (ready (ok 2)) ∷ length_is 3 ∷ wrote (ready (ok 1)) ∷ []

acked-Delivered_example :
    (slice : AsyncFileSlice) × (slice_from buffered
        (sink (9 ∷ 1 ∷ 2 ∷ 3 ∷ [], []) 4)
        0
        (get_current_len buffered (sink (9 ∷ 1 ∷ 2 ∷ 3 ∷ [], []) 4))
      ≡ ok slice)
    × ((r : Outcome (Result ℕ SendFileError)) × (w : Wire) × (copy_slice wires release 9 socket
            slice
            (plugged (9 ∷ 1 ∷ 2 ∷ 3 ∷ [], []))
          ≡ some (r, w))
        × Delivered ((9 ∷ []) ++ acked_all requests replies) [] w.got r)
unfolding offered serve serve_all poll_write poll_flush get_current_len
acked-Delivered_example =
    acked-Delivered buffered buffered_appends wires socket wire_laws plugged release 9 requests
      replies (sink (9 ∷ [], []) 1) (sink (9 ∷ [], 1 ∷ 2 ∷ 3 ∷ []) 4)
      (sink (9 ∷ 1 ∷ 2 ∷ 3 ∷ [], []) 4) nine
      (record { writes_at_end = tt; holds = refl; counts = refl; limited = refl }) (omega arith)
      refl refl (λ f f' a h. synced f f' h) (omega arith) (omega arith)
