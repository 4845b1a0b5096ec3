-- ===== src/Lib.antt =====
-- future-aio, the crate fluvio-future: utilities for asynchronous programs. Each part of the crate
-- that carries logic of its own is modelled here, apart from the executors, the operating system and
-- the third-party crates, which are parameters.
--
-- The parts, and the files that model them:
--   src/retry.rs           Retry: the backoff iterators `FixedDelay` (Retry.Fixed), `FibonacciBackoff`
--                          (Retry.Fibonacci) and `ExponentialBackoff` (Retry.Exponential), each a
--                          record and its `next`; `retry_if` and `retry` (Retry.Attempts), which draw
--                          the delays from any iterator, and Retry.Attempts.Wasm32, where the
--                          timer may fail. Retry.Timeout: `RetryExt::timeout`, with
--                          `timeout` of src/future.rs and `sleep` of src/timer.rs on a native
--                          target and on wasm32, and the time that a retried call may take.
--   src/file_slice.rs      FileSlice: a descriptor with a range of a file.
--   src/fs/mod.rs          Fs.Util: the openers, over the record `FileSystem` for `async_fs`.
--   src/fs/extension.rs    Fs.Extension: `raw_slice`, `as_slice` and `reset_to_beginning`.
--   src/fs/bounded.rs      Fs.Bounded: `BoundedFileSink`, a file with a counter and a maximum;
--                          Fs.Bounded.Logged is its specification, a log of bytes, and
--                          Fs.Bounded.Memory a file system for the tests.
--   src/fs/mmap.rs         Fs.Mmap: writes to a memory map behind its lock; Fs.Mmap.Opening: how
--                          a file is mapped.
--   src/fs/shared_file.rs  Fs.Shared: clones of a handle and futures on one file behind a lock.
--   src/zero_copy.rs       ZeroCopy: the Linux block of `copy_slice`, which sends a file slice;
--                          ZeroCopy.Macos: the block for macOS; ZeroCopy.Serve: slices of
--                          Fs.Extension, sent; ZeroCopy.Serve.Logged: what a sink of Fs.Bounded
--                          has acknowledged, sent.
--   src/write.rs           Write: the future `WriteBufAll`.
--   src/doomsday.rs        Doomsday: `DoomsdayTimer`, as a step function on a world with a clock.
--   src/openssl            Openssl.Wrapper (`AsyncToSyncWrapper`), Openssl.Stream (`TlsStream`) and
--                          Openssl.Handshake (`HandshakeFuture`); the handshake and the stream own a
--                          wrapper each and lend it the context of the task.
--   src/net                Net.TcpStream: streams with socket options; Net.Connector: the interface
--                          `TcpDomainConnector` and the connector without TLS, and Net.Connector.WebSocket
--                          that of wasm32. Net.Calls is the shape of a fallible asynchronous call,
--                          and Net.Loopback a network for the tests.
--   src/rust_tls.rs        RustTls.Cert (loading of certificates and keys), RustTls.Builder (the staged
--                          builders), RustTls.Verifier (the verifier that refuses no server) and
--                          RustTls.Connector.
--   src/native_tls.rs      NativeTls.Connector and NativeTls.Builder.
--   src/openssl/connector.rs and src/openssl/acceptor.rs
--                          Openssl.Certs (identities), Openssl.Context (what the builders share),
--                          Openssl.Acceptor, Openssl.Connector and Openssl.Connector.Domain, whose
--                          connections dial a stream of Net and await a handshake of Openssl.Handshake.
--   src/task.rs            Task: `run`, `main` and `run_block_on`, over the record `Executor`, and the
--                          spawning of tasks.
--   fluvio-future-derive/src/lib.rs
--                          Derive: the code that the macros generate; Derive.Typing gives its types,
--                          and Derive.Verdicts runs the tests.
--
-- Base holds what they share: results, polls, calls that return or panic, and the arithmetic on u64,
-- which wraps in a release build and panics in a debug build. Duration holds `std::time::Duration`.
-- An asynchronous function is a function of the state it works on; a future that is polled is a
-- function that returns a poll. A module named Tests holds runs on concrete inputs.
--
-- Numbers are natural numbers; u64 and usize of a 64-bit target have their overflow written out where
-- the source adds, subtracts or multiplies, but for the sum of an instant and a duration in Doomsday.
-- A path of src/fs, a byte, a descriptor and a context's address are numbers; an address of the network,
-- a domain and the text of a certificate are strings.
--
-- Loops that the source does not bound run on fuel: `retry_if` takes one unit for each draw from the
-- strategy and one more, so a strategy bounded by `take(n)` needs n + 1; `copy_slice` takes one for each
-- answer of sendfile, so it needs one more than the length of the slice and the EAGAIN answers to come
-- together; `WriteBufAll::poll` takes the length of the buffer and one more; a poll of `main` takes two
-- rounds; the await of a handshake takes one for each poll.
--
-- Not modelled: the executors that src/task.rs calls, logging with its subscriber in src/lib.rs, and
-- src/fs/stream.rs, whose method is empty.
pub mod Base
pub mod Duration
pub mod Retry
pub mod FileSlice
pub mod Fs
pub mod ZeroCopy
pub mod Write
pub mod Doomsday
pub mod Net
pub mod Openssl
pub mod RustTls
pub mod NativeTls
pub mod Derive
pub mod Task
