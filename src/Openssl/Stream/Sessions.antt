-- ===== src/Openssl/Stream/Sessions.antt =====
-- The polls to read, write and flush that a task makes of a `TlsStream` one after another, each with
-- a context of its own, over a `SslStream` that passes these calls on as they are.
use future_aio.Base.{
  ℕ, ◌≡◌, ◌≢◌, refl, ap, ◌∙◌, List, [], ◌∷◌, Result, Poll, IoError, Outcome, returns, ◌>>=◌,
}
use future_aio.Openssl.Wrapper.{AsyncToSyncWrapper, PollOf}
use future_aio.Openssl.Stream.{SslStream, poll_read, poll_write, poll_flush}
use future_aio.Openssl.Stream.Passthrough.{plain, NeverWouldBlock, plain_polls}

pub data Request : Type 0 where
  to_flush : Request
  to_read : ℕ → Request
  to_write : List ℕ → Request

pub data Reply : Type 0 where
  bytes_read : Poll (Result (List ℕ) IoError) → Reply
  count_written : Poll (Result ℕ IoError) → Reply
  flushed : Poll (Result (Unit {0}) IoError) → Reply

-- Every request lends a context, the address of which is not 0.
unfoldable pub Lends : List (ℕ × Request) → Type 0
Lends [] = Unit
Lends ((cx, q) ∷ qs) = (cx ≢ 0) × Lends qs

module _ {S T : Type 0} (ssl : SslStream S T) where
  serve : ℕ × Request → T → Outcome (Reply × T)
  serve (cx, to_read size) t = poll_read ssl cx size t >>= λ r. returns (bytes_read r.0, r.1)
  serve (cx, to_flush) t = poll_flush ssl cx t >>= λ r. returns (flushed r.0, r.1)
  serve (cx, to_write buf) t = poll_write ssl cx buf t >>= λ r. returns (count_written r.0, r.1)

  pub serve_all : List (ℕ × Request) → T → Outcome (List Reply × T)
  unfolding serve
  serve_all [] t = returns ([], t)
  serve_all (q ∷ qs) t = do r ← serve q t; rs ← serve_all qs r.1; returns (r.0 ∷ rs.0, rs.1)

module _ {S : Type 0} (read_inner : ℕ → PollOf S (List ℕ)) (write_inner : List ℕ → PollOf S ℕ)
    (flush_inner : PollOf S (Unit {0})) where
  -- The same requests made of the stream below.
  unfoldable below : ℕ × Request → S → Reply × S
  below (cx, to_read size) s = let (p, s') = read_inner size cx s in (bytes_read p, s')
  below (cx, to_flush) s = let (p, s') = flush_inner cx s in (flushed p, s')
  below (cx, to_write buf) s = let (p, s') = write_inner buf cx s in (count_written p, s')

  unfoldable pub below_all : List (ℕ × Request) → S → List Reply × S
  unfolding below
  below_all [] s = ([], s)
  below_all (q ∷ qs) s =
      let (reply, s') = below q s in let (replies, end) = below_all qs s' in (reply ∷ replies, end)

  abbrev idle : S → AsyncToSyncWrapper S
  idle s = record { inner = s; context = 0 }

  module _ (never_read : (size : ℕ) → NeverWouldBlock (read_inner size))
      (never_write : (buf : List ℕ) → NeverWouldBlock (write_inner buf))
      (never_flush : NeverWouldBlock flush_inner) where
    serve-below :
        (cx : ℕ) (q : Request) (s : S)
        → cx ≢ 0
        → serve (plain read_inner write_inner flush_inner) (cx, q) (idle s)
          ≡ returns ((below (cx, q) s).0, idle (below (cx, q) s).1)
    unfolding serve below
    serve-below cx (to_read size) s nonzero =
        ap (λ m. m >>= λ r. returns (bytes_read r.0, r.1))
          (plain_polls read_inner write_inner flush_inner cx size [] s (never_read size)
            (never_write []) never_flush nonzero).0
    serve-below cx to_flush s nonzero =
        ap (λ m. m >>= λ r. returns (flushed r.0, r.1))
          (plain_polls read_inner write_inner flush_inner cx 0 [] s (never_read 0) (never_write [])
            never_flush nonzero).2
    serve-below cx (to_write buf) s nonzero =
        ap (λ m. m >>= λ r. returns (count_written r.0, r.1))
          (plain_polls read_inner write_inner flush_inner cx 0 buf s (never_read 0)
            (never_write buf) never_flush nonzero).1

    -- Over a `SslStream` that passes reads, writes and flushes on as they are, whatever polls to read,
    -- write and flush are made of an idle `TlsStream`, one after another, each with a context that is
    -- not 0: none panics, their answers
    -- are those that the same polls of the stream below give, and the stream below ends in the same
    -- state, without a context. `Pending` survives the way through the synchronous interface and
    -- back, and so do results and errors, if the stream below never answers `WouldBlock` itself.
    pub serve_all-below_all :
        (qs : List (ℕ × Request)) (s : S)
        → Lends qs
        → serve_all (plain read_inner write_inner flush_inner) qs (idle s)
          ≡ returns ((below_all qs s).0, idle (below_all qs s).1)
    unfolding serve_all below_all Lends
    serve_all-below_all [] s lends = refl
    serve_all-below_all ((cx, q) ∷ qs) s (nonzero, lends) =
        let tls = plain read_inner write_inner flush_inner in
        ap (λ m. m >>= λ r. serve_all tls qs r.1 >>= λ rs. returns (r.0 ∷ rs.0, rs.1))
          (serve-below cx q s nonzero)
        ∙ ap (λ m. m >>= λ rs. returns ((below (cx, q) s).0 ∷ rs.0, rs.1))
            (serve_all-below_all qs (below (cx, q) s).1 lends)
