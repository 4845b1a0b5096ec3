-- ===== src/Openssl/Tests.antt =====
-- Streams and handshakes at examples.
use future_aio.Base.{
  ℕ, zero, suc, ◌≤◌, ◌≡◌, ◌≢◌, refl, List, [], ◌∷◌, length, take, drop, ok, pending, ready, some,
  Outcome, returns, panics, arith,
}
use future_aio.Openssl.Wrapper.{AsyncToSyncWrapper, PollOf, set_context, unset_context}
use future_aio.Openssl.Stream.{SslStream, poll_read, poll_write, poll_flush, poll_close}
use future_aio.Openssl.Stream.Contexts.{Polled, Closed, polls-Polled}
use future_aio.Openssl.Stream.Passthrough.{NeverWouldBlock, plain, plain-IsSslStream}
use future_aio.Openssl.Stream.Sessions.{
  to_read, to_flush, to_write, bytes_read, flushed, count_written, Lends, below_all, serve_all,
  serve_all-below_all,
}
use future_aio.Openssl.Handshake.{
  Step, stream, blocked, Ssl, HandshakeFuture, initial, done, poll, await,
}
use future_aio.Openssl.Handshake.Progress.{
  IsSsl, Gives, IsWaiting, Progressed, Ends, poll-Progressed, await-Ends,
}

-- A connection that has some bytes to read, takes what is written, and waits when it has none.
abbrev recv : ℕ → PollOf (List ℕ) (List ℕ)
recv size cx [] = (pending, [])
recv size cx (b ∷ bs) = (ready (ok (take size (b ∷ bs))), drop size (b ∷ bs))

abbrev send : List ℕ → PollOf (List ℕ) ℕ
send buf cx s = (ready (ok (length buf)), s)

abbrev push : PollOf (List ℕ) (Unit {0})
push cx s = (ready (ok tt), s)

abbrev tls : SslStream (List ℕ) (AsyncToSyncWrapper (List ℕ))
tls = plain recv send push

abbrev idle : List ℕ → AsyncToSyncWrapper (List ℕ)
idle s = record { inner = s; context = 0 }

cx_nonzero : ◌≢◌ {A = ℕ} 64 0
cx_nonzero = omega arith

polls-Polled_example :
    Polled tls 64 (tls.ssl_read 9) (idle (7 ∷ [])) (poll_read tls 64 9 (idle (7 ∷ [])))
    × Polled tls 64
        (tls.ssl_write (1 ∷ []))
        (idle (7 ∷ []))
        (poll_write tls 64 (1 ∷ []) (idle (7 ∷ [])))
    × Polled tls 64 tls.ssl_flush (idle (7 ∷ [])) (poll_flush tls 64 (idle (7 ∷ [])))
    × Closed tls 64 (idle (7 ∷ [])) (poll_close tls 64 (idle (7 ∷ [])))
polls-Polled_example =
    polls-Polled tls (plain-IsSslStream recv send push) 64 9 (1 ∷ []) (idle (7 ∷ [])) refl
      cx_nonzero

recv_never : (size : ℕ) → NeverWouldBlock (recv size)
recv_never size cx [] e = cc
recv_never size cx (b ∷ bs) e = cc

send_never : (buf : List ℕ) → NeverWouldBlock (send buf)
send_never buf cx s e = cc

push_never : NeverWouldBlock push
push_never cx s e = cc

serve_all-below_all_example :
    serve_all tls
      ((64, to_read 1) ∷ (72, to_write (1 ∷ 2 ∷ [])) ∷ (8, to_read 4) ∷ (8, to_flush) ∷ [])
      (idle (7 ∷ []))
    ≡ returns (
      bytes_read (ready (ok (7 ∷ [])))
          ∷ count_written (ready (ok 2))
          ∷ bytes_read pending
          ∷ flushed (ready (ok tt))
          ∷ [],
      idle [],
    )
unfolding Lends below_all
serve_all-below_all_example =
    serve_all-below_all recv send push recv_never send_never push_never
      ((64, to_read 1) ∷ (72, to_write (1 ∷ 2 ∷ [])) ∷ (8, to_read 4) ∷ (8, to_flush) ∷ []) (7 ∷ [])
      (cx_nonzero, (omega arith, (omega arith, (omega arith, tt))))

-- A handshake that waits for some rounds.
record Mid : Type 0 where
  left : ℕ
  wrapper : AsyncToSyncWrapper (List ℕ)

abbrev Steps : Type 0
Steps = Step (AsyncToSyncWrapper (List ℕ)) Mid ℕ

abbrev shake : ℕ → AsyncToSyncWrapper (List ℕ) → Outcome Steps
shake zero w = returns (stream w)
shake (suc n) w = returns (blocked (record { left = n; wrapper = w }))

abbrev engine : Ssl (List ℕ) (AsyncToSyncWrapper (List ℕ)) Mid ℕ
engine = record {
  stream_wrapper = λ t. t;
  put_stream = λ t w. w;
  mid_wrapper = λ m. m.wrapper;
  put_mid = λ m w. record m { wrapper = w };
  handshake = λ m. shake m.left m.wrapper;
}

abbrev rounds : Mid → ℕ
rounds m = m.left

shake-Gives :
    (n bound : ℕ) (w : AsyncToSyncWrapper (List ℕ))
    → n ≤ bound
    → w.context ≢ 0
    → Gives engine rounds bound (shake n w)
shake-Gives zero bound w h c = c
shake-Gives (suc n) bound w h c = (c, h)

engine-IsSsl : IsSsl engine rounds
engine-IsSsl = record {
  stream_put = λ t w. refl;
  mid_put = λ m w. refl;
  rounds_put = λ m w. refl;
  handshake_gives = λ m c. shake-Gives m.left m.left m.wrapper (omega arith) c;
}

abbrev connecting : HandshakeFuture (List ℕ) (AsyncToSyncWrapper (List ℕ)) Mid ℕ
connecting = initial (shake 2) (idle [])

connecting-IsWaiting : IsWaiting engine rounds 2 connecting
connecting-IsWaiting = (refl, λ v c. shake-Gives 2 2 v (omega arith) c)

poll-Progressed_example :
    Progressed engine rounds 2 (poll engine 64 connecting) × (poll engine 64 done ≡ panics)
poll-Progressed_example =
    poll-Progressed engine rounds engine-IsSsl 64 2 connecting cx_nonzero connecting-IsWaiting

connects : await engine 3 64 connecting ≡ some (returns (ok (idle [])))
unfolding await poll set_context unset_context
connects = refl

handshake_awaited : Ends engine rounds (await engine 3 64 connecting)
handshake_awaited =
    await-Ends engine rounds engine-IsSsl 3 64 2 connecting cx_nonzero (omega arith)
      connecting-IsWaiting
