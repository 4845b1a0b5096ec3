-- ===== src/Write/Tests.antt =====
-- Polls of a buffer at examples.
use future_aio.Base.{
  ℕ, zero, suc, ◌≡◌, ◌≢◌, refl, sym, ap, List, [], ◌∷◌, ◌++◌, length, take, length-take, Option,
  none, some, Result, ok, Poll, pending, ready, IoError, Outcome, returns, arith,
}
use future_aio.Write.{PollWrite, WriteBufAll, poll}
use future_aio.Write.Polls.{Takes, Writer, WroteAll, poll-WroteAll, poll_again_repeats}

-- What a socket has sent, and what it will answer: how much it takes, or that it is not ready. At the
-- end it takes all.
record Socket : Type 0 where
  sent : List ℕ
  plan : List (Option ℕ)

abbrev accept : List (Option ℕ) → Socket → List ℕ → Poll (Result ℕ IoError) × Socket
accept [] s buf = (ready (ok (length buf)), record s { sent = s.sent ++ buf })
accept (none ∷ rest) s buf = (pending, record s { plan = rest })
accept (some n ∷ rest) s buf =
    (ready (ok (length (take n buf))), record { sent = s.sent ++ take n buf; plan = rest })

abbrev send : PollWrite Socket
send s buf = accept s.plan s buf

take-length : (xs : List ℕ) → take (length xs) xs ≡ xs
take-length [] = refl
take-length (x ∷ xs) = ap (◌∷◌ x) (take-length xs)

take-length-take : (n : ℕ) (xs : List ℕ) → take (length (take n xs)) xs ≡ take n xs
take-length-take zero xs = refl
take-length-take (suc n) [] = refl
take-length-take (suc n) (x ∷ xs) = ap (◌∷◌ x) (take-length-take n xs)

accept-Takes :
    (plan : List (Option ℕ)) (s : Socket) (buf : List ℕ)
    → Takes (λ v. v.sent) buf s (accept plan s buf)
accept-Takes [] s buf = (omega arith, ap (λ xs. s.sent ++ xs) (sym (take-length buf)))
accept-Takes (none ∷ rest) s buf = refl
accept-Takes (some n ∷ rest) s buf =
    (omega (arith, length-take n buf), ap (λ xs. s.sent ++ xs) (sym (take-length-take n buf)))

abbrev socket_writer : Writer send
socket_writer = record { out = λ s. s.sent; takes = λ s buf. accept-Takes s.plan s buf }

abbrev future : List ℕ → List (Option ℕ) → WriteBufAll Socket
future sent plan = record { writer = record { sent = sent; plan = plan }; buf = 1 ∷ 2 ∷ 3 ∷ [] }

poll-WroteAll_example :
    (r : Outcome (Poll (Result (Unit {0}) IoError))) × (f : WriteBufAll Socket) × (poll send
        (future [] (some 1 ∷ none ∷ []))
      ≡ some (r, f))
    × (f.buf ≡ 1 ∷ 2 ∷ 3 ∷ [])
    × WroteAll [] (1 ∷ 2 ∷ 3 ∷ []) r f.writer.sent
poll-WroteAll_example = poll-WroteAll send socket_writer (future [] (some 1 ∷ none ∷ []))

-- One byte goes out, the socket is not ready, and the next poll sends all three bytes.
first_poll : poll send (future [] (some 1 ∷ none ∷ [])) ≡ some (returns pending, future (1 ∷ []) [])
unfolding poll
first_poll = refl

second_poll :
    poll send (future (1 ∷ []) []) ≡ some (returns (ready (ok tt)), future (1 ∷ 1 ∷ 2 ∷ 3 ∷ []) [])
unfolding poll
second_poll = refl

nonempty : ◌≢◌ {A = List ℕ} (1 ∷ []) []
nonempty h = cc

poll_again_repeats_example :
    (◌≡◌ {A = List ℕ} (1 ∷ 1 ∷ 2 ∷ 3 ∷ []) (1 ∷ 1 ∷ 2 ∷ 3 ∷ []))
    × (◌≢◌ {A = List ℕ} (1 ∷ 1 ∷ 2 ∷ 3 ∷ []) (1 ∷ 2 ∷ 3 ∷ []))
poll_again_repeats_example =
    poll_again_repeats send socket_writer (future [] (some 1 ∷ none ∷ [])) (future (1 ∷ []) [])
      (future (1 ∷ 1 ∷ 2 ∷ 3 ∷ []) []) tt first_poll second_poll nonempty
