-- ===== src/ZeroCopy/Progress.antt =====
-- How far the loop of `copy_slice` in src/zero_copy.rs has come, on Linux and on macOS.
use mathlib.Core.List.{append_assoc, append-nil}
use future_aio.Base.{
  ℕ, ◌+◌, ◌-◌, ◌≤◌, ◌<◌, ◌≡◌, refl, sym, ap, ◌∙◌, ◌⊎◌, inl, inr, List, ◌++◌, length, take, drop,
  take-append-take, drop-drop, take_beyond, min, Result, ok, err, Outcome, returns, panics, arith,
  length-drop,
}
use future_aio.ZeroCopy.{SendFileError, Round, leave, again}

module _ {W : Type 0} (content arrived : W → List ℕ) (stalls : W → ℕ) (position size : ℕ)
    (start : W) where
  abbrev pub rest_of : List ℕ
  rest_of = drop position (content start)

  -- The loop has sent the first `total` bytes from the position.
  pub record Progress (total offset : ℕ) (w : W) : Type 0 where
    pub offset_is : offset ≡ position + total
    pub not_more : total ≤ size
    pub available : total ≤ length (content start) - position
    pub unchanged : content w ≡ content start
    pub sent : arrived w ≡ arrived start ++ take total rest_of

  -- A success has sent as much of the slice as the file holds, and tells how much that is; a
  -- failure has sent some of it.
  abbrev pub Sent : Outcome (Result ℕ SendFileError) → W → Type 0
  Sent panics w = ⊥
  Sent (returns (ok total)) w =
      (total ≡ min size (length (content start) - position))
      × (arrived w ≡ arrived start ++ take size rest_of)
  Sent (returns (err e)) w =
      (total : ℕ) × (total ≤ min size (length (content start) - position))
      × (arrived w ≡ arrived start ++ take total rest_of)

  -- Either the loop is left with a right result, or it has come nearer to its end.
  abbrev pub RoundGoesWell : ℕ → W → Round × W → Type 0
  RoundGoesWell total w (leave r, w') = Sent r w'
  RoundGoesWell total w (again t o, w') =
      Progress t o w' × (size - t + stalls w' < size - total + stalls w)

  pub start-Progress : Progress 0 position start
  start-Progress = record {
    offset_is = omega arith;
    not_more = omega arith;
    available = omega arith;
    unchanged = refl;
    sent = sym (append-nil (arrived start));
  }

  pub sent_more :
      (total offset n : ℕ) (w w' : W)
      → Progress total offset w
      → arrived w' ≡ arrived w ++ take n (drop offset (content w))
      → arrived w' ≡ arrived start ++ take (total + n) rest_of
  sent_more total offset n w w' p a =
      a
      ∙ ap (λ c. arrived w ++ take n (drop offset c)) p.unchanged
      ∙ ap (λ o. arrived w ++ take n (drop o (content start))) p.offset_is
      ∙ ap (λ d. arrived w ++ take n d) (sym (drop-drop position total (content start)))
      ∙ ap (λ b. b ++ take n (drop total rest_of)) p.sent
      ∙ append_assoc (arrived start) (take total rest_of) (take n (drop total rest_of))
      ∙ ap (λ b. arrived start ++ b) (take-append-take total n rest_of)

  all_sent :
      (total : ℕ) (w : W)
      → total ≤ size
      → (total ≡ size) ⊎ (total ≡ length (content start) - position)
      → arrived w ≡ arrived start ++ take total rest_of
      → arrived w ≡ arrived start ++ take size rest_of
  all_sent total w b (inl e) a = a ∙ ap (λ n. arrived start ++ take n rest_of) e
  all_sent total w b (inr e) a =
      let l = length-drop position (content start) in
      a
      ∙ ap (λ b. arrived start ++ b)
          (take_beyond total rest_of (omega (arith, l))
            ∙ sym (take_beyond size rest_of (omega (arith, l))))

  pub finished :
      (total : ℕ) (w : W)
      → total ≤ size
      → total ≤ length (content start) - position
      → (total ≡ size) ⊎ (total ≡ length (content start) - position)
      → arrived w ≡ arrived start ++ take total rest_of
      → Sent (returns (ok total)) w
  finished total w b c e a = (omega arith, all_sent total w b e a)

  -- Progress by some more bytes.
  pub more-Progress :
      (total offset o n : ℕ) (w w' : W)
      → Progress total offset w
      → o ≡ offset + n
      → total + n ≤ size
      → total + n ≤ length (content start) - position
      → content w' ≡ content w
      → arrived w' ≡ arrived w ++ take n (drop offset (content w))
      → Progress (total + n) o w'
  more-Progress total offset o n w w' p at few held same got = record {
    offset_is = omega (arith, p.offset_is);
    not_more = few;
    available = held;
    unchanged = same ∙ p.unchanged;
    sent = sent_more total offset n w w' p got;
  }
