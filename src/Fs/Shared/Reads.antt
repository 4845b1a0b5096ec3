-- ===== src/Fs/Shared/Reads.antt =====
-- Reads of one file through clones of a handle and through futures.
use future_aio.Base.{
  ℕ, zero, suc, ◌+◌, ◌-◌, ◌≤◌, ◌≡◌, refl, sym, ap, ◌∙◌, subst, ◌==◌, if◌then◌else◌, true, false,
  Bool-cases, inl, inr, List, [], ◌∷◌, ◌++◌, length, take, drop, length-take, length-drop,
  length-append, drop-drop, take-append-take, Result, ok, err, Poll, pending, ready, IoError,
  Outcome, returns, panics, arith,
}
use future_aio.Fs.Shared.{Files, Heap, SharedAsyncFileRead, read_locked, released, poll_read_future}
use future_aio.Fs.Shared.Polls.{Moved, ReadAnswer, ReadsOn, bytes_of, poll_each}

take-filled : (n : ℕ) (xs ys : List ℕ) → n ≤ length xs → take n (take n xs ++ ys) ≡ take n xs
take-filled zero xs ys h = refl
take-filled (suc n) [] ys h = absurd (omega arith)
take-filled (suc n) (x ∷ xs) ys h = ap (◌∷◌ x) (take-filled n xs ys (omega arith))

module _ (files : Files) (laws : ReadsOn files) (a : ℕ) where
  abbrev file_of : Heap files → files.AsyncFile
  file_of h = (h.cell a).file

  -- The file at the address is sound, and its lock is not poisoned.
  pub record Intact (h : Heap files) : Type 0 where
    pub sound : laws.Sound (file_of h)
    pub unpoisoned : (h.cell a).poisoned ≡ false

  abbrev rest_of : Heap files → List ℕ
  rest_of h = drop (laws.position (file_of h)) (laws.content (file_of h))

  -- The bytes `got` have been read: they are the next ones of the file, and it stands behind them.
  pub record HasRead (h : Heap files) (got : List ℕ) (h' : Heap files) : Type 0 where
    pub intact : Intact h'
    pub unchanged : laws.content (file_of h') ≡ laws.content (file_of h)
    pub moved : laws.position (file_of h') ≡ laws.position (file_of h) + length got
    pub available : length got ≤ length (laws.content (file_of h)) - laws.position (file_of h)
    pub in_order : got ≡ take (length got) (rest_of h)

  nothing-HasRead : (h : Heap files) → Intact h → HasRead h [] h
  nothing-HasRead h i = record {
    intact = i;
    unchanged = refl;
    moved = omega arith;
    available = omega arith;
    in_order = refl;
  }

  append-HasRead :
      {h h' h'' : Heap files} {xs ys : List ℕ}
      → HasRead h xs h'
      → HasRead h' ys h''
      → HasRead h (xs ++ ys) h''
  append-HasRead {h} {h'} {h''} {xs} {ys} p q =
      let l = length-append xs ys in
      let c = laws.content (file_of h) in
      let start = laws.position (file_of h) in
      let next : rest_of h' ≡ drop (length xs) (rest_of h) =
        ap (λ d. drop (laws.position (file_of h')) d) p.unchanged
        ∙ ap (λ m. drop m c) p.moved
        ∙ sym (drop-drop start (length xs) c) in
      let left =
        subst (λ d. length ys ≤ length d - laws.position (file_of h')) p.unchanged q.available in
      record {
        intact = q.intact;
        unchanged = q.unchanged ∙ p.unchanged;
        moved = omega (arith, l, p.moved, q.moved);
        available = omega (arith, l, p.moved, p.available, left);
        in_order =
            ap (λ zs. zs ++ ys) p.in_order
            ∙ ap (λ zs. take (length xs) (rest_of h) ++ zs)
                (q.in_order ∙ ap (λ d. take (length ys) d) next)
            ∙ take-append-take (length xs) (length ys) (rest_of h)
            ∙ ap (λ n. take n (rest_of h)) (sym l);
      }

  -- The heap after the holder of the lock is done.
  abbrev stored : Heap files → Outcome (Poll (Result ℕ IoError)) → files.AsyncFile → Heap files
  stored h r f = record h { cell = λ b. if a == b then released files r f else h.cell b }

  stored-cell :
      (h : Heap files) (r : Outcome (Poll (Result ℕ IoError))) (f : files.AsyncFile)
      → (stored h r f).cell a ≡ released files r f
  stored-cell h r f =
      let same : (a == a) ≡ true = ground arith in
      ap (λ t. if t then released files r f else h.cell a) same

  Moved-HasRead :
      (h : Heap files) (r : Poll (Result ℕ IoError)) (f : files.AsyncFile) (got : List ℕ)
      → Moved laws.Sound laws.content laws.position (length got) (file_of h) f
      → length got ≤ length (laws.content (file_of h)) - laws.position (file_of h)
      → got ≡ take (length got) (rest_of h)
      → HasRead h got (stored h (returns r) f)
  unfolding released
  Moved-HasRead h r f got (sound, same, at) held ordered =
      let c = stored-cell h (returns r) f in
      record {
        intact = record {
          sound = subst (λ l. laws.Sound l.file) (sym c) sound;
          unpoisoned = ap (λ l. l.poisoned) c;
        };
        unchanged = ap (λ l. laws.content l.file) c ∙ same;
        moved = ap (λ l. laws.position l.file) c ∙ at;
        available = held;
        in_order = ordered;
      }

  -- A poll of a read of the file itself.
  answered-HasRead :
      (buf : List ℕ) (h : Heap files)
      (ans : Outcome (Poll (Result ℕ IoError)) × List ℕ × files.AsyncFile)
      → ReadAnswer laws.Sound laws.content laws.position (file_of h) buf ans
      → HasRead h (bytes_of ans.0 ans.1) (stored h ans.0 ans.2)
  answered-HasRead buf h (panics, buf', f) e = absurd e
  answered-HasRead buf h (returns pending, buf', f) (b, m) =
      Moved-HasRead h pending f [] m (omega arith) refl
  answered-HasRead buf h (returns (ready (err x)), buf', f) (b, m) =
      Moved-HasRead h (ready (err x)) f [] m (omega arith) refl
  answered-HasRead buf h (returns (ready (ok n)), buf', f) (few, held, b, m) =
      let d = length-drop (laws.position (file_of h)) (laws.content (file_of h)) in
      let taken : take n buf' ≡ take n (rest_of h) =
        ap (take n) b ∙ take-filled n (rest_of h) (drop n buf) (omega (arith, d)) in
      let l : length (take n buf') ≡ n =
        ap (λ zs. length zs) taken ∙ omega (arith, length-take n (rest_of h), d) in
      Moved-HasRead h (ready (ok n)) f (take n buf')
        (subst (λ k. Moved laws.Sound laws.content laws.position k (file_of h) f) (sym l) m)
        (omega (arith, l)) (taken ∙ ap (λ k. take k (rest_of h)) (sym l))

  -- A poll of a future on the file.
  own-HasRead :
      (f : SharedAsyncFileRead files) (h : Heap files)
      → f.inner ≡ a
      → Intact h
      → let (r, f', h') = poll_read_future files f h in HasRead h (bytes_of r f'.buf) h'
  unfolding poll_read_future read_locked
  own-HasRead f h e i =
      rw (e, i.unpoisoned)
        (answered-HasRead f.buf h (files.poll_read (file_of h) f.buf)
          (laws.reads (file_of h) f.buf i.sound))

  other-cell :
      (f : SharedAsyncFileRead files) (h : Heap files)
      → (f.inner == a) ≡ false
      → (poll_read_future files f h).2.cell a ≡ h.cell a
  unfolding poll_read_future read_locked
  other-cell f h e = elim (Bool-cases ((h.cell f.inner).poisoned)) [
    | inl p ↦ rw p refl
    | inr p ↦ rw (p, e) refl
  ]

  -- Nothing is read of the file by a future on another one.
  other-HasRead :
      (f : SharedAsyncFileRead files) (h : Heap files)
      → (f.inner == a) ≡ false
      → Intact h
      → HasRead h [] (poll_read_future files f h).2
  other-HasRead f h e i =
      let c = other-cell f h e in
      record {
        intact = record {
          sound = subst (λ l. laws.Sound l.file) (sym c) i.sound;
          unpoisoned = ap (λ l. l.poisoned) c ∙ i.unpoisoned;
        };
        unchanged = ap (λ l. laws.content l.file) c;
        moved = ap (λ l. laws.position l.file) c ∙ omega arith;
        available = omega arith;
        in_order = refl;
      }

  -- However many futures are polled, on the sound file of an unpoisoned lock and on other files
  -- whatever these do: together the reads of that file give its next bytes, each byte once and in
  -- order, the file stands behind them, what it holds is unchanged, and its lock is not poisoned.
  pub poll_each-HasRead :
      (fs : List (SharedAsyncFileRead files)) (h : Heap files)
      → Intact h
      → let (got, h') = poll_each files a fs h in HasRead h got h'
  unfolding poll_each
  poll_each-HasRead [] h i = nothing-HasRead h i
  poll_each-HasRead (f ∷ fs) h i = elim (Bool-cases (f.inner == a)) [
    | inl e ↦
        let same : f.inner ≡ a = ground arith in
        let own = own-HasRead f h same i in
        rw e (append-HasRead own (poll_each-HasRead fs _ own.intact))
    | inr e ↦
        let other = other-HasRead f h e i in
        rw e (append-HasRead other (poll_each-HasRead fs _ other.intact))
  ]
