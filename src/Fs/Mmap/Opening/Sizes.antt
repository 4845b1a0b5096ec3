-- ===== src/Fs/Mmap/Opening/Sizes.antt =====
-- How large a file is once it is mapped.
use future_aio.Base.{
  ℕ, suc, true, false, List, [], ◌∷◌, length, ◌==◌, ◌≡◌, refl, sym, ap, ◌∙◌, subst, inl, inr,
  Result, ok, err, IoError, Outcome, returns, panics, arith,
}
use future_aio.Fs.Util.{OpenOptions, no_options}
use future_aio.Fs.Mmap.{from_mmap}
use future_aio.Fs.Mmap.Opening.{MapSystem, unwrapped, tried, after, create, grown, open_map}
use future_aio.Fs.Mmap.Opening.Disk.{
  IsDisk, Grown, OfLength, OfContent, UnwrapFails, CallFails, Returned,
}

nonzero : (n : ℕ) → (suc n == 0) ≡ false
nonzero n = ground arith

module _ {W : Type 0} (system : MapSystem W) (laws : IsDisk system) where
  open system use {File, open_with, set_len, metadata_len, map}
  open laws use {content, path_of}

  map-Returned :
      {A : Type 0} (P : A → Type 0) (f : File) (make : List ℕ → A) (w : W)
      (r : Result (List ℕ) IoError × W)
      → map f w ≡ r
      → P (make (content (path_of f) w))
      → Returned system P (tried (λ bytes v. (returns (ok (make bytes)), v)) r)
  unfolding tried
  map-Returned P f make w (err e, v) h p = inr (f, w, h)
  map-Returned P f make w (ok bytes, v) h p =
      subst (λ b. P (make b)) (sym (laws.maps f bytes w v h)) p

  set-Returned :
      (f : File) (len : ℕ) (w : W) (r : Result (Unit {0}) IoError × W)
      → set_len f len w ≡ r
      → Returned system
          (OfLength len)
          (tried (λ _ u. tried (λ bytes v. (returns (ok (from_mmap bytes, f)), v)) (map f u)) r)
  unfolding tried from_mmap
  set-Returned f len w (err e, v) h = inl (f, len, w, h)
  set-Returned f len w (ok u, v) h =
      map-Returned (OfLength len) f (λ b. (from_mmap b, f)) v (map f v) refl (laws.sets f len w v h)

  created-Returned :
      (p len : ℕ) (o : OpenOptions) (w : W) (r : Result File IoError × W)
      → open_with o p w ≡ r
      → Returned system (OfLength len) (
          unwrapped
            (λ f v.
              tried
                (λ _ u. tried (λ bytes t. (returns (ok (from_mmap bytes, f)), t)) (map f u))
                (set_len f len v))
            r)
  unfolding unwrapped
  created-Returned p len o w (err e, v) h = inl (o, p, w, e, h)
  created-Returned p len o w (ok f, v) h = set-Returned f len v (set_len f len v) refl

  -- The content of the file at `p`, when `grown` has returned.
  abbrev pub GrownTo : ℕ → List ℕ → ℕ → Outcome (Result (Unit {0}) IoError) × W → Type 0
  GrownTo p c n (panics, t) = UnwrapFails system t
  GrownTo p c n (returns (err e), t) = CallFails system e t
  GrownTo p c n (returns (ok u), t) = Grown c n (content p t)

  filled-GrownTo :
      (p n : ℕ) (fd : File) (v : W) (r : Result (Unit {0}) IoError × W)
      → path_of fd ≡ p
      → set_len fd n v ≡ r
      → GrownTo p [] n (tried (λ u t. (returns (ok u), t)) r)
  unfolding tried
  filled-GrownTo p n fd v (err e, t) at h = inl (fd, n, v, h)
  filled-GrownTo p n fd v (ok u, t) at h =
      subst (λ q. length (content q t) ≡ n) at (laws.sets fd n v t h)

  empty-GrownTo :
      (p n : ℕ) (o : OpenOptions) (u : W) (r : Result File IoError × W)
      → open_with o p u ≡ r
      → GrownTo p [] n (unwrapped (λ fd v. tried (λ x t. (returns (ok x), t)) (set_len fd n v)) r)
  unfolding unwrapped
  empty-GrownTo p n o u (err e, v) h = inl (o, p, u, e, h)
  empty-GrownTo p n o u (ok fd, v) h =
      filled-GrownTo p n fd v (set_len fd n v) (laws.opens o p fd u v h).0 refl

  grown-GrownTo :
      (p n len : ℕ) (c : List ℕ) (u : W)
      → len ≡ length c
      → content p u ≡ c
      → GrownTo p c n (grown system p n len u)
  unfolding grown
  grown-GrownTo p n len [] u size same = rw size (
      empty-GrownTo p n (record no_options { read = true; write = true }) u
        (open_with (record no_options { read = true; write = true }) p u) refl)
  grown-GrownTo p n len (b ∷ bs) u size same = rw (size, nonzero (length bs)) same

  after-Returned :
      (p n : ℕ) (c : List ℕ) (f : File) (r : Outcome (Result (Unit {0}) IoError) × W)
      → path_of f ≡ p
      → GrownTo p c n r
      → Returned system
          (OfContent c n)
          (after (λ _ t. tried (λ bytes s. (returns (ok (bytes, f)), s)) (map f t)) r)
  unfolding after
  after-Returned p n c f (panics, t) at g = g
  after-Returned p n c f (returns (err e), t) at g = g
  after-Returned p n c f (returns (ok u), t) at g =
      map-Returned (OfContent c n) f (λ b. (b, f)) t (map f t) refl
        (subst (λ q. Grown c n (content q t)) (sym at) g)

  told-Returned :
      (p n : ℕ) (c : List ℕ) (f : File) (v : W) (r : Result ℕ IoError × W)
      → path_of f ≡ p
      → content p v ≡ c
      → metadata_len f v ≡ r
      → Returned system (OfContent c n) (
          unwrapped
            (λ len u.
              after
                (λ _ t. tried (λ bytes s. (returns (ok (bytes, f)), s)) (map f t))
                (grown system p n len u))
            r)
  unfolding unwrapped
  told-Returned p n c f v (err e, u) at same h = inr (f, v, e, h)
  told-Returned p n c f v (ok len, u) at same h =
      let (size, kept) = laws.tells f len v u h in
      let before : content (path_of f) v ≡ c = ap (λ q. content q v) at ∙ same in
      after-Returned p n c f (grown system p n len u) at (
        grown-GrownTo p n len c u (size ∙ ap length before)
          (ap (λ q. content q u) (sym at) ∙ kept ∙ before))

  opened-Returned :
      (p n : ℕ) (o : OpenOptions) (w : W) (r : Result File IoError × W)
      → open_with o p w ≡ r
      → Returned system (OfContent (content p w) n) (
          unwrapped
            (λ f v.
              unwrapped
                (λ len u.
                  after
                    (λ _ t. tried (λ bytes s. (returns (ok (bytes, f)), s)) (map f t))
                    (grown system p n len u))
                (metadata_len f v))
            r)
  unfolding unwrapped
  opened-Returned p n o w (err e, v) h = inl (o, p, w, e, h)
  opened-Returned p n o w (ok f, v) h =
      let (at, same) = laws.opens o p f w v h in
      told-Returned p n (content p w) f v (metadata_len f v) at same refl

  -- A map that `create` returns has the length it was asked for. A map that `open` returns has
  -- the minimum length if the file was empty, and else it is the file as it was, even where that is
  -- shorter. Both panic only where opening the file or reading its metadata fails, and return an
  -- error only where setting its length or mapping it fails with that error.
  pub maps-Returned :
      (m_path len : ℕ) (w : W)
      → Returned system (OfLength len) (create system m_path len w)
        × Returned system (OfContent (content m_path w) len) (open_map system m_path len w)
  unfolding create open_map
  maps-Returned m_path len w =
      let writable = record no_options { read = true; write = true; create = true } in
      let readable = record no_options { read = true } in
      (
        created-Returned m_path len writable w (open_with writable m_path w) refl,
        opened-Returned m_path len readable w (open_with readable m_path w) refl,
      )
