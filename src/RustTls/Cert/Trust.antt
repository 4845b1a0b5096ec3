-- ===== src/RustTls/Cert/Trust.antt =====
-- Which root certificates are trusted.
use future_aio.Base.{
  Failure, caused, in_context, try, context, more_context, String, ◌≡◌, refl, sym, ap, ◌∙◌, subst,
  ◌⊎◌, inl, inr, List, [], ◌∷◌, ◌++◌, append-nil, append_assoc, Result, ok, err,
}
use future_aio.RustTls.Cert.{Pem, Roots, load_certs, add_all, load_root_ca}

-- What is relied on of a `RootCertStore`: it holds what was added, in order.
pub record IsStore {E C : Type 0} (roots : Roots E C) : Type 0 where
  pub held : roots.RootCertStore → List C
  pub held_empty : held roots.empty ≡ []
  pub held_add :
      (s s' : roots.RootCertStore) (c : C) → roots.add s c ≡ ok s' → held s' ≡ held s ++ (c ∷ [])

module _ {E C : Type 0} (roots : Roots E C) (store : IsStore roots) where
  open roots use {RootCertStore, empty, add}
  open store use {held}

  -- All the certificates are held, behind those of before; or one of them is refused, when those
  -- before it are held.
  abbrev pub Added : List C → List C → Result RootCertStore (Failure E) → Type 0
  Added before cs (ok s) = held s ≡ before ++ cs
  Added before cs (err f) =
      (done rest : List C) × (c : C) × (s : RootCertStore) × (e : E) × (cs ≡ done ++ (c ∷ rest))
      × (held s ≡ before ++ done)
      × (add s c ≡ err e)
      × (f ≡ in_context "invalid ca crt" (caused e))

  shift :
      (before after cs : List C) (c : C) (r : Result RootCertStore (Failure E))
      → after ≡ before ++ (c ∷ [])
      → Added after cs r
      → Added before (c ∷ cs) r
  shift before after cs c (ok s) h a = a ∙ ap (λ l. l ++ cs) h ∙ append_assoc before (c ∷ []) cs
  shift before after cs c (err f) h (done, rest, d, s, e, parts, held_s, refused, noted) = (
    c ∷ done,
    rest,
    d,
    s,
    e,
    ap (◌∷◌ c) parts,
    held_s ∙ ap (λ l. l ++ done) h ∙ append_assoc before (c ∷ []) done,
    refused,
    noted,
  )

  one-Added :
      (s : RootCertStore) (c : C) (cs : List C) (r : Result RootCertStore E)
      → add s c ≡ r
      → ((s' : RootCertStore) → Added (held s') cs (add_all roots s' cs))
      → Added (held s) (c ∷ cs) (try (context "invalid ca crt" r) (λ s'. add_all roots s' cs))
  one-Added s c cs (ok s') h more =
      shift (held s) (held s') cs c (add_all roots s' cs) (store.held_add s s' c h) (more s')
  one-Added s c cs (err e) h more = ([], cs, c, s, e, refl, sym (append-nil (held s)), h, refl)

  pub add_all-Added : (s : RootCertStore) (cs : List C) → Added (held s) cs (add_all roots s cs)
  unfolding add_all
  add_all-Added s [] = sym (append-nil (held s))
  add_all-Added s (c ∷ cs) = one-Added s c cs (add s c) refl (λ s'. add_all-Added s' cs)

module _ {E K : Type 0} (pem : Pem E K) (roots : Roots E pem.CertificateDer)
    (store : IsStore roots) where
  open store use {held}

  -- The store that is loaded holds the certificates of the file; or the file does not load; or one
  -- of its certificates is refused.
  abbrev pub Trusts : String → Result roots.RootCertStore (Failure E) → Type 0
  Trusts path (ok s) =
      (cs : List pem.CertificateDer) × (load_certs pem path ≡ ok cs) × (held s ≡ cs)
  Trusts path (err f) =
      ((g : Failure E) × (load_certs pem path ≡ err g) × (f ≡ in_context "invalid ca crt" g))
      ⊎ ((cs : List pem.CertificateDer) × (load_certs pem path ≡ ok cs)
          × Added roots store [] cs (err f))

  filled-Trusts :
      (path : String) (cs : List pem.CertificateDer) (r : Result roots.RootCertStore (Failure E))
      → load_certs pem path ≡ ok cs
      → Added roots store [] cs r
      → Trusts path r
  filled-Trusts path cs (ok s) h a = (cs, h, a)
  filled-Trusts path cs (err f) h a = inr (cs, h, a)

  loaded-Trusts :
      (path : String) (r : Result (List pem.CertificateDer) (Failure E))
      → load_certs pem path ≡ r
      → Trusts path (try (more_context "invalid ca crt" r) (λ cs. add_all roots roots.empty cs))
  loaded-Trusts path (err f) h = inl (f, h, refl)
  loaded-Trusts path (ok cs) h = filled-Trusts path cs (add_all roots roots.empty cs) h (
      subst (λ before. Added roots store before cs (add_all roots roots.empty cs)) store.held_empty
        (add_all-Added roots store roots.empty cs))

  -- The store that `load_root_ca` returns holds exactly the certificates of the file, in order. It
  -- fails only if the file or one of its certificates does not load, or if the store refuses a
  -- certificate when those before it are in; both errors carry a note.
  pub load_root_ca-Trusts : (path : String) → Trusts path (load_root_ca pem roots path)
  unfolding load_root_ca
  load_root_ca-Trusts path = loaded-Trusts path (load_certs pem path) refl
