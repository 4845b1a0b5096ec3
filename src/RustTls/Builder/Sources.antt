-- ===== src/RustTls/Builder/Sources.antt =====
-- Where the certificates and keys of a configuration come from.
use future_aio.Base.{
  Failure, try, context, more_context, String, ◌≡◌, refl, ap, ◌∙◌, Option, none, some, List, [],
  ◌∷◌, Result, ok, err,
}
use future_aio.RustTls.Cert.{Pem, Roots, load_certs, load_root_ca, add_all}
use future_aio.RustTls.Cert.Loads.{load_certs-cursor, load_first_key-cursor}
use future_aio.RustTls.Builder.{
  Rustls, add_each, with_roots, load_ca_cert, load_ca_cert_from_bytes, load_client_certs,
  load_client_certs_from_bytes,
}

-- `Result::ok`.
abbrev pub kept : {A F : Type 0} → Result A F → Option A
kept (ok a) = some a
kept (err f) = none

abbrev pub map_kept : {A B : Type 0} → (A → B) → Option A → Option B
map_kept f none = none
map_kept f (some a) = some (f a)

module _ {E K : Type 0} (pem : Pem E K) (roots : Roots E pem.CertificateDer)
    (tls : Rustls E K pem.CertificateDer roots.RootCertStore) where
  open tls use {ClientVerifier, ClientCert}

  -- A client configured from files and one configured from the bytes of these files are the same,
  -- errors and panics included: for the certificates of authorities, and for the client's own
  -- certificates and key.
  pub files_and_bytes :
      (stage : ClientVerifier) (next : ClientCert) (ca cert key ca_buf cert_buf key_buf : String)
      → pem.open_file ca ≡ ok (pem.cursor ca_buf)
      → pem.open_file cert ≡ ok (pem.cursor cert_buf)
      → pem.open_file key ≡ ok (pem.cursor key_buf)
      → (load_ca_cert pem roots tls stage ca ≡ load_ca_cert_from_bytes pem roots tls stage ca_buf)
        × (load_client_certs pem roots tls next cert key
            ≡ load_client_certs_from_bytes pem roots tls next cert_buf key_buf)
  unfolding load_ca_cert load_ca_cert_from_bytes load_client_certs load_client_certs_from_bytes
  files_and_bytes stage next ca cert key ca_buf cert_buf key_buf h i j = (
    ap (λ r. try r (with_roots pem roots tls stage)) (load_certs-cursor pem ca ca_buf h),
    rw (load_certs-cursor pem cert cert_buf i, load_first_key-cursor pem key key_buf j) refl,
  )

  tried :
      (r : Result roots.RootCertStore E)
      (f g : roots.RootCertStore → Result roots.RootCertStore (Failure E))
      → ((s : roots.RootCertStore) → f s ≡ g s)
      → try (context "invalid ca crt" r) f ≡ try (context "invalid ca crt" r) g
  tried (ok s) f g h = h s
  tried (err e) f g h = refl

  -- The loop of the builder fills a store as that of `load_root_ca` does.
  add_each-add_all :
      (s : roots.RootCertStore) (cs : List pem.CertificateDer)
      → add_each pem roots tls s cs ≡ add_all roots s cs
  unfolding add_each add_all
  add_each-add_all s [] = refl
  add_each-add_all s (c ∷ cs) = tried (roots.add s c) _ _ (λ s'. add_each-add_all s' cs)

  built :
      (stage : ClientVerifier) (r : Result roots.RootCertStore (Failure E))
      → kept (try r (λ s. ok (tls.with_root_certificates stage s)))
        ≡ map_kept (tls.with_root_certificates stage) (kept r)
  built stage (ok s) = refl
  built stage (err f) = refl

  same_roots :
      (stage : ClientVerifier) (r : Result (List pem.CertificateDer) (Failure E))
      → kept (try r (with_roots pem roots tls stage))
        ≡ map_kept
            (tls.with_root_certificates stage)
            (kept (try (more_context "invalid ca crt" r) (add_all roots roots.empty)))
  unfolding with_roots
  same_roots stage (err f) = refl
  same_roots stage (ok cs) =
      ap (λ r. kept (try r (λ s. ok (tls.with_root_certificates stage s))))
        (add_each-add_all roots.empty cs)
      ∙ built stage (add_all roots roots.empty cs)

  -- `load_ca_cert` succeeds on a file exactly if `load_root_ca` does so, and configures the client
  -- with the store that it gives.
  pub load_ca_cert-load_root_ca :
      (stage : ClientVerifier) (path : String)
      → kept (load_ca_cert pem roots tls stage path)
        ≡ map_kept (tls.with_root_certificates stage) (kept (load_root_ca pem roots path))
  unfolding load_ca_cert load_root_ca
  load_ca_cert-load_root_ca stage path = same_roots stage (load_certs pem path)
