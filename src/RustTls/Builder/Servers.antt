-- ===== src/RustTls/Builder/Servers.antt =====
-- Whom the clients and servers that src/rust_tls.rs configures trust.
use future_aio.Base.{
  ℕ, String, ◌≡◌, refl, sym, ap, ◌∙◌, subst, Bool, if◌then◌else◌, some, List, Result, ok, err,
  Failure, try, context, arith,
}
use future_aio.RustTls.Verifier.{ServerCertVerifier, no_certificate_verification}
use future_aio.RustTls.Cert.{Pem, Roots, load_certs, load_root_ca}
use future_aio.RustTls.Cert.Trust.{IsStore, Trusts, load_root_ca-Trusts}
use future_aio.RustTls.Builder.{
  Rustls, load_ca_cert, no_cert_verification, no_client_auth, client_authenticate, build_connector,
}
use future_aio.RustTls.Builder.Sources.{kept, map_kept, load_ca_cert-load_root_ca}

-- What a server shows in a handshake: its certificates, the name that is asked for, the time, and
-- the message that it signs.
pub record Server (C Name Signature : Type 0) : Type 0 where
  pub end_entity : C
  pub intermediates : List C
  pub name : Name
  pub ocsp_response : String
  pub now : ℕ
  pub tls13 : Bool
  pub message : String
  pub signature : Signature

-- The verifier accepts the certificate and, by the version of the protocol, the signature.
abbrev pub Verified :
    {C Name Signature Scheme E : Type 0}
    → ServerCertVerifier C Name Signature Scheme E
    → Server C Name Signature
    → Type 0
Verified v s =
    (v.verify_server_cert s.end_entity s.intermediates s.name s.ocsp_response s.now ≡ ok tt)
    × ((if s.tls13
          then v.verify_tls13_signature s.message s.end_entity s.signature
          else v.verify_tls12_signature s.message s.end_entity s.signature)
        ≡ ok tt)

kept-ok : {A F : Type 0} (r : Result A F) (a : A) → kept r ≡ some a → r ≡ ok a
kept-ok (ok b) a h = cc
kept-ok (err f) a h = cc

module _ {E K : Type 0} (pem : Pem E K) (roots : Roots E pem.CertificateDer)
    (tls : Rustls E K pem.CertificateDer roots.RootCertStore) where
  open tls use {
    ClientVerifier, ClientCert, ServerVerifier, ServerCert, ServerName, Signature, SignatureScheme,
  }

  abbrev pub Shown : Type 0
  Shown = Server pem.CertificateDer ServerName Signature

  map_kept-some :
      (stage : ClientVerifier) (r : Result roots.RootCertStore (Failure E)) (next : ClientCert)
      → map_kept (tls.with_root_certificates stage) (kept r) ≡ some next
      → (store : roots.RootCertStore) × (r ≡ ok store)
        × (tls.with_root_certificates stage store ≡ next)
  map_kept-some stage (ok store) next h = (store, refl, cc)
  map_kept-some stage (err f) next h = cc

  unchecked : (s : Shown) → Verified {E = E} (no_certificate_verification tls.supported_schemes) s
  unfolding no_certificate_verification
  unchecked s = (refl, ground arith)

  module _ (store : IsStore roots) where
    open store use {held}

    -- A store that holds the certificates of the file, and no others.
    abbrev pub Holds : String → roots.RootCertStore → Type 0
    Holds path r = (cs : List pem.CertificateDer) × (load_certs pem path ≡ ok cs) × (held r ≡ cs)

    loaded-Holds :
        (path : String) (r : roots.RootCertStore)
        → load_root_ca pem roots path ≡ ok r
        → Holds path r
    loaded-Holds path r loaded =
        subst (Trusts pem roots store path) loaded (load_root_ca-Trusts pem roots store path)

    configured :
        (stage : ClientVerifier) (path : String) (next : ClientCert)
        → load_ca_cert pem roots tls stage path ≡ ok next
        → (r : roots.RootCertStore) × (load_root_ca pem roots path ≡ ok r)
          × (tls.with_root_certificates stage r ≡ next)
    configured stage path next h =
        map_kept-some stage (load_root_ca pem roots path) next
          (sym (load_ca_cert-load_root_ca pem roots tls stage path) ∙ ap kept h)

    verified_by :
        (stage : ServerVerifier) (next : ServerCert) (r : Result tls.WebPkiVerifier E)
        → try (context "invalid verifier" r) (λ v. ok (tls.with_client_cert_verifier stage v))
          ≡ ok next
        → (v : tls.WebPkiVerifier) × (r ≡ ok v) × (tls.with_client_cert_verifier stage v ≡ next)
    verified_by stage next (ok v) h = (v, refl, cc)
    verified_by stage next (err e) h = cc

    authenticated :
        (stage : ServerVerifier) (next : ServerCert) (l : Result roots.RootCertStore (Failure E))
        → try l (λ s.
          try
            (context "invalid verifier" (tls.verifier s))
            (λ v. ok (tls.with_client_cert_verifier stage v)))
          ≡ ok next
        → (r : roots.RootCertStore) × (v : tls.WebPkiVerifier) × (l ≡ ok r)
          × (tls.verifier r ≡ ok v)
          × (tls.with_client_cert_verifier stage v ≡ next)
    authenticated stage next (ok r) h =
        let (v, made, same) = verified_by stage next (tls.verifier r) h in (r, v, refl, made, same)
    authenticated stage next (err f) h = cc

    -- A client without certificate verification is given a verifier that accepts every server,
    -- whatever certificates it shows, under whatever name, and whatever it signs, by TLS 1.2 and by
    -- TLS 1.3, and that supports the signature schemes of the default provider. A client that was
    -- given the certificates of authorities in a file is given a store of roots that holds just the
    -- certificates of that file. Neither shows certificates of its own.
    pub clients_verify :
        (stage : ClientVerifier) (path : String) (next : ClientCert) (s : Shown)
        → load_ca_cert pem roots tls stage path ≡ ok next
        → ((v : ServerCertVerifier pem.CertificateDer ServerName Signature SignatureScheme E)
            × (build_connector pem roots tls (no_cert_verification pem roots tls stage)
                ≡ tls.client
                    (tls.with_no_client_auth (tls.with_custom_certificate_verifier stage v)))
            × Verified v s
            × (v.supported_verify_schemes ≡ tls.supported_schemes))
          × ((r : roots.RootCertStore) × Holds path r
              × (build_connector pem roots tls (no_client_auth pem roots tls next)
                  ≡ tls.client (tls.with_no_client_auth (tls.with_root_certificates stage r))))
    unfolding build_connector no_cert_verification no_client_auth no_certificate_verification
    clients_verify stage path next s h =
        let (r, loaded, same) = configured stage path next h in
        (
          (no_certificate_verification tls.supported_schemes, refl, unchecked s, refl),
          (
            r,
            loaded-Holds path r loaded,
            ap (λ n. tls.client (tls.with_no_client_auth n)) (sym same),
          ),
        )

    -- Clients and servers that are configured with the same file of authorities trust the same
    -- roots: the client that `load_ca_cert` gives, and the verifier of client certificates that
    -- `client_authenticate` gives the server, have one store, which holds just the certificates of
    -- the file. And `load_ca_cert` fails on no file that `client_authenticate` takes.
    pub same_roots_trusted :
        (stage : ClientVerifier) (server_stage : ServerVerifier) (path : String)
        (server_next : ServerCert)
        → client_authenticate pem roots tls server_stage path ≡ ok server_next
        → (r : roots.RootCertStore) × (v : tls.WebPkiVerifier) × Holds path r
          × (load_ca_cert pem roots tls stage path ≡ ok (tls.with_root_certificates stage r))
          × (tls.verifier r ≡ ok v)
          × (server_next ≡ tls.with_client_cert_verifier server_stage v)
    unfolding client_authenticate
    same_roots_trusted stage server_stage path server_next h =
        let (r, v, loaded, made, same) =
          authenticated server_stage server_next (load_root_ca pem roots path) h in
        (
          r,
          v,
          loaded-Holds path r loaded,
          kept-ok (load_ca_cert pem roots tls stage path) (tls.with_root_certificates stage r) (
              load_ca_cert-load_root_ca pem roots tls stage path
              ∙ ap (λ l. map_kept (tls.with_root_certificates stage) (kept l)) loaded),
          made,
          sym same,
        )
