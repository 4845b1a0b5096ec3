-- ===== src/RustTls/Builder.antt =====
-- `builder` of src/rust_tls.rs: configurations of clients and servers are built in stages.
pub mod Sources
pub mod Servers
use future_aio.Base.{
  Failure, caused, in_context, message, try, attempt, context, from_error, more_context, String,
  List, [], ◌∷◌, Result, ok, err, Outcome, returns, panics, ◌>>=◌,
}
use future_aio.RustTls.Verifier.{ServerCertVerifier, no_certificate_verification}
use future_aio.RustTls.Cert.{
  PrivateKeyDer, Pem, Roots, load_certs, load_certs_from_reader, load_first_key,
  load_first_key_from_reader, load_root_ca,
}

-- What the source uses of `rustls`. The stages of `ConfigBuilder` are types: `ClientVerifier` and
-- `ServerVerifier` stand for `WantsVerifier`, `ClientCert` for `WantsClientCert` and `ServerCert`
-- for `WantsServerCert`. `supported_schemes` are those of the default
-- provider, and `client` and `server` make a connector and an acceptor of a configuration.
pub record Rustls (E K C S : Type 0) : Type 1 where
  pub ClientVerifier : Type 0
  pub ClientCert : Type 0
  pub ClientConfig : Type 0
  pub ServerVerifier : Type 0
  pub ServerCert : Type 0
  pub ServerConfig : Type 0
  pub WebPkiVerifier : Type 0
  pub ServerName : Type 0
  pub Signature : Type 0
  pub SignatureScheme : Type 0
  pub TlsConnector : Type 0
  pub TlsAcceptor : Type 0
  pub supported_schemes : List SignatureScheme
  pub client : ClientConfig → TlsConnector
  pub server : ServerConfig → TlsAcceptor
  pub client_builder : ClientVerifier
  pub with_root_certificates : ClientVerifier → S → ClientCert
  pub with_custom_certificate_verifier :
      ClientVerifier → ServerCertVerifier C ServerName Signature SignatureScheme E → ClientCert
  pub with_client_auth_cert : ClientCert → List C → PrivateKeyDer K → Result ClientConfig E
  pub with_no_client_auth : ClientCert → ClientConfig
  pub server_builder : ServerVerifier
  pub without_client_auth : ServerVerifier → ServerCert
  pub verifier : S → Result WebPkiVerifier E
  pub with_client_cert_verifier : ServerVerifier → WebPkiVerifier → ServerCert
  pub with_single_cert : ServerCert → List C → PrivateKeyDer K → Result ServerConfig E

module _ {E K : Type 0} (pem : Pem E K) (roots : Roots E pem.CertificateDer)
    (tls : Rustls E K pem.CertificateDer roots.RootCertStore) where
  open pem use {CertificateDer, cursor}
  open tls use {
    ClientVerifier, ClientCert, ClientConfig, ServerVerifier, ServerCert, ServerConfig,
    TlsConnector, TlsAcceptor,
  }

  -- `ConnectorBuilder::with_safe_defaults` and `AcceptorBuilder::with_safe_defaults`.
  pub client_defaults : ClientVerifier
  client_defaults = tls.client_builder

  pub server_defaults : ServerVerifier
  server_defaults = tls.server_builder

  -- The loop of `with_root_certificates`.
  add_each : roots.RootCertStore → List CertificateDer → Result roots.RootCertStore (Failure E)
  add_each root_store [] = ok root_store
  add_each root_store (cert ∷ certs) =
      try (context "invalid ca crt" (roots.add root_store cert)) (λ s. add_each s certs)

  with_roots : ClientVerifier → List CertificateDer → Result ClientCert (Failure E)
  unfolding add_each
  with_roots stage certs =
      try (add_each roots.empty certs) (λ s. ok (tls.with_root_certificates stage s))

  unfoldable pub load_ca_cert : ClientVerifier → String → Result ClientCert (Failure E)
  unfolding with_roots
  load_ca_cert stage path = try (load_certs pem path) (λ certs. with_roots stage certs)

  pub load_ca_cert_from_bytes : ClientVerifier → String → Result ClientCert (Failure E)
  unfolding with_roots
  load_ca_cert_from_bytes stage buffer =
      try (load_certs_from_reader pem (cursor buffer)) (λ certs. with_roots stage certs)

  pub no_cert_verification : ClientVerifier → ClientConfig
  no_cert_verification stage = tls.with_no_client_auth (
      tls.with_custom_certificate_verifier stage
        (no_certificate_verification tls.supported_schemes))

  with_client_cert :
      ClientCert → List CertificateDer → PrivateKeyDer K → Result ClientConfig (Failure E)
  with_client_cert stage certs key =
      context "invalid cert" (tls.with_client_auth_cert stage certs key)

  pub load_client_certs : ClientCert → String → String → Outcome (Result ClientConfig (Failure E))
  unfolding with_client_cert
  load_client_certs stage cert_path key_path = attempt (load_certs pem cert_path) (λ certs.
      load_first_key pem key_path >>= λ k.
      attempt k (λ key. returns (with_client_cert stage certs key)))

  pub load_client_certs_from_bytes :
      ClientCert → String → String → Outcome (Result ClientConfig (Failure E))
  unfolding with_client_cert
  load_client_certs_from_bytes stage cert_buf key_buf =
      attempt (load_certs_from_reader pem (cursor cert_buf)) (λ certs.
        load_first_key_from_reader pem (cursor key_buf) >>= λ k.
        attempt k (λ key. returns (with_client_cert stage certs key)))

  pub no_client_auth : ClientCert → ClientConfig
  no_client_auth stage = tls.with_no_client_auth stage

  pub no_client_authentication : ServerVerifier → ServerCert
  no_client_authentication stage = tls.without_client_auth stage

  unfoldable pub client_authenticate : ServerVerifier → String → Result ServerCert (Failure E)
  client_authenticate stage path = try (load_root_ca pem roots path) (λ root_store.
      try (context "invalid verifier" (tls.verifier root_store))
        (λ v. ok (tls.with_client_cert_verifier stage v)))

  pub load_server_certs : ServerCert → String → String → Outcome (Result ServerConfig (Failure E))
  load_server_certs stage cert_path key_path = attempt (load_certs pem cert_path) (λ certs.
      load_first_key pem key_path >>= λ k.
      attempt k (λ key. returns (context "invalid cert" (tls.with_single_cert stage certs key))))

  -- `build` of a finished configuration.
  pub build_connector : ClientConfig → TlsConnector
  build_connector config = tls.client config

  pub build_acceptor : ServerConfig → TlsAcceptor
  build_acceptor config = tls.server config
