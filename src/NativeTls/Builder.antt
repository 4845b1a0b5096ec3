-- ===== src/NativeTls/Builder.antt =====
-- `cert` and `builder` of src/native_tls.rs.
pub mod Identities
use future_aio.Base.{String, Bool, true, Result, ok, Failure, try, context, from_error}
use future_aio.Openssl.Certs.{Crypto, password}

-- What the source uses of `native_tls` and `async_native_tls`: identities, and the connector, whose
-- settings are calls on it.
pub record Native (E : Type 0) : Type 1 where
  pub Identity : Type 0
  pub Certificate : Type 0
  pub TlsConnector : Type 0
  pub TlsAcceptor : Type 0
  pub from_pkcs12 : String → String → Result Identity E
  pub from_pem : String → Result Certificate E
  pub new_connector : TlsConnector
  pub identity : Identity → TlsConnector → TlsConnector
  pub accept_invalid_certs : Bool → TlsConnector → TlsConnector
  pub accept_invalid_hostnames : Bool → TlsConnector → TlsConnector
  pub use_sni : Bool → TlsConnector → TlsConnector
  pub add_root_certificate : Certificate → TlsConnector → TlsConnector
  pub new_acceptor : Identity → Result TlsAcceptor E

pub record X509PemBuilder : Type 0 where
  pub bytes : String

pub record PrivateKeyBuilder : Type 0 where
  pub bytes : String

pub record IdentityBuilder : Type 0 where
  pub bytes : String

module _ {E X K : Type 0} (crypto : Crypto E X K) where
  unfoldable pub build_x509 : X509PemBuilder → Result X (Failure E)
  build_x509 b = context "invalid cert" (crypto.x509_from_pem b.bytes)

  unfoldable pub build_key : PrivateKeyBuilder → Result K (Failure E)
  build_key b = context "invalid key" (crypto.private_key_from_pem b.bytes)

  unfoldable pub from_x509 : X509PemBuilder → PrivateKeyBuilder → Result IdentityBuilder (Failure E)
  unfolding build_x509 build_key
  from_x509 x509 key = try (build_key key) (λ server_key. try (build_x509 x509) (λ server_crt.
      try (context "Failed to create Pkcs12" (crypto.build2 server_key server_crt password))
        (λ p12. try (from_error (crypto.to_der p12)) (λ der. ok (record { bytes = der })))))

module _ {E : Type 0} (native : Native E) where
  open native use {Identity, Certificate, TlsConnector, TlsAcceptor}

  pub build_native : X509PemBuilder → Result Certificate (Failure E)
  build_native b = context "invalid pem file" (native.from_pem b.bytes)

  pub build_identity : IdentityBuilder → Result Identity (Failure E)
  build_identity b = context "Failed to load der" (native.from_pkcs12 b.bytes password)

  pub record ConnectorBuilder : Type 0 where
    pub inner : TlsConnector

  pub identity : IdentityBuilder → Result ConnectorBuilder (Failure E)
  unfolding build_identity
  identity builder =
      try (build_identity builder)
        (λ i. ok (record { inner = native.identity i native.new_connector }))

  pub anonymous : ConnectorBuilder
  anonymous = record {
    inner =
        native.accept_invalid_hostnames true
          (native.accept_invalid_certs true native.new_connector);
  }

  pub no_cert_verification : ConnectorBuilder → ConnectorBuilder
  no_cert_verification b = record { inner = native.accept_invalid_certs true b.inner }

  pub danger_accept_invalid_hostnames : ConnectorBuilder → ConnectorBuilder
  danger_accept_invalid_hostnames b = record {
    inner = native.accept_invalid_hostnames true b.inner;
  }

  pub use_sni : ConnectorBuilder → Bool → ConnectorBuilder
  use_sni b sni = record { inner = native.use_sni sni b.inner }

  pub add_root_certificate : ConnectorBuilder → X509PemBuilder → Result ConnectorBuilder (Failure E)
  unfolding build_native
  add_root_certificate b builder =
      try (build_native builder)
        (λ certificate. ok (record { inner = native.add_root_certificate certificate b.inner }))

  pub build_connector : ConnectorBuilder → TlsConnector
  build_connector b = b.inner

  pub record AcceptorBuilder : Type 0 where
    pub inner : Identity

  pub acceptor_identity : IdentityBuilder → Result AcceptorBuilder (Failure E)
  unfolding build_identity
  acceptor_identity builder = try (build_identity builder) (λ i. ok (record { inner = i }))

  pub build_acceptor : AcceptorBuilder → Result TlsAcceptor (Failure E)
  build_acceptor b = context "invalid cert" (native.new_acceptor b.inner)
