-- ===== src/Openssl/Connector.antt =====
-- src/openssl/connector.rs: the connector of TLS connections and its builder.
pub mod Domain
pub mod Installs
pub mod Connects
mod Tests
use future_aio.Base.{
  ℕ, String, Bool, true, false, List, [], ◌∷◌, ◌++◌, Option, some, Result, ok, err, Outcome,
  returns, Failure, try, from_error, in_context, caused, if◌then◌else◌, more_context,
}
use future_aio.Openssl.Certs.{Crypto, Identity, IdentityBuilder, build}
use future_aio.Openssl.Context.{SslContext, Certificate, in_turn, add_chain}
use future_aio.Openssl.Wrapper.{AsyncToSyncWrapper}
use future_aio.Openssl.Wrapper
use future_aio.Openssl.Handshake.{Ssl, Step, HandshakeFuture, initial, await}

-- `iter().rev()`.
pub reversed : {A : Type 0} → List A → List A
reversed [] = []
reversed (x ∷ xs) = reversed xs ++ (x ∷ [])

module _ {E X K : Type 0} (ssl : SslContext E X K) where
  open ssl use {Context}

  pub record TlsConnectorBuilder : Type 0 where
    pub inner : Context
    pub verify_hostname : Bool
    pub allow_partial : Bool

  abbrev with_inner :
      TlsConnectorBuilder → Result Context (Failure E) → Result TlsConnectorBuilder (Failure E)
  with_inner b r = try r (λ c. ok (record b { inner = c }))

  pub builder : Result TlsConnectorBuilder (Failure E)
  builder =
      try (from_error ssl.connector_builder)
        (λ c. ok (record { inner = c; verify_hostname = true; allow_partial = true }))

  pub with_hostname_verification_disabled :
      TlsConnectorBuilder → Result TlsConnectorBuilder (Failure E)
  with_hostname_verification_disabled b = ok (record b { verify_hostname = false })

  pub with_certificate_verification_disabled :
      TlsConnectorBuilder → Result TlsConnectorBuilder (Failure E)
  with_certificate_verification_disabled b =
      ok (record b { inner = ssl.set_verify ssl.verify_none b.inner })

  pub with_certifiate_and_key_from_pem_files :
      TlsConnectorBuilder → String → String → Result TlsConnectorBuilder (Failure E)
  with_certifiate_and_key_from_pem_files b cert_file key_file =
      with_inner b (
        in_turn ssl (ssl.set_certificate_file cert_file) (ssl.set_private_key_file key_file)
          b.inner)

  pub with_ca_from_pem_file : TlsConnectorBuilder → String → Result TlsConnectorBuilder (Failure E)
  with_ca_from_pem_file b ca_file = with_inner b (from_error (ssl.set_ca_file ca_file b.inner))

  pub add_root_certificate :
      TlsConnectorBuilder → Certificate X → Result TlsConnectorBuilder (Failure E)
  add_root_certificate b cert = with_inner b (from_error (ssl.add_cert cert.inner b.inner))

  -- What is done with the identity.
  installed : TlsConnectorBuilder → Identity X K → Result TlsConnectorBuilder (Failure E)
  unfolding reversed
  installed b identity = with_inner b (
      try
        (in_turn ssl (ssl.set_certificate identity.cert) (ssl.set_private_key identity.pkey)
          b.inner)
        (λ c. add_chain ssl (reversed identity.chain) c))

  pub with_identity :
      Crypto E X K → TlsConnectorBuilder → IdentityBuilder → Result TlsConnectorBuilder (Failure E)
  unfolding installed
  with_identity crypto b identity =
      try (more_context "failed to build identity" (build crypto identity)) (installed b)

-- `SslConnector` and its `ConnectConfiguration`.
pub record SslConnector (E S T M : Type 0) : Type 1 where
  pub Connector : Type 0
  pub Configuration : Type 0
  pub configure : Connector → Result Configuration E
  pub verify_hostname : Bool → Configuration → Configuration
  pub set_partial_chain : Configuration → Result Configuration E
  pub start : Configuration → String → AsyncToSyncWrapper S → Outcome (Step T M (Failure E))

module _ {E S T M : Type 0} (tls : SslConnector E S T M) (handshakes : Ssl S T M (Failure E)) where
  open tls use {Connector, Configuration}

  pub record TlsConnector : Type 0 where
    pub inner : Connector
    pub verify_hostname : Bool
    pub allow_partial : Bool

  -- `param_mut().set_flags(X509VerifyFlags::PARTIAL_CHAIN)?`, if it is allowed.
  partial : Bool → Configuration → Result Configuration E
  partial allow c = if allow then tls.set_partial_chain c else ok c

  pub configured : TlsConnector → Result Configuration (Failure E)
  unfolding partial
  configured c = try (from_error (tls.configure c.inner)) (λ configuration.
      from_error (partial c.allow_partial (tls.verify_hostname c.verify_hostname configuration)))

  started :
      ℕ
      → ℕ
      → String
      → S
      → Result Configuration (Failure E)
      → Option (Outcome (Result T (Failure E)))
  started fuel cx domain stream (err f) = some (returns (err f))
  started fuel cx domain stream (ok configuration) =
      await handshakes fuel cx (initial (tls.start configuration domain) (Wrapper.new stream))

  -- `connect`, awaited with the context `cx` on fuel.
  pub connect : ℕ → ℕ → TlsConnector → String → S → Option (Outcome (Result T (Failure E)))
  unfolding started configured
  connect fuel cx c domain stream = started fuel cx domain stream (configured c)

-- `build`, with the `build` of openssl for what is inside.
pub build_connector :
    {E X K S T M : Type 0} {ssl : SslContext E X K} {tls : SslConnector E S T M}
    {handshakes : Ssl S T M (Failure E)}
    → (ssl.Context → tls.Connector)
    → TlsConnectorBuilder ssl
    → TlsConnector tls handshakes
build_connector built b = record {
  inner = built b.inner;
  verify_hostname = b.verify_hostname;
  allow_partial = b.allow_partial;
}
