-- ===== src/Openssl/Acceptor.antt =====
-- src/openssl/acceptor.rs: the acceptor of TLS connections and its builder.
use future_aio.Base.{ℕ, String, List, Option, Result, ok, Outcome, Failure, try, from_error}
use future_aio.Openssl.Context.{SslContext, in_turn, add_chain}
use future_aio.Openssl.Wrapper.{AsyncToSyncWrapper}
use future_aio.Openssl.Wrapper
use future_aio.Openssl.Handshake.{Ssl, Step, initial, await}

module _ {E X K : Type 0} (ssl : SslContext E X K) where
  open ssl use {Context, VerifyMode}

  pub record TlsAcceptorBuilder : Type 0 where
    pub inner : Context

  -- The builder with what is inside replaced.
  abbrev rebuilt : Result Context (Failure E) → Result TlsAcceptorBuilder (Failure E)
  rebuilt r = try r (λ c. ok (record { inner = c }))

  pub builder : Result TlsAcceptorBuilder (Failure E)
  builder = rebuilt (from_error ssl.acceptor_builder)

  pub with_certifiate_and_key_from_pem_files :
      TlsAcceptorBuilder → String → String → Result TlsAcceptorBuilder (Failure E)
  with_certifiate_and_key_from_pem_files b cert_file key_file =
      rebuilt (
        in_turn ssl (ssl.set_certificate_file cert_file) (ssl.set_private_key_file key_file)
          b.inner)

  pub with_certifiate_and_key : TlsAcceptorBuilder → X → K → Result TlsAcceptorBuilder (Failure E)
  with_certifiate_and_key b cert key =
      rebuilt (in_turn ssl (ssl.set_certificate cert) (ssl.set_private_key key) b.inner)

  unfoldable pub with_chain : TlsAcceptorBuilder → List X → Result TlsAcceptorBuilder (Failure E)
  with_chain b chain = rebuilt (add_chain ssl chain b.inner)

  pub with_ca_from_pem_file : TlsAcceptorBuilder → String → Result TlsAcceptorBuilder (Failure E)
  with_ca_from_pem_file b ca_file = rebuilt (from_error (ssl.set_ca_file ca_file b.inner))

  pub with_ssl_verify_mode : TlsAcceptorBuilder → VerifyMode → TlsAcceptorBuilder
  with_ssl_verify_mode b mode = record b { inner = ssl.set_verify mode b.inner }

-- `TlsAcceptor`: what is inside starts a handshake on a stream.
pub record TlsAcceptor (S T M F : Type 0) : Type 0 where
  pub start : AsyncToSyncWrapper S → Outcome (Step T M F)

-- `accept`, awaited with the context `cx` on fuel.
unfoldable pub accept :
    {S T M F : Type 0}
    → Ssl S T M F
    → ℕ
    → ℕ
    → TlsAcceptor S T M F
    → S
    → Option (Outcome (Result T F))
accept handshakes fuel cx acceptor stream =
    await handshakes fuel cx (initial acceptor.start (Wrapper.new stream))

-- `build`, with the `build` of openssl for what is inside.
pub build_acceptor :
    {E X K S T M F : Type 0} {ssl : SslContext E X K}
    → (ssl.Context → AsyncToSyncWrapper S → Outcome (Step T M F))
    → TlsAcceptorBuilder ssl
    → TlsAcceptor S T M F
build_acceptor built b = record { start = built b.inner }
