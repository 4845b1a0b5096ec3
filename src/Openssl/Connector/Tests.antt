-- ===== src/Openssl/Connector/Tests.antt =====
-- Identities and connections at examples.
use future_aio.Base.{
  ℕ, zero, suc, ◌≤◌, ◌≡◌, ◌≢◌, refl, sym, ap, String, true, Option, none, some, List, [], ◌∷◌, ◌++◌,
  Result, ok, ok-injective, Outcome, returns, Failure, arith,
}
use future_aio.Net.TcpStream.{prompt_opts, stream, stream_with_opts}
use future_aio.Net.Loopback.{fresh, loopback}
use future_aio.Openssl.Certs.{
  Parsed, Crypto, X509PemBuilder, PrivateKeyBuilder, IdentityBuilder, from_x509, build, flattened,
}
use future_aio.Openssl.Certs.Identities.{IsCrypto, Restored, from_x509-build}
use future_aio.Openssl.Context.{SslContext, add_chain}
use future_aio.Openssl.Context.Chain.{IsContext}
use future_aio.Openssl.Connector.{
  TlsConnectorBuilder, SslConnector, TlsConnector, with_identity, installed, reversed, connect,
}
use future_aio.Openssl.Connector.Installs.{WithIdentity, with_identity-Installed}
use future_aio.Openssl.Wrapper.{AsyncToSyncWrapper}
use future_aio.Openssl.Handshake.{Step, Ssl}
use future_aio.Openssl.Handshake
use future_aio.Openssl.Handshake.Progress.{Gives, IsSsl, Ends}
use future_aio.Openssl.Acceptor.{TlsAcceptor, accept}
use future_aio.Openssl.Connector.Connects.{connect_and_accept-Ends}
use future_aio.Openssl.Connector.Domain.{connect_domain, connect_anonymous, from, new, new_domain}
use future_aio.Openssl.Connector.Domain.Answers.{Answered, openssl_connects-Answered}

-- There is one key, a certificate is its own text, and an archive is its certificate.
abbrev crypto : Crypto ℕ String (Unit {0})
crypto = record {
  Pkcs12 = String;
  read_file = λ path. ok path;
  x509_from_pem = λ bytes. ok bytes;
  x509_from_der = λ der. ok der;
  x509_to_der = λ cert. ok cert;
  private_key_from_pem = λ bytes. ok tt;
  build2 = λ key cert pass. ok cert;
  to_der = λ p. ok p;
  from_der = λ der. ok der;
  parse2 = λ p pass. ok (record { pkey = some tt; cert = some p; ca = none });
}

crypto-IsCrypto : IsCrypto crypto
unfolding flattened
crypto-IsCrypto = record {
  reads_back = λ p der h. sym h;
  holds = λ key cert pass p h. (
    none,
    refl,
    ap {B = Result (Parsed String (Unit {0})) ℕ}
        (λ x. ok (record { pkey = some tt; cert = some x; ca = none })) (sym (ok-injective h)),
  );
}

abbrev pem : X509PemBuilder
pem = record { bytes = "certificate" }

abbrev key : PrivateKeyBuilder
key = record { bytes = "key" }

abbrev identity : IdentityBuilder
identity = record { bytes = "certificate" }

made : from_x509 crypto pem key ≡ ok identity
unfolding from_x509
made = refl

from_x509-build_example : Restored crypto pem key (ok identity)
from_x509-build_example = from_x509-build crypto crypto-IsCrypto pem key identity made

-- The certificate, the key and the chain of a context.
abbrev Context : Type 0
Context = Option String × Option (Unit {0}) × List String

abbrev context : SslContext ℕ String (Unit {0})
context = record {
  Context = Context;
  VerifyMode = Unit {0};
  verify_none = tt;
  connector_builder = ok (none, none, []);
  acceptor_builder = ok (none, none, []);
  set_verify = λ mode c. c;
  set_certificate_file = λ path c. ok (some path, c.1, c.2);
  set_private_key_file = λ path c. ok (c.0, some tt, c.2);
  set_ca_file = λ path c. ok c;
  set_certificate = λ x c. ok (some x, c.1, c.2);
  set_private_key = λ k c. ok (c.0, some k, c.2);
  add_extra_chain_cert = λ x c. ok (c.0, c.1, c.2 ++ (x ∷ []));
  add_cert = λ x c. ok c;
}

-- A part of the context that a setter leaves.
part :
    {A : Type 0} (f : Context → A) (c d : Context)
    → ◌≡◌ {A = Result Context ℕ} (ok c) (ok d)
    → f d ≡ f c
part f c d h = ap f (sym (ok-injective h))

context-IsContext : IsContext context
context-IsContext = record {
  certificate = λ c. c.0;
  private_key = λ c. c.1;
  chain = λ c. c.2;
  sets_certificate =
      λ x c d h. (part (λ e. e.0) (some x, c.1, c.2) d h, part (λ e. e.2) (some x, c.1, c.2) d h);
  sets_private_key = λ k c d h. (
    part (λ e. e.1) (c.0, some k, c.2) d h,
    part (λ e. e.0) (c.0, some k, c.2) d h,
    part (λ e. e.2) (c.0, some k, c.2) d h,
  );
  adds_chain = λ x c d h. (
    part (λ e. e.2) (c.0, c.1, c.2 ++ (x ∷ [])) d h,
    part (λ e. e.0) (c.0, c.1, c.2 ++ (x ∷ [])) d h,
    part (λ e. e.1) (c.0, c.1, c.2 ++ (x ∷ [])) d h,
  );
}

abbrev blank : TlsConnectorBuilder context
blank = record { inner = (none, none, []); verify_hostname = true; allow_partial = true }

abbrev with_client : TlsConnectorBuilder context
with_client = record blank { inner = (some "certificate", some tt, []) }

installs : with_identity context crypto blank identity ≡ ok with_client
unfolding with_identity installed build add_chain reversed
installs = refl

with_identity-Installed_example :
    WithIdentity context context-IsContext crypto blank identity (ok with_client)
with_identity-Installed_example =
    with_identity-Installed context context-IsContext crypto blank with_client identity installs

-- A handshake that waits for some rounds.
record Mid : Type 0 where
  left : ℕ
  wrapper : AsyncToSyncWrapper ℕ

abbrev Steps : Type 0
Steps = Step (AsyncToSyncWrapper ℕ) Mid (Failure ℕ)

abbrev shake : ℕ → AsyncToSyncWrapper ℕ → Outcome Steps
shake zero w = returns (Handshake.stream w)
shake (suc n) w = returns (Handshake.blocked (record { left = n; wrapper = w }))

abbrev engine : Ssl ℕ (AsyncToSyncWrapper ℕ) Mid (Failure ℕ)
engine = record {
  stream_wrapper = λ t. t;
  put_stream = λ t w. w;
  mid_wrapper = λ m. m.wrapper;
  put_mid = λ m w. record m { wrapper = w };
  handshake = λ m. shake m.left m.wrapper;
}

abbrev rounds : Mid → ℕ
rounds m = m.left

shake-Gives :
    (n bound : ℕ) (w : AsyncToSyncWrapper ℕ)
    → n ≤ bound
    → w.context ≢ 0
    → Gives engine rounds bound (shake n w)
shake-Gives zero bound w h c = c
shake-Gives (suc n) bound w h c = (c, h)

engine-IsSsl : IsSsl engine rounds
engine-IsSsl = record {
  stream_put = λ t w. refl;
  mid_put = λ m w. refl;
  rounds_put = λ m w. refl;
  handshake_gives = λ m c. shake-Gives m.left m.left m.wrapper (omega arith) c;
}

abbrev ssl_connector : SslConnector ℕ ℕ (AsyncToSyncWrapper ℕ) Mid
ssl_connector = record {
  Connector = Unit {0};
  Configuration = Unit {0};
  configure = λ c. ok tt;
  verify_hostname = λ b k. k;
  set_partial_chain = λ k. ok k;
  start = λ k domain. shake 2;
}

abbrev tls : TlsConnector ssl_connector engine
tls = record { inner = tt; verify_hostname = true; allow_partial = true }

abbrev acceptor : TlsAcceptor ℕ (AsyncToSyncWrapper ℕ) Mid (Failure ℕ)
acceptor = record { start = shake 1 }

cx_nonzero : ◌≢◌ {A = ℕ} 64 0
cx_nonzero h = omega arith

connect_and_accept-Ends_example :
    Ends engine rounds (connect ssl_connector engine 3 64 tls "localhost" 7)
    × Ends engine rounds (accept engine 3 64 acceptor 7)
connect_and_accept-Ends_example =
    connect_and_accept-Ends engine rounds engine-IsSsl ssl_connector 3 64 2 tls "localhost" acceptor
      7 cx_nonzero (omega arith) (λ k v c. shake-Gives 2 2 v (omega arith) c)
      (λ v c. shake-Gives 1 2 v (omega arith) c)

abbrev halves : AsyncToSyncWrapper ℕ → ℕ × ℕ
halves t = (t.inner, t.inner)

openssl_connects-Answered_example :
    Answered loopback ssl_connector engine halves 3 64 tls "example.org"
      (stream loopback "127.0.0.1:9998" fresh)
      (connect_domain loopback ssl_connector engine halves 3 64
        (new_domain loopback ssl_connector engine halves
          (new loopback ssl_connector engine halves tls "example.com")
          "example.org")
        "127.0.0.1:9998"
        fresh)
    × Answered loopback ssl_connector engine halves 3 64 tls "127.0.0.1:9998"
        (stream_with_opts loopback "127.0.0.1:9998" (some prompt_opts) fresh)
        (connect_anonymous loopback ssl_connector engine halves 3 64
          (from loopback ssl_connector engine halves tls)
          "127.0.0.1:9998"
          fresh)
openssl_connects-Answered_example =
    openssl_connects-Answered loopback ssl_connector engine halves rounds engine-IsSsl 3 64 2 tls
      "example.org" "example.com" "127.0.0.1:9998" fresh cx_nonzero (omega arith)
      (λ k v c. shake-Gives 2 2 v (omega arith) c) (λ k v c. shake-Gives 2 2 v (omega arith) c)
