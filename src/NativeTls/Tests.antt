-- ===== src/NativeTls/Tests.antt =====
-- Connections at an example.
use future_aio.Base.{ℕ, String, List, [], ◌∷◌, ◌≡◌, refl, sym, ◌∙◌, some, none, ok, ok-injective}
use future_aio.Net.Calls.{pure}
use future_aio.Net.TcpStream.{prompt_opts, stream, stream_with_opts}
use future_aio.Net.Loopback.{Net, fresh, loopback}
use future_aio.Net.Connector.Derived.{Change, cloned, renamed, derived, last_domain}
use future_aio.Net.Connector.Secure.{Secured}
use future_aio.Openssl.Certs.{Crypto}
use future_aio.NativeTls.Builder.{Native, X509PemBuilder, PrivateKeyBuilder, from_x509}
use future_aio.NativeTls.Builder.Identities.{Interoperates, Restored, from_x509-Restored}
use future_aio.NativeTls.Connector.{
  NativeTls, connect_domain, connect_anonymous, new, from, domain_connector, anonymous_connector,
}
use future_aio.NativeTls.Connector.Connects.{handshake, native_connects-Secured}

abbrev client : NativeTls Net ℕ
client = record {
  TlsConnector = Unit {0};
  TlsStream = ℕ;
  TlsError = ℕ;
  ReadHalf = ℕ;
  WriteHalf = ℕ;
  connect = λ c name tcp. pure tcp;
  split = λ s. (s, s);
}

abbrev passed_on : List Change
passed_on = cloned ∷ renamed "example.net" ∷ cloned ∷ renamed "example.org" ∷ []

native_connects-Secured_example :
    Secured
      (stream_with_opts loopback "127.0.0.1:9998" (some prompt_opts))
      (handshake loopback client tt "example.org")
      loopback.as_raw_fd
      client.split
      fresh
      (connect_domain loopback client
        (derived
          (domain_connector loopback client)
          passed_on
          (new loopback client tt "example.com"))
        "127.0.0.1:9998"
        fresh)
    × Secured
        (stream loopback "127.0.0.1:9998")
        (handshake loopback client tt "127.0.0.1:9998")
        loopback.as_raw_fd
        client.split
        fresh
        (connect_anonymous loopback client
          (derived (anonymous_connector loopback client) passed_on (from loopback client tt))
          "127.0.0.1:9998"
          fresh)
unfolding last_domain
native_connects-Secured_example =
    native_connects-Secured loopback client tt passed_on "example.com" "127.0.0.1:9998" fresh

-- An archive is the text of its certificate, and so is an identity.
abbrev crypto : Crypto ℕ String (Unit {0})
crypto = record {
  Pkcs12 = String;
  read_file = λ path. ok path;
  x509_from_pem = λ bytes. ok bytes;
  x509_from_der = λ der. ok der;
  x509_to_der = λ cert. ok cert;
  private_key_from_pem = λ bytes. ok tt;
  build2 = λ key cert pass. ok cert;
  to_der = λ p. ok p;
  from_der = λ der. ok der;
  parse2 = λ p pass. ok (record { pkey = some tt; cert = some p; ca = none });
}

abbrev platform : Native ℕ
platform = record {
  Identity = String;
  Certificate = String;
  TlsConnector = String;
  TlsAcceptor = String;
  from_pkcs12 = λ der pass. ok der;
  from_pem = λ pem. ok pem;
  new_connector = "";
  identity = λ i c. i;
  accept_invalid_certs = λ accept c. c;
  accept_invalid_hostnames = λ accept c. c;
  use_sni = λ sni c. c;
  add_root_certificate = λ cert c. c;
  new_acceptor = λ i. ok i;
}

platform-Interoperates : Interoperates crypto platform
platform-Interoperates = record {
  Holds = λ i key cert. i ≡ cert;
  reads = λ key cert pass der p h k. (der, refl, sym (ok-injective k) ∙ sym (ok-injective h));
}

abbrev pem : X509PemBuilder
pem = record { bytes = "certificate" }

abbrev key : PrivateKeyBuilder
key = record { bytes = "key" }

made : from_x509 crypto pem key ≡ ok (record { bytes = "certificate" })
unfolding from_x509
made = refl

from_x509-Restored_example :
    Restored crypto platform platform-Interoperates pem key (record { bytes = "certificate" })
from_x509-Restored_example =
    from_x509-Restored crypto platform platform-Interoperates pem key
      (record { bytes = "certificate" }) made
