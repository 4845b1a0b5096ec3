-- ===== src/RustTls/Tests.antt =====
-- Certificates, configurations and connections at examples.
use future_aio.Base.{
  ℕ, String, ◌≡◌, refl, sym, some, true, ◌==◌, if◌then◌else◌, List, [], ◌∷◌, ◌++◌, Result, ok, err,
  ok-injective, returns, panics,
}
use future_aio.Net.Calls.{pure}
use future_aio.Net.TcpStream.{stream}
use future_aio.Net.Loopback.{Net, fresh, loopback}
use future_aio.Net.Connector.Derived.{Change, cloned, renamed, derived, last_domain}
use future_aio.Net.Connector.Secure.{Secured}
use future_aio.RustTls.Verifier.{ServerCertVerifier}
use future_aio.RustTls.Cert.{
  Item, pkcs8_key, other_item, pkcs8, Pem, Roots, load_keys_from_reader, load_first_key_from_reader,
  load_root_ca, load_certs, add_all,
}
use future_aio.RustTls.Cert.Loads.{load_keys_from_reader-all_keys}
use future_aio.RustTls.Cert.Trust.{IsStore, Trusts, load_root_ca-Trusts}
use future_aio.RustTls.Builder.{
  Rustls, no_client_auth, no_cert_verification, build_connector, client_authenticate, load_ca_cert,
  load_ca_cert_from_bytes, load_client_certs, load_client_certs_from_bytes,
}
use future_aio.RustTls.Builder.Sources.{kept, map_kept, files_and_bytes, load_ca_cert-load_root_ca}
use future_aio.RustTls.Builder.Servers.{Server, Verified, Holds, clients_verify, same_roots_trusted}
use future_aio.RustTls.Connector.{
  ClientTls, connect_domain, connect_anonymous, new, from, domain_connector, anonymous_connector,
}
use future_aio.RustTls.Connector.Connects.{handshake, rustls_connects-Secured}

-- A reader is its certificates and its items; all files are the same.
abbrev Reader : Type 0
Reader = List (Result ℕ ℕ) × List (Result (Item ℕ) ℕ)

abbrev file : Reader
file = (ok 21 ∷ ok 22 ∷ [], ok other_item ∷ ok (pkcs8_key 5) ∷ [])

abbrev damaged : Reader
damaged = ([], ok (pkcs8_key 5) ∷ err 1 ∷ [])

abbrev pem : Pem ℕ ℕ
pem = record {
  Reader = Reader;
  CertificateDer = ℕ;
  open_file = λ path. ok file;
  cursor = λ bytes. file;
  certs = λ r. r.0;
  items = λ r. r.1;
}

abbrev roots : Roots ℕ ℕ
roots = record { RootCertStore = List ℕ; empty = []; add = λ s c. ok (s ++ (c ∷ [])) }

roots-IsStore : IsStore roots
roots-IsStore = record {
  held = λ s. s;
  held_empty = refl;
  held_add = λ s s' c h. sym (ok-injective h);
}

-- A client configuration is the verifier of servers, and the client's certificates; a certificate
-- is a number, and signs itself.
abbrev Verifier : Type 0
Verifier = ServerCertVerifier ℕ String ℕ ℕ ℕ

abbrev issued : List ℕ → ℕ → List ℕ → String → String → ℕ → Result (Unit {0}) ℕ
issued [] c cs name ocsp now = err c
issued (root ∷ rs) c cs name ocsp now = if root == c then ok tt else issued rs c cs name ocsp now

abbrev self_signed : String → ℕ → ℕ → Result (Unit {0}) ℕ
self_signed message c signature = if c == signature then ok tt else err c

abbrev rooted : List ℕ → Verifier
rooted trusted = record {
  verify_server_cert = issued trusted;
  verify_tls12_signature = self_signed;
  verify_tls13_signature = self_signed;
  supported_verify_schemes = [];
}

abbrev tls : Rustls ℕ ℕ ℕ (List ℕ)
tls = record {
  ClientVerifier = Unit {0};
  ClientCert = Verifier;
  ClientConfig = Verifier × List ℕ;
  ServerVerifier = Unit {0};
  ServerCert = List ℕ;
  ServerConfig = List ℕ × List ℕ;
  WebPkiVerifier = List ℕ;
  ServerName = String;
  Signature = ℕ;
  SignatureScheme = ℕ;
  TlsConnector = Verifier × List ℕ;
  TlsAcceptor = List ℕ × List ℕ;
  supported_schemes = [];
  client = λ c. c;
  server = λ c. c;
  client_builder = tt;
  with_root_certificates = λ v s. rooted s;
  with_custom_certificate_verifier = λ v w. w;
  with_client_auth_cert = λ c certs key. ok (c, certs);
  with_no_client_auth = λ c. (c, []);
  server_builder = tt;
  without_client_auth = λ v. [];
  verifier = λ s. ok s;
  with_client_cert_verifier = λ v w. w;
  with_single_cert = λ c certs key. ok (c, certs);
}

load_keys_from_reader-all_keys_example :
    (load_keys_from_reader pem file ≡ returns (ok (pkcs8 5 ∷ [])))
    × (load_first_key_from_reader pem file ≡ returns (ok (pkcs8 5)))
load_keys_from_reader-all_keys_example = load_keys_from_reader-all_keys pem file

damaged_first_key :
    (load_keys_from_reader pem damaged ≡ panics) × (load_first_key_from_reader pem damaged ≡ panics)
damaged_first_key = load_keys_from_reader-all_keys pem damaged

roots_of_file : Trusts pem roots roots-IsStore "ca.crt" (load_root_ca pem roots "ca.crt")
roots_of_file = load_root_ca-Trusts pem roots roots-IsStore "ca.crt"

file_or_bytes :
    (load_ca_cert pem roots tls tt "ca.crt" ≡ load_ca_cert_from_bytes pem roots tls tt "ca")
    × (load_client_certs pem roots tls (rooted []) "client.crt" "client.key"
        ≡ load_client_certs_from_bytes pem roots tls (rooted []) "client" "key")
file_or_bytes =
    files_and_bytes pem roots tls tt (rooted []) "ca.crt" "client.crt" "client.key" "ca" "client"
      "key" refl refl refl

one_loader :
    kept (load_ca_cert pem roots tls tt "ca.crt")
    ≡ map_kept rooted (kept (load_root_ca pem roots "ca.crt"))
one_loader = load_ca_cert-load_root_ca pem roots tls tt "ca.crt"

-- A server that the authorities of the file did not issue.
abbrev stranger : Server ℕ String ℕ
stranger = record {
  end_entity = 99;
  intermediates = [];
  name = "example.org";
  ocsp_response = "";
  now = 0;
  tls13 = true;
  message = "hello";
  signature = 1;
}

loaded : load_ca_cert pem roots tls tt "ca.crt" ≡ ok (rooted (21 ∷ 22 ∷ []))
unfolding load_ca_cert load_certs
loaded = refl

authenticating : client_authenticate pem roots tls tt "ca.crt" ≡ ok (21 ∷ 22 ∷ [])
unfolding client_authenticate load_root_ca load_certs add_all
authenticating = refl

clients_verify_example :
    ((v : Verifier) × (build_connector pem roots tls (no_cert_verification pem roots tls tt)
        ≡ (v, []))
      × Verified v stranger
      × (v.supported_verify_schemes ≡ []))
    × ((r : List ℕ) × Holds pem roots tls roots-IsStore "ca.crt" r
        × (build_connector pem roots tls (no_client_auth pem roots tls (rooted (21 ∷ 22 ∷ [])))
            ≡ (rooted r, [])))
clients_verify_example =
    clients_verify pem roots tls roots-IsStore tt "ca.crt" (rooted (21 ∷ 22 ∷ [])) stranger loaded

same_roots_trusted_example :
    (r v : List ℕ) × Holds pem roots tls roots-IsStore "ca.crt" r
    × (load_ca_cert pem roots tls tt "ca.crt" ≡ ok (rooted r))
    × (◌≡◌ {A = Result (List ℕ) ℕ} (ok r) (ok v))
    × (21 ∷ 22 ∷ [] ≡ v)
same_roots_trusted_example =
    same_roots_trusted pem roots tls roots-IsStore tt tt "ca.crt" (21 ∷ 22 ∷ []) authenticating

abbrev client : ClientTls Net ℕ
client = record {
  TlsConnector = Unit {0};
  ServerName = String;
  TlsStream = ℕ;
  ReadHalf = ℕ;
  WriteHalf = ℕ;
  try_from = λ name. some name;
  connect = λ c name tcp. pure tcp;
  split = λ s. (s, s);
}

abbrev passed_on : List Change
passed_on = renamed "example.net" ∷ cloned ∷ renamed "example.org" ∷ []

rustls_connection :
    Secured
      (stream loopback "127.0.0.1:9998")
      (handshake loopback client tt (some "example.org"))
      loopback.as_raw_fd
      client.split
      fresh
      (connect_domain loopback client
        (derived
          (domain_connector loopback client)
          passed_on
          (new loopback client tt "example.com"))
        "127.0.0.1:9998"
        fresh)
    × (connect_anonymous loopback client
          (derived (anonymous_connector loopback client) passed_on (from loopback client tt))
          "127.0.0.1:9998"
          fresh
        ≡ connect_domain loopback client
            (new loopback client tt "127.0.0.1:9998")
            "127.0.0.1:9998"
            fresh)
unfolding last_domain
rustls_connection =
    rustls_connects-Secured loopback client tt passed_on "example.com" "127.0.0.1:9998" fresh
