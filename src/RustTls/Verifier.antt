-- ===== src/RustTls/Verifier.antt =====
-- `NoCertificateVerification` of src/rust_tls.rs: a verifier of servers that refuses none.
use future_aio.Base.{ℕ, String, List, Result, ok}

-- The trait `ServerCertVerifier` of `rustls`. Names, signatures and schemes are types of it; the
-- answer of the OCSP and a message are strings, and the time is a number.
pub record ServerCertVerifier (C Name Signature Scheme E : Type 0) : Type 0 where
  pub verify_server_cert : C → List C → Name → String → ℕ → Result (Unit {0}) E
  pub verify_tls12_signature : String → C → Signature → Result (Unit {0}) E
  pub verify_tls13_signature : String → C → Signature → Result (Unit {0}) E
  pub supported_verify_schemes : List Scheme

verify_server_cert : {C Name E : Type 0} → C → List C → Name → String → ℕ → Result (Unit {0}) E
verify_server_cert end_entity intermediates server_name ocsp_response now = ok tt

verify_tls12_signature : {C Signature E : Type 0} → String → C → Signature → Result (Unit {0}) E
verify_tls12_signature message cert dss = ok tt

verify_tls13_signature : {C Signature E : Type 0} → String → C → Signature → Result (Unit {0}) E
verify_tls13_signature message cert dss = ok tt

-- `supported_schemes` are those of the default provider.
unfoldable pub no_certificate_verification :
    {C Name Signature Scheme E : Type 0}
    → List Scheme
    → ServerCertVerifier C Name Signature Scheme E
unfolding verify_server_cert verify_tls12_signature verify_tls13_signature
no_certificate_verification supported_schemes = record {
  verify_server_cert = verify_server_cert;
  verify_tls12_signature = verify_tls12_signature;
  verify_tls13_signature = verify_tls13_signature;
  supported_verify_schemes = supported_schemes;
}
