-- ===== src/Openssl/Context.antt =====
-- What the builders of src/openssl/acceptor.rs and src/openssl/connector.rs share, and
-- src/openssl/certificate.rs.
pub mod Chain
use future_aio.Base.{String, List, [], ◌∷◌, Result, ok, err, Failure, try, from_error}
use future_aio.Openssl.Certs.{Crypto}

-- `SslContextBuilder`, which both builders of `openssl` are under their names, for certificates of
-- type `X` and keys of type `K`: its calls change it or fail. The two builders start it.
pub record SslContext (E X K : Type 0) : Type 1 where
  pub Context : Type 0
  pub VerifyMode : Type 0
  pub verify_none : VerifyMode
  pub connector_builder : Result Context E
  pub acceptor_builder : Result Context E
  pub set_verify : VerifyMode → Context → Context
  pub set_certificate_file : String → Context → Result Context E
  pub set_private_key_file : String → Context → Result Context E
  pub set_ca_file : String → Context → Result Context E
  pub set_certificate : X → Context → Result Context E
  pub set_private_key : K → Context → Result Context E
  pub add_extra_chain_cert : X → Context → Result Context E
  pub add_cert : X → Context → Result Context E

pub record Certificate (X : Type 0) : Type 0 where
  pub inner : X

-- `Certificate::from_pem`.
pub from_pem : {E X K : Type 0} → Crypto E X K → String → Result (Certificate X) (Failure E)
from_pem crypto bytes =
    try (from_error (crypto.x509_from_pem bytes)) (λ x. ok (record { inner = x }))

pub from_der : {E X K : Type 0} → Crypto E X K → String → Result (Certificate X) (Failure E)
from_der crypto bytes =
    try (from_error (crypto.x509_from_der bytes)) (λ x. ok (record { inner = x }))

pub to_der : {E X K : Type 0} → Crypto E X K → Certificate X → Result String (Failure E)
to_der crypto c = try (from_error (crypto.x509_to_der c.inner)) (λ der. ok der)

module _ {E X K : Type 0} (ssl : SslContext E X K) where
  open ssl use {Context}

  -- `f(...)?; g(...)?;` on the builder inside.
  abbrev pub in_turn :
      (Context → Result Context E)
      → (Context → Result Context E)
      → Context
      → Result Context (Failure E)
  in_turn f g c = try (from_error (f c)) (λ d. from_error (g d))

  -- `for cert in chain { self.inner.add_extra_chain_cert(cert)?; }`.
  unfoldable pub add_chain : List X → Context → Result Context (Failure E)
  add_chain [] c = ok c
  add_chain (x ∷ xs) c = try (from_error (ssl.add_extra_chain_cert x c)) (λ d. add_chain xs d)
