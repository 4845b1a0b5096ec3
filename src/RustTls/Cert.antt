-- ===== src/RustTls/Cert.antt =====
-- `cert` of src/rust_tls.rs: certificates, keys and root certificates are loaded from PEM files.
pub mod Loads
pub mod Trust
use future_aio.Base.{
  Failure, caused, in_context, message, try, attempt, context, from_error, more_context, String,
  List, [], ◌∷◌, ◌++◌, Result, ok, err, Outcome, returns, panics, ◌>>=◌,
}

-- `rustls_pemfile::Item`: the three kinds of keys with their bytes, and any other item.
pub data Item (K : Type 0) : Type 0 where
  pkcs1_key pkcs8_key sec1_key : K → Item K
  other_item : Item K

-- `PrivateKeyDer`.
pub data PrivateKeyDer (K : Type 0) : Type 0 where
  pkcs1 pkcs8 sec1 : K → PrivateKeyDer K

-- What the source uses of the file system and of the PEM parser. A reader is what `certs` and
-- `read_one` find in it: `items` are the answers of `read_one` up to its end.
pub record Pem (E K : Type 0) : Type 1 where
  pub Reader : Type 0
  pub CertificateDer : Type 0
  pub open_file : String → Result Reader E
  pub cursor : String → Reader
  pub certs : Reader → List (Result CertificateDer E)
  pub items : Reader → List (Result (Item K) E)

-- `RootCertStore`.
pub record Roots (E C : Type 0) : Type 1 where
  pub RootCertStore : Type 0
  pub empty : RootCertStore
  pub add : RootCertStore → C → Result RootCertStore E

module _ {E A : Type 0} where
  -- `map(|r| r.context(note)).collect()`.
  pub collect_context : String → List (Result A E) → Result (List A) (Failure E)
  collect_context note [] = ok []
  collect_context note (r ∷ rs) =
      try (context note r) (λ a. try (collect_context note rs) (λ rest. ok (a ∷ rest)))

module _ {E K : Type 0} where
  -- The `for` loop of `load_keys_from_reader`; `item.unwrap()` panics.
  keys_loop :
      List (PrivateKeyDer K)
      → List (Result (Item K) E)
      → Outcome (Result (List (PrivateKeyDer K)) (Failure E))
  keys_loop keys [] = returns (ok keys)
  keys_loop keys (err e ∷ rest) = panics
  keys_loop keys (ok (pkcs1_key key) ∷ rest) = keys_loop (keys ++ (pkcs1 key ∷ [])) rest
  keys_loop keys (ok (pkcs8_key key) ∷ rest) = keys_loop (keys ++ (pkcs8 key ∷ [])) rest
  keys_loop keys (ok (sec1_key key) ∷ rest) = keys_loop (keys ++ (sec1 key ∷ [])) rest
  keys_loop keys (ok other_item ∷ rest) = keys_loop keys rest

  -- `if keys.is_empty() ... else keys.remove(0)`.
  first_key : List (PrivateKeyDer K) → Result (PrivateKeyDer K) (Failure E)
  first_key [] = err (message "no keys found")
  first_key (key ∷ keys) = ok key

module _ {E C : Type 0} (roots : Roots E C) where
  open roots use {RootCertStore, empty, add}

  unfoldable pub add_all : RootCertStore → List C → Result RootCertStore (Failure E)
  add_all root_store [] = ok root_store
  add_all root_store (cert ∷ certs) =
      try (context "invalid ca crt" (add root_store cert)) (λ s. add_all s certs)

module _ {E K : Type 0} (pem : Pem E K) where
  open pem use {Reader, CertificateDer, open_file, certs, items}

  pub load_certs_from_reader : Reader → Result (List CertificateDer) (Failure E)
  unfolding collect_context
  load_certs_from_reader rd = collect_context "invalid cert" (certs rd)

  unfoldable pub load_certs : String → Result (List CertificateDer) (Failure E)
  unfolding load_certs_from_reader
  load_certs path = try (from_error (open_file path)) load_certs_from_reader

  pub load_keys_from_reader : Reader → Outcome (Result (List (PrivateKeyDer K)) (Failure E))
  unfolding keys_loop
  load_keys_from_reader rd = keys_loop [] (items rd)

  pub load_keys : String → Outcome (Result (List (PrivateKeyDer K)) (Failure E))
  unfolding load_keys_from_reader
  load_keys path = attempt (from_error (open_file path)) load_keys_from_reader

  pub load_first_key_from_reader : Reader → Outcome (Result (PrivateKeyDer K) (Failure E))
  unfolding load_keys_from_reader first_key
  load_first_key_from_reader rd = do
    keys ← load_keys_from_reader rd
    attempt keys (λ ks. returns (first_key ks))

  pub load_first_key : String → Outcome (Result (PrivateKeyDer K) (Failure E))
  unfolding load_first_key_from_reader
  load_first_key path = attempt (from_error (open_file path)) load_first_key_from_reader

  unfoldable pub load_root_ca :
      (roots : Roots E CertificateDer) → String → Result roots.RootCertStore (Failure E)
  unfolding load_certs add_all
  load_root_ca roots path =
      try (more_context "invalid ca crt" (load_certs path)) (λ cs. add_all roots roots.empty cs)
