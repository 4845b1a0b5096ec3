-- ===== src/Openssl/Certs.antt =====
-- `certs` of src/openssl/connector.rs, with `CertBuilder` of src/net/mod.rs: certificates, keys and
-- identities are made of bytes. The bytes are a string.
pub mod Identities
use future_aio.Base.{
  String, List, [], Option, none, some, Result, ok, err, Failure, message, try, context, from_error,
  more_context,
}

abbrev pub password : String
password = "test"

-- What `Pkcs12::parse2` finds.
pub record Parsed (X K : Type 0) : Type 0 where
  pub pkey : Option K
  pub cert : Option X
  pub ca : Option (List X)

-- What the source uses of `openssl`, and the reading of a file.
pub record Crypto (E X K : Type 0) : Type 1 where
  pub Pkcs12 : Type 0
  pub read_file : String → Result String E
  pub x509_from_pem : String → Result X E
  pub x509_from_der : String → Result X E
  pub x509_to_der : X → Result String E
  pub private_key_from_pem : String → Result K E
  pub build2 : K → X → String → Result Pkcs12 E
  pub to_der : Pkcs12 → Result String E
  pub from_der : String → Result Pkcs12 E
  pub parse2 : Pkcs12 → String → Result (Parsed X K) E

pub record Identity (X K : Type 0) : Type 0 where
  pub pkey : K
  pub cert : X
  pub chain : List X

-- `X509PemBuilder`, `PrivateKeyBuilder` and `IdentityBuilder`, the three that implement
-- `CertBuilder`; `new` is the constructor.
pub record X509PemBuilder : Type 0 where
  pub bytes : String

pub record PrivateKeyBuilder : Type 0 where
  pub bytes : String

pub record IdentityBuilder : Type 0 where
  pub bytes : String

-- `Option::ok_or`.
pub ok_or : {A E : Type 0} → E → Option A → Result A E
ok_or e none = err e
ok_or e (some a) = ok a

-- `parsed.ca.into_iter().flatten().collect()`.
unfoldable pub flattened : {X : Type 0} → Option (List X) → List X
flattened none = []
flattened (some chain) = chain

-- `parse2(pass).map_err(...)`; the text of the cause is left out.
unread : {E A : Type 0} → Result A E → Result A (Failure E)
unread (ok a) = ok a
unread (err e) = err (message "Couldn't read pkcs12")

module _ {E X K : Type 0} (crypto : Crypto E X K) where
  open crypto use {Pkcs12}

  -- `CertBuilder::from_path`, which reads the whole file as `from_reader` does.
  pub from_path : {B : Type 0} → (String → B) → String → Result B (Failure E)
  from_path new path = try (from_error (crypto.read_file path)) (λ bytes. ok (new bytes))

  of_parsed : Parsed X K → Result (Identity X K) (Failure E)
  unfolding ok_or flattened
  of_parsed parsed = try (ok_or (message "Missing private key") parsed.pkey) (λ pkey.
      try (ok_or (message "Missing cert") parsed.cert)
        (λ cert. ok (record { pkey = pkey; cert = cert; chain = flattened parsed.ca })))

  -- `Identity::from_pkcs12`.
  pub from_pkcs12 : String → String → Result (Identity X K) (Failure E)
  unfolding of_parsed unread
  from_pkcs12 buf pass =
      try (from_error (crypto.from_der buf))
        (λ pkcs12. try (unread (crypto.parse2 pkcs12 pass)) of_parsed)

  unfoldable pub build_x509 : X509PemBuilder → Result X (Failure E)
  build_x509 b = context "invalid cert" (crypto.x509_from_pem b.bytes)

  unfoldable pub build_key : PrivateKeyBuilder → Result K (Failure E)
  build_key b = context "invalid key" (crypto.private_key_from_pem b.bytes)

  unfoldable pub from_x509 : X509PemBuilder → PrivateKeyBuilder → Result IdentityBuilder (Failure E)
  unfolding build_x509 build_key
  from_x509 x509 key = try (build_key key) (λ server_key. try (build_x509 x509) (λ server_crt.
      try (context "Failed to create Pkcs12" (crypto.build2 server_key server_crt password))
        (λ p12. try (from_error (crypto.to_der p12)) (λ der. ok (record { bytes = der })))))

  unfoldable pub build : IdentityBuilder → Result (Identity X K) (Failure E)
  unfolding from_pkcs12
  build b = more_context "Failed to load der" (from_pkcs12 b.bytes password)
