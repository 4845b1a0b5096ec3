-- ===== src/Openssl/Certs/Identities.antt =====
-- An identity made of a certificate and a key, and read again.
use future_aio.Base.{
  String, List, [], Option, some, ◌≡◌, refl, subst, Result, ok, err, Failure, context, from_error,
  try_succeeds, context_succeeds, from_error_succeeds, ok-injective,
}
use future_aio.Openssl.Certs.{
  Crypto, X509PemBuilder, PrivateKeyBuilder, IdentityBuilder, flattened, password, from_x509, build,
  build_key, build_x509, from_pkcs12, of_parsed, unread, ok_or,
}

-- What is relied on of PKCS 12: an archive is read back from its own bytes, and holds the key and the
-- certificate that it was built with, under the same password, and no further certificates.
pub record IsCrypto {E X K : Type 0} (crypto : Crypto E X K) : Type 0 where
  pub reads_back :
      (p : crypto.Pkcs12) (der : String) → crypto.to_der p ≡ ok der → crypto.from_der der ≡ ok p
  pub holds :
      (key : K) (cert : X) (pass : String) (p : crypto.Pkcs12)
      → crypto.build2 key cert pass ≡ ok p
      → (ca : Option (List X)) × (flattened ca ≡ [])
        × (crypto.parse2 p pass ≡ ok (record { pkey = some key; cert = some cert; ca = ca }))

module _ {E X K : Type 0} (crypto : Crypto E X K) where
  -- An identity of the key and the certificate in the two PEM texts.
  abbrev pub Restored :
      X509PemBuilder → PrivateKeyBuilder → Result IdentityBuilder (Failure E) → Type 0
  Restored x509 key (err f) = Unit {0}
  Restored x509 key (ok b) =
      (k : K) × (x : X) × (build_key crypto key ≡ ok k)
      × (build_x509 crypto x509 ≡ ok x)
      × (build crypto b ≡ ok (record { pkey = k; cert = x; chain = [] }))

module _ {E X K : Type 0} (crypto : Crypto E X K) (laws : IsCrypto crypto) where
  built_back :
      (k : K) (x : X) (p : crypto.Pkcs12) (der : String)
      → crypto.build2 k x password ≡ ok p
      → crypto.to_der p ≡ ok der
      → build crypto (record { bytes = der }) ≡ ok (record { pkey = k; cert = x; chain = [] })
  unfolding build from_pkcs12 of_parsed unread ok_or
  built_back k x p der b d =
      let (ca, bare, parses) = laws.holds k x password p b in
      rw (laws.reads_back p der d, parses, bare) refl

  -- The identity builder that `from_x509` gives for a certificate and a key in PEM builds an
  -- identity of just this key and this certificate, with no further certificates in its chain.
  pub from_x509-build :
      (x509 : X509PemBuilder) (key : PrivateKeyBuilder) (b : IdentityBuilder)
      → from_x509 crypto x509 key ≡ ok b
      → Restored crypto x509 key (ok b)
  unfolding from_x509
  from_x509-build x509 key b h =
      let (k, keyed, h1) = try_succeeds (build_key crypto key) _ b h in
      let (x, certified, h2) = try_succeeds (build_x509 crypto x509) _ b h1 in
      let (p, packed, h3) =
        try_succeeds (context "Failed to create Pkcs12" (crypto.build2 k x password)) _ b h2 in
      let (der, encoded, h4) = try_succeeds (from_error (crypto.to_der p)) _ b h3 in
      let back =
        built_back k x p der
          (context_succeeds "Failed to create Pkcs12" (crypto.build2 k x password) p packed)
          (from_error_succeeds (crypto.to_der p) der encoded) in
      subst (λ c. Restored crypto x509 key (ok c)) (ok-injective h4) (k, x, keyed, certified, back)
