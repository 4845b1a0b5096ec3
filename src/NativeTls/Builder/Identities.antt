-- ===== src/NativeTls/Builder/Identities.antt =====
-- An identity that src/native_tls.rs makes of a certificate and a key, and reads again.
use future_aio.Base.{
  String, ◌≡◌, refl, subst, ok, context, from_error, try_succeeds, context_succeeds, ok-injective,
  from_error_succeeds,
}
use future_aio.Openssl.Certs.{Crypto, password}
use future_aio.NativeTls.Builder.{
  Native, X509PemBuilder, PrivateKeyBuilder, IdentityBuilder, build_x509, build_key, from_x509,
  build_identity, identity, acceptor_identity,
}

-- What is relied on of the two libraries: `native_tls` reads an archive that `openssl` has made, under
-- the password that it was made with, as an identity of the key and the certificate in it.
pub record Interoperates {E X K : Type 0} (crypto : Crypto E X K) (native : Native E) : Type 1 where
  pub Holds : native.Identity → K → X → Type 0
  pub reads :
      (key : K) (cert : X) (pass der : String) (p : crypto.Pkcs12)
      → crypto.build2 key cert pass ≡ ok p
      → crypto.to_der p ≡ ok der
      → (i : native.Identity) × (native.from_pkcs12 der pass ≡ ok i) × Holds i key cert

module _ {E X K : Type 0} (crypto : Crypto E X K) (native : Native E)
    (laws : Interoperates crypto native) where
  -- The certificate and the key are in the identity, and it configures a connector and an acceptor.
  abbrev pub Restored : X509PemBuilder → PrivateKeyBuilder → IdentityBuilder → Type 0
  Restored x509 key b =
      (k : K) × (x : X) × (i : native.Identity) × (build_key crypto key ≡ ok k)
      × (build_x509 crypto x509 ≡ ok x)
      × laws.Holds i k x
      × (build_identity native b ≡ ok i)
      × (identity native b ≡ ok (record { inner = native.identity i native.new_connector }))
      × (acceptor_identity native b ≡ ok (record { inner = i }))

  read-Restored :
      (x509 : X509PemBuilder) (key : PrivateKeyBuilder) (k : K) (x : X) (der : String)
      (i : native.Identity)
      → build_key crypto key ≡ ok k
      → build_x509 crypto x509 ≡ ok x
      → native.from_pkcs12 der password ≡ ok i
      → laws.Holds i k x
      → Restored x509 key (record { bytes = der })
  unfolding build_identity identity acceptor_identity
  read-Restored x509 key k x der i hk hx read held =
      (k, x, i, hk, hx, held, rw read refl, rw read refl, rw read refl)

  -- An identity builder that `from_x509` gives for a certificate and a key in PEM builds an identity
  -- that holds just these two, and a connector and an acceptor are configured with that identity.
  pub from_x509-Restored :
      (x509 : X509PemBuilder) (key : PrivateKeyBuilder) (b : IdentityBuilder)
      → from_x509 crypto x509 key ≡ ok b
      → Restored x509 key b
  unfolding from_x509
  from_x509-Restored x509 key b h =
      let (k, keyed, h1) = try_succeeds (build_key crypto key) _ b h in
      let (x, certified, h2) = try_succeeds (build_x509 crypto x509) _ b h1 in
      let (p, packed, h3) =
        try_succeeds (context "Failed to create Pkcs12" (crypto.build2 k x password)) _ b h2 in
      let (der, encoded, h4) = try_succeeds (from_error (crypto.to_der p)) _ b h3 in
      let built =
        context_succeeds "Failed to create Pkcs12" (crypto.build2 k x password) p packed in
      let (i, read, held) =
        laws.reads k x password der p built (from_error_succeeds (crypto.to_der p) der encoded) in
      subst (Restored x509 key) (ok-injective h4)
        (read-Restored x509 key k x der i keyed certified read held)
