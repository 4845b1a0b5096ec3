-- ===== src/Openssl/Connector/Installs.antt =====
-- What the builder of a connector installs for an identity.
use future_aio.Base.{
  ◌++◌, some, Result, ok, err, Failure, try, from_error, more_context, ◌≡◌, refl, ap, ◌∙◌, subst,
}
use future_aio.Openssl.Certs.{Crypto, Identity, IdentityBuilder, build}
use future_aio.Openssl.Context.Chain.{IsContext, Chained, add_chain-Chained}
use future_aio.Openssl.Context.{SslContext, in_turn, add_chain}
use future_aio.Openssl.Connector.{TlsConnectorBuilder, reversed, installed, with_identity}

module _ {E X K : Type 0} (ssl : SslContext E X K) (laws : IsContext ssl) where
  open ssl use {Context}
  open laws use {certificate, private_key, chain}

  -- The identity is installed: its certificate, its key, and its chain, in reverse, behind the chain
  -- of before.
  abbrev pub Installed : Context → Identity X K → Result Context (Failure E) → Type 0
  Installed c id (err f) = Unit {0}
  Installed c id (ok d) =
      (certificate d ≡ some id.cert)
      × (private_key d ≡ some id.pkey)
      × (chain d ≡ chain c ++ reversed id.chain)

  longer-Installed :
      (c d : Context) (id : Identity X K) (r : Result Context (Failure E))
      → (certificate d ≡ some id.cert) × (private_key d ≡ some id.pkey) × (chain d ≡ chain c)
      → Chained ssl laws d (reversed id.chain) r
      → Installed c id r
  longer-Installed c d id (err f) before after = tt
  longer-Installed c d id (ok e) (cert, key, same) (longer, same_cert, same_key) =
      (same_cert ∙ cert, same_key ∙ key, longer ∙ ap (λ l. l ++ reversed id.chain) same)

  key_Installed :
      (c d : Context) (id : Identity X K) (r : Result Context E)
      → (certificate d ≡ some id.cert) × (chain d ≡ chain c)
      → ssl.set_private_key id.pkey d ≡ r
      → Installed c id (try (from_error r) (λ e. add_chain ssl (reversed id.chain) e))
  key_Installed c d id (err e) before h = tt
  key_Installed c d id (ok e) (cert, same) h =
      let (sets, keeps, keeps_chain) = laws.sets_private_key id.pkey d e h in
      longer-Installed c e id (add_chain ssl (reversed id.chain) e)
        (keeps ∙ cert, sets, keeps_chain ∙ same) (add_chain-Chained ssl laws (reversed id.chain) e)

  both_Installed :
      (c : Context) (id : Identity X K) (r : Result Context E)
      → ssl.set_certificate id.cert c ≡ r
      → Installed c id (
          try
            (try (from_error r) (λ d. from_error (ssl.set_private_key id.pkey d)))
            (λ e. add_chain ssl (reversed id.chain) e))
  both_Installed c id (err e) h = tt
  both_Installed c id (ok d) h =
      key_Installed c d id (ssl.set_private_key id.pkey d) (laws.sets_certificate id.cert c d h)
        refl

  -- The builder with the identity, and its other settings as before; or an error.
  abbrev pub WithIdentity :
      Crypto E X K
      → TlsConnectorBuilder ssl
      → IdentityBuilder
      → Result (TlsConnectorBuilder ssl) (Failure E)
      → Type 0
  WithIdentity crypto b identity (err f) = Unit {0}
  WithIdentity crypto b identity (ok b') =
      (id : Identity X K) × (build crypto identity ≡ ok id)
      × Installed b.inner id (ok b'.inner)
      × (b'.verify_hostname ≡ b.verify_hostname)
      × (b'.allow_partial ≡ b.allow_partial)

  stored :
      (crypto : Crypto E X K) (b : TlsConnectorBuilder ssl) (identity : IdentityBuilder)
      (id : Identity X K) (r : Result Context (Failure E))
      → build crypto identity ≡ ok id
      → Installed b.inner id r
      → WithIdentity crypto b identity (try r (λ c. ok (record b { inner = c })))
  stored crypto b identity id (err f) h i = tt
  stored crypto b identity id (ok c) h i = (id, h, i, refl, refl)

  identified :
      (crypto : Crypto E X K) (b : TlsConnectorBuilder ssl) (identity : IdentityBuilder)
      (r : Result (Identity X K) (Failure E))
      → build crypto identity ≡ r
      → WithIdentity crypto b identity
          (try (more_context "failed to build identity" r) (installed ssl b))
  unfolding installed
  identified crypto b identity (err f) h = tt
  identified crypto b identity (ok id) h =
      let c = b.inner in
      let set = in_turn ssl (ssl.set_certificate id.cert) (ssl.set_private_key id.pkey) c in
      stored crypto b identity id (try set (λ d. add_chain ssl (reversed id.chain) d)) h
        (both_Installed c id (ssl.set_certificate id.cert c) refl)

  -- Where `with_identity` succeeds, the context has the certificate and the key of the identity that
  -- its builder builds, and the chain of the identity stands in reverse behind the chain of before;
  -- the other settings of the builder are kept.
  pub with_identity-Installed :
      (crypto : Crypto E X K) (b b' : TlsConnectorBuilder ssl) (identity : IdentityBuilder)
      → with_identity ssl crypto b identity ≡ ok b'
      → WithIdentity crypto b identity (ok b')
  unfolding with_identity
  with_identity-Installed crypto b b' identity h =
      subst (WithIdentity crypto b identity) h
        (identified crypto b identity (build crypto identity) refl)
