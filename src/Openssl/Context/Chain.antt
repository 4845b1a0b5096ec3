-- ===== src/Openssl/Context/Chain.antt =====
-- The chain of certificates of a context.
use future_aio.Base.{
  List, [], ◌∷◌, ◌++◌, append-nil, append_assoc, Option, some, Result, ok, err, Failure, try,
  from_error, ◌≡◌, refl, sym, ap, ◌∙◌,
}
use future_aio.Openssl.Context.{SslContext, add_chain}

-- What is relied on of a context: each setter that succeeds sets its part, and leaves the others,
-- but for the key, which a new certificate may unset.
pub record IsContext {E X K : Type 0} (ssl : SslContext E X K) : Type 0 where
  pub certificate : ssl.Context → Option X
  pub private_key : ssl.Context → Option K
  pub chain : ssl.Context → List X
  pub sets_certificate :
      (x : X) (c d : ssl.Context)
      → ssl.set_certificate x c ≡ ok d
      → (certificate d ≡ some x) × (chain d ≡ chain c)
  pub sets_private_key :
      (k : K) (c d : ssl.Context)
      → ssl.set_private_key k c ≡ ok d
      → (private_key d ≡ some k) × (certificate d ≡ certificate c) × (chain d ≡ chain c)
  pub adds_chain :
      (x : X) (c d : ssl.Context)
      → ssl.add_extra_chain_cert x c ≡ ok d
      → (chain d ≡ chain c ++ (x ∷ []))
        × (certificate d ≡ certificate c)
        × (private_key d ≡ private_key c)

module _ {E X K : Type 0} (ssl : SslContext E X K) (laws : IsContext ssl) where
  open ssl use {Context}
  open laws use {certificate, private_key, chain}

  -- The chain is longer by these certificates, and the rest is as before.
  abbrev pub Chained : Context → List X → Result Context (Failure E) → Type 0
  Chained c xs (err f) = Unit {0}
  Chained c xs (ok d) =
      (chain d ≡ chain c ++ xs) × (certificate d ≡ certificate c) × (private_key d ≡ private_key c)

  onward :
      (c d : Context) (x : X) (xs : List X) (r : Result Context (Failure E))
      → (chain d ≡ chain c ++ (x ∷ []))
        × (certificate d ≡ certificate c)
        × (private_key d ≡ private_key c)
      → Chained d xs r
      → Chained c (x ∷ xs) r
  onward c d x xs (err f) one more = tt
  onward c d x xs (ok e) (longer, same_cert, same_key) (rest, cert, key) = (
    rest ∙ ap (λ l. l ++ xs) longer ∙ append_assoc (chain c) (x ∷ []) xs,
    cert ∙ same_cert,
    key ∙ same_key,
  )

  added :
      (x : X) (xs : List X) (c : Context) (r : Result Context E)
      → ssl.add_extra_chain_cert x c ≡ r
      → ((d : Context) → Chained d xs (add_chain ssl xs d))
      → Chained c (x ∷ xs) (try (from_error r) (λ d. add_chain ssl xs d))
  added x xs c (err e) h more = tt
  added x xs c (ok d) h more =
      onward c d x xs (add_chain ssl xs d) (laws.adds_chain x c d h) (more d)

  pub add_chain-Chained : (xs : List X) (c : Context) → Chained c xs (add_chain ssl xs c)
  unfolding add_chain
  add_chain-Chained [] c = (sym (append-nil (chain c)), refl, refl)
  add_chain-Chained (x ∷ xs) c =
      added x xs c (ssl.add_extra_chain_cert x c) refl (λ d. add_chain-Chained xs d)
