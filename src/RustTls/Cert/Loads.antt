-- ===== src/RustTls/Cert/Loads.antt =====
-- What is loaded from PEM files: every certificate and every key, in order, or nothing.
use future_aio.Base.{
  Failure, caused, in_context, message, try, attempt, from_error, String, ◌≡◌, refl, sym, ap, ◌∙◌,
  List, [], ◌∷◌, ◌++◌, append-nil, append_assoc, Result, ok, err, Outcome, returns, panics, ◌>>=◌,
}
use future_aio.RustTls.Cert.{
  Item, pkcs1_key, pkcs8_key, sec1_key, other_item, PrivateKeyDer, pkcs1, pkcs8, sec1, Pem,
  keys_loop, first_key, collect_context, load_certs_from_reader, load_keys_from_reader,
  load_first_key_from_reader, load_certs, load_first_key,
}

module _ {A E : Type 0} where
  abbrev pub cons_ok : A → Result (List A) E → Result (List A) E
  cons_ok a (ok vs) = ok (a ∷ vs)
  cons_ok a (err e) = err e

  -- All the values, or the first error.
  abbrev pub all_ok : List (Result A E) → Result (List A) E
  all_ok [] = ok []
  all_ok (ok a ∷ rs) = cons_ok a (all_ok rs)
  all_ok (err e ∷ rs) = err e

  abbrev in_note : String → Result (List A) E → Result (List A) (Failure E)
  in_note note (ok vs) = ok vs
  in_note note (err e) = err (in_context note (caused e))

  in_note-cons_ok :
      (note : String) (a : A) (r : Result (List A) E)
      → try (in_note note r) (λ rest. ok (a ∷ rest)) ≡ in_note note (cons_ok a r)
  in_note-cons_ok note a (ok vs) = refl
  in_note-cons_ok note a (err e) = refl

  collect-all_ok :
      (note : String) (rs : List (Result A E)) → collect_context note rs ≡ in_note note (all_ok rs)
  unfolding collect_context
  collect-all_ok note [] = refl
  collect-all_ok note (ok a ∷ rs) =
      ap (λ r. try r (λ rest. ok (a ∷ rest))) (collect-all_ok note rs)
      ∙ in_note-cons_ok note a (all_ok rs)
  collect-all_ok note (err e ∷ rs) = refl

module _ {K : Type 0} where
  -- The keys among the items.
  abbrev pub keys_of : List (Item K) → List (PrivateKeyDer K)
  keys_of [] = []
  keys_of (pkcs1_key k ∷ is) = pkcs1 k ∷ keys_of is
  keys_of (pkcs8_key k ∷ is) = pkcs8 k ∷ keys_of is
  keys_of (sec1_key k ∷ is) = sec1 k ∷ keys_of is
  keys_of (other_item ∷ is) = keys_of is

module _ {E K : Type 0} where
  abbrev pub first_or_none : List (PrivateKeyDer K) → Outcome (Result (PrivateKeyDer K) (Failure E))
  first_or_none [] = returns (err (message "no keys found"))
  first_or_none (key ∷ keys) = returns (ok key)

  abbrev pub all_keys :
      List (PrivateKeyDer K)
      → Result (List (Item K)) E
      → Outcome (Result (List (PrivateKeyDer K)) (Failure E))
  all_keys before (ok is) = returns (ok (before ++ keys_of is))
  all_keys before (err e) = panics

  -- The first of the keys, if there is one.
  abbrev pub the_first : Result (List (Item K)) E → Outcome (Result (PrivateKeyDer K) (Failure E))
  the_first (ok is) = first_or_none (keys_of is)
  the_first (err e) = panics

  all_keys-cons :
      (before : List (PrivateKeyDer K)) (i : Item K) (r : Result (List (Item K)) E)
      → all_keys (before ++ keys_of (i ∷ [])) r ≡ all_keys before (cons_ok i r)
  all_keys-cons before (pkcs1_key k) (ok is) =
      ap (λ ks. returns (ok ks)) (append_assoc before (pkcs1 k ∷ []) (keys_of is))
  all_keys-cons before (pkcs8_key k) (ok is) =
      ap (λ ks. returns (ok ks)) (append_assoc before (pkcs8 k ∷ []) (keys_of is))
  all_keys-cons before (sec1_key k) (ok is) =
      ap (λ ks. returns (ok ks)) (append_assoc before (sec1 k ∷ []) (keys_of is))
  all_keys-cons before other_item (ok is) =
      ap (λ ks. returns (ok (ks ++ keys_of is))) (append-nil before)
  all_keys-cons before i (err e) = refl

  keys_loop-all_keys :
      (before : List (PrivateKeyDer K)) (rs : List (Result (Item K) E))
      → keys_loop before rs ≡ all_keys before (all_ok rs)
  unfolding keys_loop
  keys_loop-all_keys before [] = ap (λ ks. returns (ok ks)) (sym (append-nil before))
  keys_loop-all_keys before (err e ∷ rs) = refl
  keys_loop-all_keys before (ok (pkcs1_key k) ∷ rs) =
      keys_loop-all_keys (before ++ (pkcs1 k ∷ [])) rs
      ∙ all_keys-cons before (pkcs1_key k) (all_ok rs)
  keys_loop-all_keys before (ok (pkcs8_key k) ∷ rs) =
      keys_loop-all_keys (before ++ (pkcs8 k ∷ [])) rs
      ∙ all_keys-cons before (pkcs8_key k) (all_ok rs)
  keys_loop-all_keys before (ok (sec1_key k) ∷ rs) =
      keys_loop-all_keys (before ++ (sec1 k ∷ [])) rs
      ∙ all_keys-cons before (sec1_key k) (all_ok rs)
  keys_loop-all_keys before (ok other_item ∷ rs) =
      keys_loop-all_keys before rs
      ∙ ap (λ ks. all_keys ks (all_ok rs)) (sym (append-nil before))
      ∙ all_keys-cons before other_item (all_ok rs)

module _ {E K : Type 0} (pem : Pem E K) where
  open pem use {Reader, CertificateDer, certs, items}

  first_key-first_or_none :
      (ks : List (PrivateKeyDer K)) → returns (first_key {E = E} ks) ≡ first_or_none ks
  unfolding first_key
  first_key-first_or_none [] = refl
  first_key-first_or_none (k ∷ ks) = refl

  first-the_first :
      (r : Result (List (Item K)) E)
      → (all_keys [] r >>= λ keys. attempt keys (λ ks. returns (first_key ks))) ≡ the_first r
  first-the_first (ok is) = first_key-first_or_none (keys_of is)
  first-the_first (err e) = refl

  -- Where all items of a reader parse, `load_keys_from_reader` returns all its keys, in order, and
  -- `load_first_key_from_reader` the first of them, or says that there is none. Where an item does
  -- not parse, even behind a key, both panic.
  pub load_keys_from_reader-all_keys :
      (rd : Reader)
      → (load_keys_from_reader pem rd ≡ all_keys [] (all_ok (items rd)))
        × (load_first_key_from_reader pem rd ≡ the_first (all_ok (items rd)))
  unfolding load_keys_from_reader load_first_key_from_reader first_key
  load_keys_from_reader-all_keys rd =
      let read = keys_loop-all_keys [] (items rd) in
      (
        read,
        ap (λ r. r >>= λ keys. attempt keys (λ ks. returns (first_key ks))) read
            ∙ first-the_first (all_ok (items rd)),
      )

  -- `load_certs_from_reader` returns the certificates of a reader, all of them and in order,
  -- exactly if all parse; else it returns the first error, with a note.
  pub load_certs_from_reader-all_ok :
      (rd : Reader) → load_certs_from_reader pem rd ≡ in_note "invalid cert" (all_ok (certs rd))
  unfolding load_certs_from_reader
  load_certs_from_reader-all_ok rd = collect-all_ok "invalid cert" (certs rd)

module _ {E K : Type 0} (pem : Pem E K) where
  -- A file is read as its bytes are.
  pub load_certs-cursor :
      (path bytes : String)
      → pem.open_file path ≡ ok (pem.cursor bytes)
      → load_certs pem path ≡ load_certs_from_reader pem (pem.cursor bytes)
  unfolding load_certs
  load_certs-cursor path bytes h = ap (λ r. try (from_error r) (load_certs_from_reader pem)) h

  pub load_first_key-cursor :
      (path bytes : String)
      → pem.open_file path ≡ ok (pem.cursor bytes)
      → load_first_key pem path ≡ load_first_key_from_reader pem (pem.cursor bytes)
  unfolding load_first_key
  load_first_key-cursor path bytes h =
      ap (λ r. attempt (from_error r) (load_first_key_from_reader pem)) h
