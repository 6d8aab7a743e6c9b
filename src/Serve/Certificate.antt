-- ===== src/Serve/Certificate.antt =====
-- internal/tls/tls.go: the certificate with which the server of the relay serves. The packages
-- crypto/rand, crypto/rsa, crypto/x509, crypto/tls and encoding/pem are a parameter, with `K` for
-- private keys and `C` for loaded certificates.
use ohttp_relay.Prelude.{ℕ, ◌+◌, ◌*◌, ◌^◌, ◌<◌, ◌≡◌, refl, List, [], ◌∷◌, Bool, true}
use ohttp_relay.Text.{Text, Bytes, codes}
use ohttp_relay.Fault.{message, end, shown, Result, ok, err, bind}

-- x509.Certificate, as far as it is filled; the times are in nanoseconds
pub record Template : Type 0 where
  pub serial_number : ℕ
  pub organization : List Text
  pub not_before : ℕ
  pub not_after : ℕ
  pub key_usage : List Text
  pub ext_key_usage : List Text
  pub basic_constraints_valid : Bool

pub record Crypto (K C : Type 0) : Type 0 where
  pub random_int : ℕ → Result ℕ
  pub generate_rsa_key : ℕ → Result K
  -- of a template, its parent, the key of the subject and that of the signer
  pub create_certificate : Template → Template → K → K → Result Bytes
  pub marshal_key : K → Result Bytes
  pub encode_to_memory : Text → Bytes → Bytes
  pub x509_key_pair : Bytes → Bytes → Result C

-- fmt.Errorf of a format with %v
abbrev explain : {A : Type 0} → Text → Result A → Result A
explain format (ok a) = ok a
explain format (err e) = err (message format (shown e end))

abbrev ten_years : ℕ
ten_years = 3600 * 10 ^ 9 * 24 * 365 * 10

unfoldable pub template : ℕ → ℕ → Template
template serial now = record {
  serial_number = serial;
  organization = codes "Inference Ext" ∷ [];
  not_before = now;
  not_after = now + ten_years;
  key_usage = codes "KeyEncipherment" ∷ codes "DigitalSignature" ∷ [];
  ext_key_usage = codes "ServerAuth" ∷ [];
  basic_constraints_valid = true;
}

module _ {K C : Type 0} (crypto : Crypto K C) where
  -- from the encodings on
  abbrev load_pair : Bytes → Bytes → Result C
  load_pair der key =
      crypto.x509_key_pair (crypto.encode_to_memory (codes "CERTIFICATE") der)
        (crypto.encode_to_memory (codes "PRIVATE KEY") key)

  -- from the certificate on
  unfoldable pub load_certificate : K → Bytes → Result C
  load_certificate priv der =
      bind (explain (codes "error marshalling private key: %v") (crypto.marshal_key priv))
        (load_pair der)

  -- from the key on
  unfoldable pub sign : Template → K → Result C
  sign t priv =
      bind
        (explain (codes "error creating certificate: %v") (crypto.create_certificate t t priv priv))
        (load_certificate priv)

  -- from the serial number on
  unfoldable pub certify : ℕ → ℕ → Result C
  certify now serial =
      bind (explain (codes "error generating key: %v") (crypto.generate_rsa_key 4096))
        (sign (template serial now))

  -- CreateSelfSignedTLSCertificate
  unfoldable pub create_self_signed_tls_certificate : ℕ → Result C
  create_self_signed_tls_certificate now =
      bind (explain (codes "error creating serial number: %v") (crypto.random_int (2 ^ 128)))
        (certify now)

  -- `c` is the pair of the encodings of a certificate for TLS servers, which is valid for ten years of
  -- 365 days from `now` on, and of its RSA key of 4096 bits, with which it is signed.
  pub record IsSelfSigned (now : ℕ) (c : C) : Type 0 where
    pub form : Template
    pub serial_small : form.serial_number < 2 ^ 128
    pub owner : form.organization ≡ codes "Inference Ext" ∷ []
    pub begins : form.not_before ≡ now
    pub ends : form.not_after ≡ now + 3650 * 86400000000000
    pub usages : form.key_usage ≡ codes "KeyEncipherment" ∷ codes "DigitalSignature" ∷ []
    pub for_servers : form.ext_key_usage ≡ codes "ServerAuth" ∷ []
    pub constrained : form.basic_constraints_valid ≡ true
    pub key : K
    pub generated : crypto.generate_rsa_key 4096 ≡ ok key
    pub der : Bytes
    pub created : crypto.create_certificate form form key key ≡ ok der
    pub key_bytes : Bytes
    pub marshalled : crypto.marshal_key key ≡ ok key_bytes
    pub loaded : load_pair der key_bytes ≡ ok c

-- A step that goes well has a good result, and the rest goes well from it.
step-eq-ok :
    {A B : Type 0} (format : Text) (r : Result A) (k : A → Result B) {b : B}
    → bind (explain format r) k ≡ ok b
    → (a : A) × (r ≡ ok a) × (k a ≡ ok b)
step-eq-ok format (ok a) k h = (a, refl, h)
step-eq-ok format (err e) k h = absurd (cc h)

-- If the library draws its random numbers below their limit, a certificate that is returned is of the
-- form for TLS servers, with a serial number below 2^128, valid from now on for 3650 days of 86400
-- seconds each, signed with its own key, which is a generated RSA key of 4096 bits, and it is loaded
-- together with this key.
pub create_self_signed_lem :
    {K C : Type 0} (crypto : Crypto K C) (now : ℕ) (c : C)
    → ((limit n : ℕ) → crypto.random_int limit ≡ ok n → n < limit)
    → create_self_signed_tls_certificate crypto now ≡ ok c
    → IsSelfSigned crypto now c
unfolding create_self_signed_tls_certificate certify sign load_certificate template
create_self_signed_lem crypto now c in_range h =
    let (serial, drawn, rest) = step-eq-ok _ (crypto.random_int (2 ^ 128)) (certify crypto now) h in
    let (key, generated, signed) =
      step-eq-ok _ (crypto.generate_rsa_key 4096) (sign crypto (template serial now)) rest in
    let (der, created, encoded) =
      step-eq-ok _ (crypto.create_certificate (template serial now) (template serial now) key key)
        (load_certificate crypto key) signed in
    let (key_bytes, marshalled, loaded) =
      step-eq-ok _ (crypto.marshal_key key) (load_pair crypto der) encoded in
    record {
      form = template serial now;
      serial_small = in_range (2 ^ 128) serial drawn;
      owner = refl;
      begins = refl;
      ends = refl;
      usages = refl;
      for_servers = refl;
      constrained = refl;
      key = key;
      generated = generated;
      der = der;
      created = created;
      key_bytes = key_bytes;
      marshalled = marshalled;
      loaded = loaded;
    }
