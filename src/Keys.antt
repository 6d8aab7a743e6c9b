-- ===== src/Keys.antt =====
-- pkg/echo-gateway/keyconfig/key_config.go: key configurations of OHTTP as files of yaml.
-- What packages hpke, kem and yaml do is a parameter: the identifiers of the algorithms, the
-- encoding of public keys, and that of a yaml document. A panic of Scheme on a number that is no KEM
-- is an error of that parameter.
pub mod Hex
pub mod Files
pub mod Generated
pub mod Fetch
pub mod Frame
pub mod RoundTrip
use ohttp_relay.Prelude.{ℕ, Option, none, some, List, [], ◌∷◌, ◌==◌, if◌then◌else◌}
use ohttp_relay.Text.{Text, Bytes, codes, is_empty}
use ohttp_relay.Fault.{message, end, text, wrapped, Result, ok, err, bind}
use ohttp_relay.Gateway.{Map, lookup}
use ohttp_relay.Keys.Hex.{hex_encode, hex_decode}

-- ohttp.SymmetricAlgorithm and ohttp.KeyConfig, over the public keys `K`
pub record SymmetricAlgorithm : Type 0 where
  pub kdf_id : ℕ
  pub aead_id : ℕ

pub record KeyConfig (K : Type 0) : Type 0 where
  pub key_id : ℕ
  pub kem_id : ℕ
  pub public_key : K
  pub symmetric_algorithms : List SymmetricAlgorithm

-- yamlKeyConfig: the name of the KDF and of the AEAD of each algorithm
pub record YamlKeyConfig : Type 0 where
  pub key_id : ℕ
  pub kem : Text
  pub public_key : Text
  pub symmetric_algorithms : List (Text × Text)

-- The constants of package hpke that the tables name, and what the libraries encode and decode.
pub record Libraries (K : Type 0) : Type 0 where
  pub aes128gcm : ℕ
  pub aes256gcm : ℕ
  pub chacha20poly1305 : ℕ
  pub sha256 : ℕ
  pub sha384 : ℕ
  pub sha512 : ℕ
  pub p256 : ℕ
  pub p384 : ℕ
  pub p521 : ℕ
  pub x25519 : ℕ
  pub x448 : ℕ
  pub x25519_kyber768_draft00 : ℕ
  pub xwing : ℕ
  pub marshal_public_key : K → Result Bytes
  pub unmarshal_public_key : ℕ → Bytes → Result K
  pub yaml_marshal : YamlKeyConfig → Result Bytes
  pub yaml_unmarshal : Bytes → Result YamlKeyConfig

-- idToStr; the order of a map does not matter when its values differ
unfoldable pub id_to_str : ℕ → Map ℕ → Text
id_to_str s [] = []
id_to_str s ((k, v) ∷ m) = let rest = id_to_str s m in if v == s then k else rest

-- m[name], of a map to numbers
abbrev pub id_of : Option ℕ → ℕ
id_of none = 0
id_of (some n) = n

module _ {K : Type 0} (lib : Libraries K) where
  abbrev pub name_to_aead_id : Map ℕ
  name_to_aead_id =
      (codes "AES128GCM", lib.aes128gcm)
      ∷ (codes "AES256GCM", lib.aes256gcm)
      ∷ (codes "ChaCha20Poly1305", lib.chacha20poly1305)
      ∷ []

  abbrev pub name_to_kdf_id : Map ℕ
  name_to_kdf_id =
      (codes "SHA256", lib.sha256)
      ∷ (codes "SHA384", lib.sha384)
      ∷ (codes "SHA512", lib.sha512)
      ∷ []

  abbrev pub name_to_kem_id : Map ℕ
  name_to_kem_id =
      (codes "P256_HKDF_SHA256", lib.p256)
      ∷ (codes "P384_HKDF_SHA384", lib.p384)
      ∷ (codes "P521_HKDF_SHA512", lib.p521)
      ∷ (codes "X25519_HKDF_SHA256", lib.x25519)
      ∷ (codes "X448_HKDF_SHA512", lib.x448)
      ∷ (codes "X25519_KYBER768_DRAFT00", lib.x25519_kyber768_draft00)
      ∷ (codes "KEM_XWING", lib.xwing)
      ∷ []

  -- the loop of MarshalKeyConfig
  unfoldable pub algorithm_names : List SymmetricAlgorithm → List (Text × Text)
  algorithm_names [] = []
  algorithm_names (sa ∷ sas) =
      (id_to_str sa.kdf_id name_to_kdf_id, id_to_str sa.aead_id name_to_aead_id)
      ∷ algorithm_names sas

  unfoldable pub yaml_of : KeyConfig K → Bytes → YamlKeyConfig
  yaml_of kc p_k = record {
    key_id = kc.key_id;
    kem = id_to_str kc.kem_id name_to_kem_id;
    public_key = hex_encode p_k;
    symmetric_algorithms = algorithm_names kc.symmetric_algorithms;
  }

  unfoldable pub marshal_key_config : KeyConfig K → Result Bytes
  marshal_key_config kc = elim (lib.marshal_public_key kc.public_key) [
    | err e ↦ err (message (codes "public key: %w") (wrapped e end))
    | ok p_k ↦ lib.yaml_marshal (yaml_of kc p_k)
  ]

  abbrev algorithm : Text × Text → Option ℕ → Option ℕ → Result SymmetricAlgorithm
  algorithm (kdf, aead) none a = err (message (codes "invalid KDF in item %s") (text kdf end))
  algorithm (kdf, aead) (some k) none =
      err (message (codes "invalid AEAD in item %s") (text aead end))
  algorithm (kdf, aead) (some k) (some a) = ok (record { kdf_id = k; aead_id = a })

  -- the loop of UnmarshalKeyConfig
  unfoldable pub algorithms : List (Text × Text) → Result (List SymmetricAlgorithm)
  algorithms [] = ok []
  algorithms (n ∷ ns) =
      bind (algorithm n (lookup name_to_kdf_id n.0) (lookup name_to_aead_id n.1))
        (λ sa. bind (algorithms ns) (λ sas. ok (sa ∷ sas)))

  -- with the public key at hand
  unfoldable pub key_config_of : YamlKeyConfig → ℕ → K → Result (KeyConfig K)
  key_config_of y kem_id public_key = bind (algorithms y.symmetric_algorithms) (λ sas. ok (record {
    key_id = y.key_id;
    kem_id = kem_id;
    public_key = public_key;
    symmetric_algorithms = sas;
  }))

  -- with the bytes of the public key
  unfoldable pub read_key : YamlKeyConfig → Bytes → Result (KeyConfig K)
  read_key y p_k =
      if is_empty p_k
      then err (message (codes "empty public key") end)
      else let kem_id = id_of (lookup name_to_kem_id y.kem) in
        elim (lib.unmarshal_public_key kem_id p_k) [
          | err e ↦ err (message (codes "unmarshal binary public key: %w") (wrapped e end))
          | ok public_key ↦ key_config_of y kem_id public_key
        ]

  unfoldable pub of_yaml : YamlKeyConfig → Result (KeyConfig K)
  of_yaml y = elim (hex_decode y.public_key) [
    | err e ↦ err (message (codes "public key: %w") (wrapped e end))
    | ok p_k ↦ read_key y p_k
  ]

  unfoldable pub unmarshal_key_config : Bytes → Result (KeyConfig K)
  unmarshal_key_config bytes = elim (lib.yaml_unmarshal bytes) [
    | err e ↦ err (message (codes "yaml: %w") (wrapped e end))
    | ok y ↦ of_yaml y
  ]
