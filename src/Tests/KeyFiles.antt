-- ===== src/Tests/KeyFiles.antt =====
-- The theorems about key configurations at concrete inputs: a library whose keys are their bytes, and
-- whose documents are only that of one key configuration.
use ohttp_relay.Prelude.{◌≡◌, ◌≢◌, inl, refl, sym, none, [], ◌∷◌, arith, All}
use ohttp_relay.Text.{Bytes, codes, text_eq}
use ohttp_relay.Fault.{Result, ok, message, end}
use ohttp_relay.Http.{HttpResponse}
use ohttp_relay.Gateway.{insert}
use ohttp_relay.Keys.{
  KeyConfig, YamlKeyConfig, Libraries, yaml_of, id_to_str, algorithm_names, marshal_key_config,
  unmarshal_key_config,
}
use ohttp_relay.Keys.Hex.{hex_encode, hex_digit, IsByte}
use ohttp_relay.Keys.RoundTrip.{unmarshal-marshal}
use ohttp_relay.Keys.Frame.{frame}
use ohttp_relay.Keys.Files.{
  System, Disk, generated_config, write_key_config_file, write_private_key_file, gen_key_cmd,
  load_key_pair_from_disk,
}
use ohttp_relay.Keys.Generated.{load-gen_key}

abbrev pub two_bytes : Bytes
two_bytes = 4 ∷ 171 ∷ []

abbrev small_yaml : YamlKeyConfig
small_yaml = record {
  key_id = 1;
  kem = codes "P256_HKDF_SHA256";
  public_key = codes "04ab";
  symmetric_algorithms = (codes "SHA256", codes "AES128GCM") ∷ [];
}

abbrev pub small_libraries : Libraries Bytes
small_libraries = record {
  aes128gcm = 1;
  aes256gcm = 2;
  chacha20poly1305 = 3;
  sha256 = 1;
  sha384 = 2;
  sha512 = 3;
  p256 = 16;
  p384 = 17;
  p521 = 18;
  x25519 = 32;
  x448 = 33;
  x25519_kyber768_draft00 = 48;
  xwing = 25722;
  marshal_public_key = λ k. ok k;
  unmarshal_public_key = λ kem b. ok b;
  yaml_marshal = λ y. ok (codes "yaml");
  yaml_unmarshal = λ b. ok small_yaml;
}

abbrev pub small_config : KeyConfig Bytes
small_config = record {
  key_id = 1;
  kem_id = 16;
  public_key = two_bytes;
  symmetric_algorithms = record { kdf_id = 1; aead_id = 1 } ∷ [];
}

in_range : All IsByte two_bytes
in_range = (omega arith, (omega arith, tt))

full : two_bytes ≢ []
full h = cc

written : marshal_key_config small_libraries small_config ≡ ok (codes "yaml")
unfolding marshal_key_config
written = refl

read_yaml :
    small_libraries.yaml_unmarshal (codes "yaml")
    ≡ ok (yaml_of small_libraries small_config two_bytes)
unfolding yaml_of id_to_str algorithm_names hex_encode hex_digit
read_yaml = refl

unmarshal-marshal_example : unmarshal_key_config small_libraries (codes "yaml") ≡ ok small_config
unmarshal-marshal_example =
    unmarshal-marshal small_libraries small_config two_bytes (codes "yaml") refl refl full in_range
      written (λ _. read_yaml) (inl refl) ((inl refl, inl refl), tt)

abbrev pub small_system : System Bytes
small_system = record {
  write_error = λ name. none;
  missing = λ name. message (codes "no such file") end;
  marshal_private_key = λ k. ok k;
  unmarshal_private_key = λ kem b. ok b;
}

abbrev pub written_disk : Disk
written_disk = (codes "keys", codes "yaml") ∷ (codes "keys.priv", codes "secret") ∷ []

generated :
    gen_key_cmd small_libraries small_system
      (codes "keys")
      (codes "keys.priv")
      (ok (two_bytes, codes "secret"))
      []
    ≡ ok written_disk
unfolding gen_key_cmd write_key_config_file write_private_key_file marshal_key_config insert text_eq
generated = refl

pub paths_apart : codes "keys" ≢ codes "keys.priv"
paths_apart h = cc

pub p256_ne : small_libraries.p256 ≢ 0
p256_ne h = omega (arith, h)

pub key_law :
    (p_k : Bytes)
    → ◌≡◌ {A = Result Bytes} (ok two_bytes) (ok p_k)
    → (◌≡◌ {A = Result Bytes} (ok p_k) (ok two_bytes)) × (p_k ≢ []) × All IsByte p_k
key_law p_k h = let e : p_k ≡ two_bytes = cc h in rw e (refl, full, in_range)

pub yaml_law :
    (p_k bytes : Bytes)
    → ◌≡◌ {A = Result Bytes} (ok two_bytes) (ok p_k)
    → ◌≡◌ {A = Result Bytes} (ok (codes "yaml")) (ok bytes)
    → ok small_yaml ≡ ok (yaml_of small_libraries (generated_config small_libraries two_bytes) p_k)
unfolding yaml_of id_to_str algorithm_names hex_encode hex_digit generated_config
yaml_law p_k bytes h w = let e : p_k ≡ two_bytes = cc h in rw e refl

load-gen_key_example :
    load_key_pair_from_disk small_libraries small_system
      (codes "keys")
      (codes "keys.priv")
      written_disk
    ≡ ok (record {
      secret_key = codes "secret";
      key_config = generated_config small_libraries two_bytes;
    })
load-gen_key_example =
    load-gen_key small_libraries small_system (codes "keys") (codes "keys.priv") two_bytes
      (codes "secret") [] written_disk paths_apart p256_ne key_law yaml_law (λ bytes h. sym h)
      generated

pub base_full : codes "http://gw/" ≢ []
base_full h = cc

abbrev pub framed_response : HttpResponse
framed_response = record {
  status_code = 200;
  header = [];
  body = frame two_bytes;
  read_error = none;
}
