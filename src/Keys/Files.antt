-- ===== src/Keys/Files.antt =====
-- cmd/echo-gateway/main.go: the key pair of the gateway on disk, as `gen-key` writes it and the
-- gateway loads it. The disk maps names to contents; whether a write works, and the error of reading
-- a file that is not there, are parameters, as is the encoding of private keys `S`.
use ohttp_relay.Prelude.{ℕ, Option, none, some, [], ◌∷◌, ◌==◌, if◌then◌else◌}
use ohttp_relay.Text.{Text, Bytes, codes}
use ohttp_relay.Fault.{Error, message, end, wrapped, Result, ok, err, bind}
use ohttp_relay.Gateway.{Map, lookup, insert}
use ohttp_relay.Keys.{KeyConfig, Libraries, marshal_key_config, unmarshal_key_config}

-- ohttp.KeyPair
pub record KeyPair (K S : Type 0) : Type 0 where
  pub secret_key : S
  pub key_config : KeyConfig K

pub record System (S : Type 0) : Type 0 where
  pub write_error : Text → Option Error
  pub missing : Text → Error
  pub marshal_private_key : S → Result Bytes
  pub unmarshal_private_key : ℕ → Bytes → Result S

abbrev pub Disk : Type 0
Disk = Map Bytes

-- a failure with more context
abbrev pub wrap {ℓ} : {A : Type ℓ} → Text → Result A → Result A
wrap format (ok a) = ok a
wrap format (err e) = err (message format (wrapped e end))

module _ {K : Type 0} (lib : Libraries K) where
  -- the key configuration of `gen-key`
  unfoldable pub generated_config : K → KeyConfig K
  generated_config public_key = record {
    key_id = 1;
    kem_id = lib.p256;
    public_key = public_key;
    symmetric_algorithms = record { kdf_id = lib.sha256; aead_id = lib.aes128gcm } ∷ [];
  }

module _ {S : Type 0} (sys : System S) where
  -- os.WriteFile and os.ReadFile
  abbrev pub write_file : Text → Bytes → Disk → Result Disk
  write_file name content disk = elim (sys.write_error name) [
    | some e ↦ err e
    | none ↦ ok (insert disk name content)
  ]

  abbrev pub read_file : Text → Disk → Result Bytes
  read_file name disk = elim (lookup disk name) [
    | none ↦ err (sys.missing name)
    | some content ↦ ok content
  ]

module _ {K S : Type 0} (lib : Libraries K) (sys : System S) where
  unfoldable pub write_key_config_file : Text → KeyConfig K → Disk → Result Disk
  write_key_config_file name kc disk =
      bind (wrap (codes "marshal keyconfig to binary: %w") (marshal_key_config lib kc))
        (λ content. wrap (codes "write keyconfig file: %w") (write_file sys name content disk))

  unfoldable pub write_private_key_file : Text → S → Disk → Result Disk
  write_private_key_file name sk disk =
      bind (wrap (codes "marshal private key: %w") (sys.marshal_private_key sk))
        (λ content. wrap (codes "write private key file: %w") (write_file sys name content disk))

  -- `genKeyCmd` from the answer of GenerateKeyPair on; an error ends the program
  unfoldable pub gen_key_cmd : Text → Text → Result (K × S) → Disk → Result Disk
  gen_key_cmd config_path priv_path generated disk = bind generated λ (keys : K × S).
      bind (write_key_config_file config_path (generated_config lib keys.0) disk)
        (write_private_key_file priv_path keys.1)

  unfoldable pub read_key_config_file : Text → Disk → Result (KeyConfig K)
  read_key_config_file name disk =
      bind (wrap (codes "read keyconfig file: %w") (read_file sys name disk))
        (λ content. wrap (codes "parse keyconfig: %w") (unmarshal_key_config lib content))

  unfoldable pub read_private_key_file : Text → ℕ → Disk → Result S
  read_private_key_file name kem_id disk =
      bind (wrap (codes "read private key file: %w") (read_file sys name disk)) (λ content.
        wrap (codes "unmarshal private key: %w") (sys.unmarshal_private_key kem_id content))

  unfoldable pub load_key_pair_from_disk : Text → Text → Disk → Result (KeyPair K S)
  load_key_pair_from_disk config_path priv_path disk =
      bind (read_key_config_file config_path disk) λ kc.
        if kc.kem_id == 0
        then err (message (codes "invalid keyconfig: missing KEM id") end)
        else bind (read_private_key_file priv_path kc.kem_id disk)
            (λ sk. ok (record { secret_key = sk; key_config = kc }))

-- envOr; `value` is what os.LookupEnv finds
unfoldable pub env_or : Option Text → Text → Text
env_or none default_value = default_value
env_or (some value) default_value = value
