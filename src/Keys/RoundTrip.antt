-- ===== src/Keys/RoundTrip.antt =====
-- key_config.go: a key configuration that has been written is read back.
use ohttp_relay.Prelude.{
  ℕ, ◌≡◌, ◌≢◌, ◌⊎◌, inl, inr, refl, ap, false, none, some, List, [], ◌∷◌, arith, ◌==◌, ==_iff,
  Bool-cases, All, if◌then◌else◌,
}
use ohttp_relay.Text.{Bytes, text_eq}
use ohttp_relay.Text.Laws.{text_eq_iff, text_eq_refl, is_empty_ne}
use ohttp_relay.Fault.{ok}
use ohttp_relay.Gateway.{Map, lookup}
use ohttp_relay.Keys.Hex.{IsByte, hex_decode-encode}
use ohttp_relay.Keys.{
  SymmetricAlgorithm, KeyConfig, Libraries, id_to_str, id_of, name_to_aead_id, name_to_kdf_id,
  name_to_kem_id, algorithm_names, yaml_of, marshal_key_config, algorithms, key_config_of, read_key,
  of_yaml, unmarshal_key_config,
}

-- some name of the table stands for the number
abbrev pub Has : ℕ → Map ℕ → Type 0
Has s [] = ⊥
Has s ((k, v) ∷ m) = (v ≡ s) ⊎ Has s m

abbrev HasDistinctKeys : Map ℕ → Type 0
HasDistinctKeys [] = Unit
HasDistinctKeys ((k, v) ∷ m) = (lookup m k ≡ none) × HasDistinctKeys m

lookup-id_to_str :
    (m : Map ℕ) (s : ℕ) → HasDistinctKeys m → Has s m → lookup m (id_to_str s m) ≡ some s
unfolding lookup id_to_str
lookup-id_to_str [] s d h = absurd h
lookup-id_to_str ((k, v) ∷ m) s (fresh, d) h = elim (Bool-cases (v == s)) [
  | inl same ↦ rw (same, text_eq_refl k) (ap some ((==_iff v s).0 same))
  | inr other ↦ rw other (later h other (lookup-id_to_str m s d))
]
  where
    later :
        (v ≡ s) ⊎ Has s m
        → (v == s) ≡ false
        → (Has s m → lookup m (id_to_str s m) ≡ some s)
        → (if text_eq k (id_to_str s m) then some v else lookup m (id_to_str s m)) ≡ some s
    later (inl e) o found = absurd (ground arith)
    later (inr h') o found = ground (arith, text_eq_iff k (id_to_str s m), fresh, found h')

module _ {K : Type 0} (lib : Libraries K) where
  kdf_names : HasDistinctKeys (name_to_kdf_id lib)
  unfolding lookup text_eq
  kdf_names = (refl, (refl, (refl, tt)))

  aead_names : HasDistinctKeys (name_to_aead_id lib)
  unfolding lookup text_eq
  aead_names = (refl, (refl, (refl, tt)))

  kem_names : HasDistinctKeys (name_to_kem_id lib)
  unfolding lookup text_eq
  kem_names = (refl, (refl, (refl, (refl, (refl, (refl, (refl, tt)))))))

  -- an algorithm that the tables name
  abbrev pub IsNamed : SymmetricAlgorithm → Type 0
  IsNamed sa = Has sa.kdf_id (name_to_kdf_id lib) × Has sa.aead_id (name_to_aead_id lib)

  algorithms-algorithm_names :
      (sas : List SymmetricAlgorithm)
      → All IsNamed sas
      → algorithms lib (algorithm_names lib sas) ≡ ok sas
  unfolding algorithms algorithm_names
  algorithms-algorithm_names [] h = refl
  algorithms-algorithm_names (sa ∷ sas) ((kdf, aead), hs) = rw (
    lookup-id_to_str (name_to_kdf_id lib) sa.kdf_id kdf_names kdf,
    lookup-id_to_str (name_to_aead_id lib) sa.aead_id aead_names aead,
    algorithms-algorithm_names sas hs,
  )

  module _ (kc : KeyConfig K) (p_k bytes : Bytes)
      (encoded : lib.marshal_public_key kc.public_key ≡ ok p_k)
      (decoded : lib.unmarshal_public_key kc.kem_id p_k ≡ ok kc.public_key) (full : p_k ≢ [])
      (in_range : All IsByte p_k) (written : marshal_key_config lib kc ≡ ok bytes)
      (yaml : lib.yaml_marshal (yaml_of lib kc p_k) ≡ ok bytes
        → lib.yaml_unmarshal bytes ≡ ok (yaml_of lib kc p_k))
      (kem : Has kc.kem_id (name_to_kem_id lib)) (named : All IsNamed kc.symmetric_algorithms) where
    yaml_written : lib.yaml_marshal (yaml_of lib kc p_k) ≡ ok bytes
    unfolding marshal_key_config
    yaml_written = rw (marshal_key_config, encoded) at written

    read_key-yaml_of : read_key lib (yaml_of lib kc p_k) p_k ≡ ok kc
    unfolding read_key yaml_of key_config_of
    read_key-yaml_of =
        rw
          (
            read_key,
            is_empty_ne p_k full,
            lookup-id_to_str (name_to_kem_id lib) kc.kem_id kem_names kem,
            decoded,
            key_config_of,
            algorithms-algorithm_names kc.symmetric_algorithms named,
          )
          (ap (λ (n : ℕ). ok (record kc { kem_id = n }))
            (ap id_of (lookup-id_to_str (name_to_kem_id lib) kc.kem_id kem_names kem)))

    -- A key configuration whose algorithms and KEM the tables name is read back from what is written
    -- of it, if the libraries read its public key and its document back from what they write of
    -- them, and the bytes of the public key are not empty, each below 256.
    pub unmarshal-marshal : unmarshal_key_config lib bytes ≡ ok kc
    unfolding unmarshal_key_config of_yaml yaml_of
    unmarshal-marshal =
        rw (unmarshal_key_config, yaml yaml_written, of_yaml, hex_decode-encode p_k in_range)
          read_key-yaml_of
