-- ===== src/Keys/Generated.antt =====
-- cmd/echo-gateway/main.go: the gateway loads the key pair that `gen-key` has written.
use ohttp_relay.Prelude.{
  ℕ, ◌≡◌, ◌≢◌, inl, refl, sym, ◌∙◌, false, some, [], arith, ◌==◌, ==_iff, All, Option-cases, inr,
}
use ohttp_relay.Text.{Text, Bytes, text_eq}
use ohttp_relay.Text.Laws.{text_eq_iff, text_eq_refl}
use ohttp_relay.Fault.{Result, ok, err, bind-eq-ok}
use ohttp_relay.Gateway.{lookup, insert}
use ohttp_relay.Gateway.Laws.{lookup-insert}
use ohttp_relay.Keys.{KeyConfig, Libraries, yaml_of, marshal_key_config, unmarshal_key_config}
use ohttp_relay.Keys.Hex.{IsByte}
use ohttp_relay.Keys.RoundTrip.{unmarshal-marshal}
use ohttp_relay.Keys.Files.{
  System, Disk, wrap, write_file, read_file, write_key_config_file, write_private_key_file,
  generated_config, gen_key_cmd, read_key_config_file, read_private_key_file,
  load_key_pair_from_disk,
}

pub wrap-eq-ok : {A : Type 0} (f : Text) (r : Result A) {a : A} → wrap f r ≡ ok a → r ≡ ok a
wrap-eq-ok f (ok b) h = h
wrap-eq-ok f (err e) h = absurd (cc h)

text_ne : (a b : Text) → a ≢ b → text_eq a b ≡ false
text_ne a b h = ground (arith, text_eq_iff a b)

ok_inj : {A : Type 0} {a b : A} → ◌≡◌ {A = Result A} (ok a) (ok b) → a ≡ b
ok_inj h = cc h

-- The second of two writes leaves another file as it is.
lookup-two :
    (disk : Disk) (a b : Text) (x y : Bytes)
    → a ≢ b
    → lookup (insert (insert disk a x) b y) a ≡ some x
lookup-two disk a b x y ne =
    lookup-insert (insert disk a x) b a y
    ∙ rw (text_ne b a (λ e. ne (sym e))) (lookup-insert disk a a x ∙ rw (text_eq_refl a) refl)

lookup-last : (disk : Disk) (b : Text) (y : Bytes) → lookup (insert disk b y) b ≡ some y
lookup-last disk b y = lookup-insert disk b b y ∙ rw (text_eq_refl b) refl

number_ne : (n : ℕ) → n ≢ 0 → (n == 0) ≡ false
number_ne n h = ground (arith, ==_iff n 0)

module _ {K S : Type 0} (lib : Libraries K) (sys : System S) where
  write_file-eq :
      (name : Text) (content : Bytes) (disk : Disk) {new : Disk}
      → write_file sys name content disk ≡ ok new
      → new ≡ insert disk name content
  write_file-eq name content disk h = elim (Option-cases (sys.write_error name)) [
    | inl works ↦ sym (ok_inj (rw (write_file, works) at h))
    | inr (e, broken) ↦ absurd (cc (rw (write_file, broken) at h))
  ]

  write_key_config_file-eq :
      (name : Text) (kc : KeyConfig K) (disk : Disk) {new : Disk}
      → write_key_config_file lib sys name kc disk ≡ ok new
      → (content : Bytes) × (marshal_key_config lib kc ≡ ok content)
        × (new ≡ insert disk name content)
  unfolding write_key_config_file
  write_key_config_file-eq name kc disk h =
      let (content, marshalled, written) = bind-eq-ok _ _ h in
      (content, wrap-eq-ok _ _ marshalled, write_file-eq name content disk (wrap-eq-ok _ _ written))

  write_private_key_file-eq :
      (name : Text) (sk : S) (disk : Disk) {new : Disk}
      → write_private_key_file lib sys name sk disk ≡ ok new
      → (content : Bytes) × (sys.marshal_private_key sk ≡ ok content)
        × (new ≡ insert disk name content)
  unfolding write_private_key_file
  write_private_key_file-eq name sk disk h =
      let (content, marshalled, written) = bind-eq-ok _ _ h in
      (content, wrap-eq-ok _ _ marshalled, write_file-eq name content disk (wrap-eq-ok _ _ written))

  marshal-encoded :
      (kc : KeyConfig K) {bytes : Bytes}
      → marshal_key_config lib kc ≡ ok bytes
      → (p_k : Bytes) × (lib.marshal_public_key kc.public_key ≡ ok p_k)
  unfolding marshal_key_config
  marshal-encoded kc {bytes} h = go (lib.marshal_public_key kc.public_key) refl h
    where
      go :
          (r : Result Bytes)
          → lib.marshal_public_key kc.public_key ≡ r
          → marshal_key_config lib kc ≡ ok bytes
          → (p_k : Bytes) × (lib.marshal_public_key kc.public_key ≡ ok p_k)
      go (ok p_k) e h = (p_k, e)
      go (err f) e h = absurd (cc (rw (marshal_key_config, e) at h))

  load-eq :
      (kc : KeyConfig K) (sk : S) (config_path priv_path : Text) (disk : Disk) {a b : Bytes}
      → lookup disk config_path ≡ some a
      → unmarshal_key_config lib a ≡ ok kc
      → kc.kem_id ≢ 0
      → lookup disk priv_path ≡ some b
      → sys.unmarshal_private_key kc.kem_id b ≡ ok sk
      → load_key_pair_from_disk lib sys config_path priv_path disk
        ≡ ok (record { secret_key = sk; key_config = kc })
  unfolding load_key_pair_from_disk read_key_config_file read_private_key_file
  load-eq kc sk config_path priv_path disk found read kem found_key read_key = rw (
    load_key_pair_from_disk,
    read_key_config_file,
    read_file,
    found,
    read,
    number_ne kc.kem_id kem,
    read_private_key_file,
    found_key,
    read_key,
  )

  module _ (config_path priv_path : Text) (pk : K) (sk : S) (disk new : Disk)
      (apart : config_path ≢ priv_path) (some_kem : lib.p256 ≢ 0)
      (key_law : (p_k : Bytes)
        → lib.marshal_public_key pk ≡ ok p_k
        → (lib.unmarshal_public_key lib.p256 p_k ≡ ok pk) × (p_k ≢ []) × All IsByte p_k)
      (yaml_law : (p_k bytes : Bytes)
        → lib.marshal_public_key pk ≡ ok p_k
        → lib.yaml_marshal (yaml_of lib (generated_config lib pk) p_k) ≡ ok bytes
        → lib.yaml_unmarshal bytes ≡ ok (yaml_of lib (generated_config lib pk) p_k))
      (secret_law : (bytes : Bytes)
        → sys.marshal_private_key sk ≡ ok bytes
        → sys.unmarshal_private_key lib.p256 bytes ≡ ok sk)
      (generated : gen_key_cmd lib sys config_path priv_path (ok (pk, sk)) disk ≡ ok new) where
    abbrev config : KeyConfig K
    config = generated_config lib pk

    config_read :
        {bytes : Bytes}
        → marshal_key_config lib config ≡ ok bytes
        → unmarshal_key_config lib bytes ≡ ok config
    unfolding generated_config
    config_read {bytes} h =
        let (p_k, encoded) = marshal-encoded config h in
        let (decoded, full, in_range) = key_law p_k encoded in
        unmarshal-marshal lib config p_k bytes encoded decoded full in_range h
          (yaml_law p_k bytes encoded) (inl refl) ((inl refl, inl refl), tt)

    -- If `gen-key` succeeds with two different paths, the gateway loads the key pair that it has
    -- generated, as long as the number of the KEM is not 0, the libraries read back what they write
    -- of this pair, and the bytes of the public key are not empty, each below 256.
    pub load-gen_key :
        load_key_pair_from_disk lib sys config_path priv_path new
        ≡ ok (record { secret_key = sk; key_config = generated_config lib pk })
    unfolding gen_key_cmd generated_config
    load-gen_key =
        let (mid, first, second) = bind-eq-ok _ _ generated in
        let (a, a_written, mid_eq) = write_key_config_file-eq config_path config disk first in
        let (b, b_written, new_eq) = write_private_key_file-eq priv_path sk mid second in
        load-eq config sk config_path priv_path new
          (rw (new_eq, mid_eq) (lookup-two disk config_path priv_path a b apart))
          (config_read a_written) some_kem (rw new_eq (lookup-last mid priv_path b))
          (secret_law b b_written)
