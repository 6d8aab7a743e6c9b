-- ===== src/Tests/Setup.antt =====
-- The log level, the addresses and the certificate at concrete inputs.
use ohttp_relay.Prelude.{
  ℤ, ℕ, ◌<◌, ◌≡◌, ◌↔◌, refl, false, [], ◌∷◌, pos, negsuc, ltb_ℤ, arith, ltb, if◌then◌else◌,
}
use ohttp_relay.Text.{Bytes, codes}
use ohttp_relay.Text.Decimal.{decimal}
use ohttp_relay.Fault.{ok, err, message, end}
use ohttp_relay.Config.{default_config}
use ohttp_relay.App.Logging.{log_level, negated, Loggers, new, from_context, new-level}
use ohttp_relay.Serve.Metrics.{port_address}
use ohttp_relay.Serve.Certificate.{
  Crypto, create_self_signed_tls_certificate, certify, sign, load_certificate, template,
  IsSelfSigned, create_self_signed_lem,
}

-- loggers that are their levels
abbrev toy_loggers : Loggers ℤ
toy_loggers = record {
  build = λ level. ok level;
  nop = pos 0;
  discard = pos 0;
  with_name = λ name l. l;
}

new-level_example :
    let (app, log') = new toy_loggers default_config toy_loggers.discard in
    ((app.logger ≡ negated default_config.log_verbosity) ↔ (
      (ltb_ℤ (pos 128) default_config.log_verbosity ≡ false)
      × (ltb_ℤ default_config.log_verbosity (negsuc 126) ≡ false)))
    × (from_context log' ≡ app.logger)
new-level_example =
    new-level toy_loggers (λ l. l) (λ v. (v, refl, refl)) (λ name l. refl) default_config
      toy_loggers.discard

-- With the verbosity 129 the level wraps around, to one that is above all of zap.
log_level_wraps : log_level (pos 129) ≡ pos 127
unfolding log_level
log_level_wraps = refl

port_address_plain : port_address (pos 9090) ≡ codes ":9090"
unfolding port_address decimal
port_address_plain = refl

port_address_negative : port_address (negsuc 0) ≡ codes ":-1"
unfolding port_address decimal
port_address_negative = refl

-- the key 5, which signs with its own number
abbrev toy_crypto : Crypto ℕ Bytes
toy_crypto = record {
  random_int = λ limit. if ltb 77 limit then ok 77 else err (message (codes "limit") end);
  generate_rsa_key = λ bits. ok 5;
  create_certificate = λ t parent key signer. ok (t.serial_number ∷ signer ∷ []);
  marshal_key = λ key. ok (key ∷ []);
  encode_to_memory = λ kind bytes. bytes;
  x509_key_pair = λ cert key. ok cert;
}

drawn_below : (limit n : ℕ) → toy_crypto.random_int limit ≡ ok n → n < limit
drawn_below limit n h = ground arith

create_self_signed_lem_example : IsSelfSigned toy_crypto 1000 (77 ∷ 5 ∷ [])
unfolding create_self_signed_tls_certificate certify sign load_certificate template
create_self_signed_lem_example =
    create_self_signed_lem toy_crypto 1000 (77 ∷ 5 ∷ []) drawn_below refl
