-- ===== src/Keys/Frame.antt =====
-- The length-prefixed key configuration: handleWellKnownKeyConfig of cmd/echo-gateway/main.go writes
-- it, and fetchKeyConfig of cmd/test-client/main.go reads it.
use ohttp_relay.Prelude.{◌+◌, ◌*◌, ◌/◌, ◌%◌, ◌^◌, ◌≡◌, [], ◌∷◌, arith, ltb, length, if◌then◌else◌}
use ohttp_relay.Text.{Bytes, codes}
use ohttp_relay.Fault.{message, end, Result, ok, err}

-- binary.BigEndian.PutUint16(buf[:2], uint16(len(configBytes))) and the bytes
unfoldable pub frame : Bytes → Bytes
frame config_bytes = let n = length config_bytes % 2 ^ 16 in n / 256 ∷ n % 256 ∷ config_bytes

-- the checks on the body of the answer; what is left goes to KeyConfig.UnmarshalBinary
unfoldable pub unframe : Bytes → Result Bytes
unframe [] = err (message (codes "response too short") end)
unframe (a ∷ []) = err (message (codes "response too short") end)
unframe (a ∷ b ∷ rest) =
    let list_len = a * 256 + b in
    if ltb (2 + length rest) (2 + list_len)
    then err (message (codes "response body shorter than declared list length") end)
    else ok rest

-- The client finds the key configuration of the gateway behind the prefix, whatever its length: a
-- length of 2^16 or more is cut, and is still not above what follows.
pub unframe-frame : (config_bytes : Bytes) → unframe (frame config_bytes) ≡ ok config_bytes
unfolding unframe frame
unframe-frame config_bytes = ground arith
