-- ===== src/Client/Verdict.antt =====
-- cmd/test-client/main.go: the request that `main` sends, and how it judges the answer.
use ohttp_relay.Prelude.{Bool, true, false, not, ◌||◌, Option, none, some, [], ◌∷◌, if◌then◌else◌}
use ohttp_relay.Text.{Text, codes, text_eq}
use ohttp_relay.Fault.{Result, ok, err}
use ohttp_relay.Http.{Header, set_header}
use ohttp_relay.Client.{header_key_outer}

abbrev pub header_key_inner : Text
header_key_inner = codes "X-Test-Header"

abbrev pub inner_header_payload : Text
inner_header_payload = codes "ping"

-- the headers of the request, which is encapsulated with them
abbrev pub test_header : Header
test_header =
    set_header header_key_inner inner_header_payload
      (set_header (codes "Content-Type") (codes "application/json") [])

-- the value under a key of a header
unfoldable pub lookup : Text → Header → Option Text
lookup key [] = none
lookup key ((k, v) ∷ h) = let rest = lookup key h in if text_eq k key then some v else rest

abbrev pub has : Text → Header → Bool
has key h = elim (lookup key h) [ none ↦ false | some v ↦ true ]

-- the parts of the decoded payload that are read; none where it holds no JSON object
pub record Payload : Type 0 where
  pub headers : Option Header
  pub outer_headers : Option Header

-- A failed type assertion panics, a failed test ends with status 1.
pub data Verdict : Type 0 where
  panics fails passes : Verdict

abbrev pub is_returned : Option Text → Bool
is_returned none = false
is_returned (some v) = text_eq v inner_header_payload

-- the tests of `main`
unfoldable pub check_answer : Payload → Header → Verdict
check_answer p resp_header = elim p.headers [
  | none ↦ panics
  | some h ↦ elim p.outer_headers [
    | none ↦ panics
    | some o ↦
        if not (is_returned (lookup header_key_inner h))
          || has header_key_outer o
          || has (codes "X-Test-Gateway-Outer") resp_header
        then fails
        else passes
  ]
]

-- the answer of the client, from its body on; an answer that cannot be decoded ends with status 1
unfoldable pub judge : {B : Type 0} → (B → Result Payload) → Header → B → Verdict
judge decode resp_header body = elim (decode body) [
  | err e ↦ fails
  | ok p ↦ check_answer p resp_header
]
