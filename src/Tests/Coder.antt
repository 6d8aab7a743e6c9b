-- ===== src/Tests/Coder.antt =====
-- A coder of echoes that reads back what it writes, and the test of the client with it.
use ohttp_relay.Prelude.{ℕ, zero, suc, ◌≡◌, refl, ap, some, none, [], ◌∷◌}
use ohttp_relay.Text.{text_eq, Text, Bytes, codes}
use ohttp_relay.Fault.{Result, ok}
use ohttp_relay.Http.{set_header, Header, HttpRequest}
use ohttp_relay.Echo.{Request, Echo}
use ohttp_relay.Client.Verdict.{Payload, test_header, lookup}
use ohttp_relay.Client.EndToEnd.{ReadsBack}

-- A character stands after the mark of a key or of a value, and 1 ends an entry, 0 a header.
abbrev marked : ℕ → Text → Bytes → Bytes
marked mark [] rest = rest
marked mark (c ∷ s) rest = mark ∷ c ∷ marked mark s rest

abbrev write_entries : Header → Bytes → Bytes
write_entries [] rest = 0 ∷ rest
write_entries ((k, v) ∷ h) rest = marked 2 k (marked 3 v (1 ∷ write_entries h rest))

abbrev push_key : ℕ → Header → Header
push_key c [] = []
push_key c ((k, v) ∷ h) = (c ∷ k, v) ∷ h

abbrev push_value : ℕ → Header → Header
push_value c [] = []
push_value c ((k, v) ∷ h) = (k, c ∷ v) ∷ h

abbrev read_entries : Bytes → Header × Bytes
read_entries [] = ([], [])
read_entries (zero ∷ rest) = ([], rest)
read_entries (suc zero ∷ rest) = let (h, more) = read_entries rest in (([], []) ∷ h, more)
read_entries (suc (suc zero) ∷ c ∷ rest) = let (h, more) = read_entries rest in (push_key c h, more)
read_entries (suc (suc (suc _)) ∷ c ∷ rest) =
    let (h, more) = read_entries rest in (push_value c h, more)
read_entries (suc (suc _) ∷ []) = ([], [])

value-read :
    (v : Text) (h : Header) (bytes more : Bytes)
    → read_entries bytes ≡ (([], []) ∷ h, more)
    → read_entries (marked 3 v bytes) ≡ (([], v) ∷ h, more)
value-read [] h bytes more e = e
value-read (c ∷ v) h bytes more e =
    ap (λ (r : Header × Bytes). (push_value c r.0, r.1)) (value-read v h bytes more e)

key-read :
    (k v : Text) (h : Header) (bytes more : Bytes)
    → read_entries bytes ≡ (([], v) ∷ h, more)
    → read_entries (marked 2 k bytes) ≡ ((k, v) ∷ h, more)
key-read [] v h bytes more e = e
key-read (c ∷ k) v h bytes more e =
    ap (λ (r : Header × Bytes). (push_key c r.0, r.1)) (key-read k v h bytes more e)

entries-read : (h : Header) (rest : Bytes) → read_entries (write_entries h rest) ≡ (h, rest)
entries-read [] rest = refl
entries-read ((k, v) ∷ h) rest = key-read k v h _ rest (
    value-read v h _ rest
      (ap (λ (r : Header × Bytes). (([], []) ∷ r.0, r.1)) (entries-read h rest)))

abbrev pub encode : Echo → Result Bytes
encode e = ok (write_entries e.headers (write_entries e.outer_headers []))

abbrev pub decode : Bytes → Result Payload
decode bytes = ok (record {
  headers = some (read_entries bytes).0;
  outer_headers = some (read_entries (read_entries bytes).1).0;
})

pub reads : ReadsBack encode decode
reads e some_header some_outer = (
  write_entries e.headers (write_entries e.outer_headers []),
  refl,
  rw (entries-read e.headers (write_entries e.outer_headers []), entries-read e.outer_headers [])
      refl,
)

abbrev pub pinged_request : Request
pinged_request = record {
  method = codes "POST";
  path = codes "/";
  header = test_header;
  body = ok (codes "hello");
  outer = none;
}

abbrev pub sealed_request : HttpRequest
sealed_request = record {
  method = codes "POST";
  url = codes "http://relay";
  header = [];
  body = 9 ∷ [];
}

pub pinged : lookup (codes "X-Test-Header") test_header ≡ some (codes "ping")
unfolding lookup set_header text_eq
pinged = refl
