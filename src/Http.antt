-- ===== src/Http.antt =====
-- Requests and responses of package net/http, as far as the relay makes and reads them.
use ohttp_relay.Prelude.{ℕ, Option, List, [], ◌∷◌, if◌then◌else◌}
use ohttp_relay.Text.{Text, Bytes, codes, text_eq, is_empty}
use ohttp_relay.Fault.{Error}

-- The keys are in canonical form, as each literal key of the source is.
abbrev pub Header : Type 0
Header = List (Text × Text)

-- Header.Set: the values under the key are replaced by one.
unfoldable pub set_header : Text → Text → Header → Header
set_header key value [] = (key, value) ∷ []
set_header key value ((k, v) ∷ h) =
    let rest = set_header key value h in if text_eq k key then (key, value) ∷ h else (k, v) ∷ rest

pub record HttpRequest : Type 0 where
  pub method : Text
  pub url : Text
  pub header : Header
  pub body : Bytes

-- The body as io.ReadAll finds it: the bytes read, and the error that stopped the reading.
pub record HttpResponse : Type 0 where
  pub status_code : ℕ
  pub header : Header
  pub body : Bytes
  pub read_error : Option Error

-- What Client.Do returns: a response, or an error, beside which a failed redirect leaves one too.
pub data DoResult : Type 0 where
  responded : HttpResponse → DoResult
  failed : Error → Option HttpResponse → DoResult

-- The method of http.NewRequest: "" means GET.
unfoldable pub request_method : Text → Text
unfolding is_empty
request_method method = if is_empty method then codes "GET" else method
