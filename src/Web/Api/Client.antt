-- ===== src/Web/Api/Client.antt =====
-- `apiGet`, `apiPost` and `apiDelete` of webui/src/lib/api.ts.
use smartdns_rs.Prelude.{
  Bool, List, Option, [], false, if◌then◌else◌, leb, none, not, show, some, true, ℕ, ◌&&◌, ◌<>◌,
  ◌==◌, ◌||◌, ◌∷◌,
}
use Prim.Native.String.{String}

-- What `fetch` resolves to: a status, and the body as `res.json()` reads it.
pub record Response {ℓ} (A : Type ℓ) : Type ℓ where
  pub status : ℕ
  pub status_text : String
  pub json : Option A

-- A call's promise: resolved with a value or with `undefined`, rejected by the thrown error, or
-- rejected by `fetch` or by `res.json()`.
pub data Reply {ℓ} (A : Type ℓ) : Type ℓ where
  resolved : A → Reply A
  undefined : Reply A
  api_error : String → Reply A
  rejected : Reply A

pub record Request : Type 0 where
  pub method : String
  pub path : String
  pub headers : List (String × String)
  pub body : Option String

-- `res.ok`
abbrev pub is_ok : ℕ → Bool
is_ok status = leb 200 status && leb status 299

abbrev read_json {ℓ} : {A : Type ℓ} → Option A → Reply A
read_json none = rejected
read_json (some a) = resolved a

abbrev error_text : ℕ → String → String
error_text status text = "API error: " <> show status <> " " <> text

abbrev json_header : List (String × String)
json_header = ("Content-Type", "application/json") ∷ []

-- The request that each call makes, `body` already as JSON text.
unfoldable pub get_request : String → Request
get_request path = record { method = "GET"; path = path; headers = []; body = none }

unfoldable pub post_request : String → Option String → Request
post_request path body = record { method = "POST"; path = path; headers = json_header; body = body }

unfoldable pub delete_request : String → Option String → Request
delete_request path body = record {
  method = "DELETE";
  path = path;
  headers = json_header;
  body = body;
}

module _ {ℓ} {A : Type ℓ} where
  -- What each call makes of the answer; `none` is a failed `fetch`.
  unfoldable pub api_get : Option (Response A) → Reply A
  api_get none = rejected
  api_get (some res) =
      if not (is_ok res.status)
      then api_error (error_text res.status res.status_text)
      else read_json res.json

  unfoldable pub api_post : Option (Response A) → Reply A
  api_post none = rejected
  api_post (some res) =
      if not (is_ok res.status)
      then api_error (error_text res.status res.status_text)
      else if res.status == 201 || res.status == 204
      then undefined
      else read_json res.json

  unfoldable pub api_delete : Option (Response A) → Reply A
  api_delete none = rejected
  api_delete (some res) =
      if not (is_ok res.status)
      then api_error (error_text res.status res.status_text)
      else if res.status == 204
      then undefined
      else read_json res.json

  -- Whether the promise is fulfilled, which is when a mutation's `onSuccess` runs.
  abbrev pub fulfilled : Reply A → Bool
  fulfilled (resolved a) = true
  fulfilled undefined = true
  fulfilled (api_error e) = false
  fulfilled rejected = false
