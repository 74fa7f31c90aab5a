-- ===== src/HttpClient/Requests.antt =====
-- internal/httpclient/client.go: the requests that `Do` sends, and `Get`, `Post` and `PostForm`.
use mcp_remote_go.Base.{
  ℕ, ◌≡◌, refl, sym, ap, ◌∙◌, Bool, true, false, List, [], ◌∷◌, Option, arith, ◌==◌, if◌then◌else◌,
  Bytes, codes, Result, ok, err, All, ◌⊎◌, inl, inr, Bool-cases,
}
use mcp_remote_go.Text.{text_eq, equal_fold}
use mcp_remote_go.Text.Laws.{text_eq_iff, text_eq_refl}
use mcp_remote_go.Http.{Request, HeaderLines, header_get, header_set, set_all}
use mcp_remote_go.Http.Headers.{equal_fold_refl, header_get-set_self, header_get-set_all}
use mcp_remote_go.HttpClient.{Config, Exchange, Outcome, send}

-- What a request has for its body. Of a reader, what attempt `n` still finds in it; of another
-- value, what `json.Marshal` gives.
pub data Body : Type 0 where
  no_body : Body
  text raw : Bytes → Body
  reader : (ℕ → Bytes) → Body
  to_marshal : Result Bytes Bytes → Body

-- `Request`.
pub record ClientRequest : Type 0 where
  pub method : Bytes
  pub url : Bytes
  pub headers : List (Bytes × Bytes)
  pub body : Body

-- The bytes that attempt `n` sends.
unfoldable pub body_bytes : ℕ → Body → Result Bytes Bytes
body_bytes n no_body = ok []
body_bytes n (text s) = ok s
body_bytes n (raw s) = ok s
body_bytes n (reader left) = ok (left n)
body_bytes n (to_marshal b) = b

-- The request that `doSingle` makes: the headers of the request overwrite the default ones.
unfoldable pub http_request : Config → ClientRequest → Bytes → Request
http_request config req bytes = record {
  method = req.method;
  url = req.url;
  headers = set_all req.headers (set_all config.default_headers []);
  body = bytes;
}

-- What the client meets: the answer to a request of attempt `n`, and the context as in `World`.
pub record Server : Type 0 where
  pub answer : ℕ → Request → Exchange
  pub done_after : ℕ → Option Bytes
  pub done_waiting : ℕ → Option Bytes

-- `doSingle` up to the answer.
unfoldable pub exchange_of : Server → Config → ClientRequest → ℕ → Exchange
exchange_of server config req n = elim (body_bytes n req.body) [
  | err e ↦ err e
  | ok bytes ↦ server.answer n (http_request config req bytes)
]

-- `Do` on a request: how many attempts it makes, and the outcome.
unfoldable pub send_request : Server → Config → ClientRequest → ℕ × Outcome
send_request server config req =
    send
      (record {
        exchange = exchange_of server config req;
        done_after = server.done_after;
        done_waiting = server.done_waiting;
      })
      config

-- `headers[name] = line`: names that are spelled differently are different.
unfoldable pub map_set : Bytes → Bytes → List (Bytes × Bytes) → List (Bytes × Bytes)
map_set name line [] = (name, line) ∷ []
map_set name line ((k, v) ∷ m) =
    let rest = map_set name line m in if text_eq k name then (name, line) ∷ m else (k, v) ∷ rest

unfoldable pub map_has : Bytes → List (Bytes × Bytes) → Bool
map_has name [] = false
map_has name ((k, v) ∷ m) = if text_eq k name then true else map_has name m

abbrev pub content_type : Bytes
content_type = codes "Content-Type"

abbrev pub form_type : Bytes
form_type = codes "application/x-www-form-urlencoded"

abbrev pub starts_object : Bytes → Bool
starts_object [] = false
starts_object (c ∷ s) = c == b'{'

-- The switch of `Post`: the body is taken for JSON.
abbrev pub is_json : Body → Bool
is_json (text s) = starts_object s
is_json no_body = true
is_json (raw s) = true
is_json (reader left) = true
is_json (to_marshal b) = true

-- The requests of `Get`, `Post` and `PostForm`; `encode` is `Values.Encode`.
unfoldable pub get_request : Bytes → List (Bytes × Bytes) → ClientRequest
get_request url headers = record {
  method = codes "GET";
  url = url;
  headers = headers;
  body = no_body;
}

unfoldable pub post_request : Bytes → Body → List (Bytes × Bytes) → ClientRequest
post_request url body headers = record {
  method = codes "POST";
  url = url;
  headers =
      if map_has content_type headers
      then headers
      else if is_json body
      then map_set content_type (codes "application/json") headers
      else headers;
  body = body;
}

unfoldable pub post_form_request :
    (List (Bytes × Bytes) → Bytes)
    → Bytes
    → List (Bytes × Bytes)
    → List (Bytes × Bytes)
    → ClientRequest
post_form_request encode url form headers = record {
  method = codes "POST";
  url = url;
  headers = map_set content_type form_type headers;
  body = text (encode form);
}

-- The header `name` stands at most once in a map, spelled as it is here.
abbrev pub IsOnce : Bytes → List (Bytes × Bytes) → Type 0
IsOnce name [] = Unit
IsOnce name ((k, v) ∷ m) =
    ((k ≡ name) × All (λ p. equal_fold p.0 name ≡ false) m)
    ⊎ ((equal_fold k name ≡ false) × IsOnce name m)

text_eq-false : (k name : Bytes) → equal_fold k name ≡ false → text_eq k name ≡ false
text_eq-false k name h = elim (Bool-cases (text_eq k name)) [
  | inr other ↦ other
  | inl same ↦ absurd (
      true-ne-false (
        sym (equal_fold_refl name)
        ∙ ap (λ x. equal_fold x name) (sym ((text_eq_iff k name).0 same))
        ∙ h))
]
  where
    true-ne-false : true ≡ false → ⊥
    true-ne-false e = ground arith

header_get-map_set :
    (name line : Bytes) (m : List (Bytes × Bytes)) (hs : HeaderLines)
    → IsOnce name m
    → header_get name (set_all (map_set name line m) hs) ≡ line
unfolding map_set set_all
header_get-map_set name line [] hs h = header_get-set_self name line hs
header_get-map_set name line ((k, v) ∷ m) hs (inl (same, others)) =
    rw (same, text_eq_refl name)
      (header_get-set_all name m (header_set name line hs) others
        ∙ header_get-set_self name line hs)
header_get-map_set name line ((k, v) ∷ m) hs (inr (other, once)) =
    rw (text_eq-false k name other) (header_get-map_set name line m (header_set k v hs) once)

-- Every attempt of `PostForm` sends the same request: a `POST` of the encoded form to the URL, with
-- the content type of forms, whatever the default headers say. In the caller's map, the content type
-- stands at most once and has this spelling.
pub exchange_of-post_form_request :
    (server : Server) (config : Config) (encode : List (Bytes × Bytes) → Bytes) (url : Bytes)
    (form headers : List (Bytes × Bytes))
    → IsOnce content_type headers
    → (sent : Request) × ((n : ℕ)
        → exchange_of server config (post_form_request encode url form headers) n
          ≡ server.answer n sent)
      × (sent.method ≡ codes "POST")
      × (sent.url ≡ url)
      × (sent.body ≡ encode form)
      × (header_get content_type sent.headers ≡ form_type)
unfolding exchange_of post_form_request http_request body_bytes
exchange_of-post_form_request server config encode url form headers once = (
  http_request config (post_form_request encode url form headers) (encode form),
  λ n. refl,
  refl,
  refl,
  refl,
  header_get-map_set content_type form_type headers (set_all config.default_headers []) once,
)
