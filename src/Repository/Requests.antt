-- ===== src/Repository/Requests.antt =====
-- repository/clickhouse.go: the requests to ClickHouse and what becomes of its responses.
use stream_pulse.Common.{
  ℕ, ◌*◌, ◌^◌, String, ◌<>◌, Option, none, some, List, [], ◌∷◌, ◌++◌, ◌==◌, if◌then◌else◌, take,
}
use stream_pulse.Common.Dict.{Dict, insert}
use stream_pulse.Common.Int.{ℤ}
use stream_pulse.Common.Fallible.{Fallible, ok, err, ◌>>=◌}
use stream_pulse.Server.{ClickHouseConfig}
use Prim.Native.Char.{code}

-- A parsed URL, less its query, and the values of its query.
pub record Url : Type 0 where
  pub base : String
  pub query : Dict String

pub data Body : Type 0 where
  text : String → Body
  bytes : List ℕ → Body

-- A POST request with basic authentication.
pub record HttpRequest : Type 0 where
  pub url : Url
  pub user : String
  pub password : String
  pub content_type : Option String
  pub body : Body

pub record HttpResponse : Type 0 where
  pub status : ℕ
  pub body : List ℕ

-- What the repository takes from outside: ClickHouse behind an `http.Client` (`send`), and the
-- language's library: `url.Parse`, the check of `http.NewRequestWithContext`, the text of bytes,
-- trimmed, and decimal numbers.
pub record Wire : Type 0 where
  pub send : HttpRequest → Fallible String HttpResponse
  pub parse_url : String → Fallible String Url
  pub refuse_url : Url → Option String
  pub trimmed_text : List ℕ → String
  pub decimal : ℤ → String

pub record ClickHouse : Type 0 where
  pub endpoint : String
  pub user : String
  pub password : String

-- `strings.TrimRight(text, "/")`
abbrev pub keep_slash : ℕ → String → String → String
keep_slash c whole String.[] = if c == b'/' then "" else whole
keep_slash c whole (String.◌∷◌ d rest) = whole

abbrev pub trim_slashes : String → String
trim_slashes String.[] = ""
trim_slashes (String.◌∷◌ c rest) =
    let trimmed = trim_slashes rest in keep_slash (code c) (String.◌∷◌ c trimmed) trimmed

-- `NewClickHouse`
unfoldable pub new_click_house : ClickHouseConfig → ClickHouse
new_click_house config = record {
  endpoint = trim_slashes config.endpoint <> "/";
  user = config.user;
  password = config.password;
}

-- `clickHouseError`
abbrev pub click_house_error : Wire → HttpResponse → String
click_house_error w response =
    "ClickHouse status "
    <> (w.decimal (ℤ.pos response.status)
        <> (": " <> w.trimmed_text (take (64 * 2 ^ 10) response.body)))

-- The body of a response with the status 200.
abbrev pub accepted : Wire → HttpResponse → Fallible String (List ℕ)
accepted w response =
    if response.status == 200 then ok response.body else err (click_house_error w response)

-- `http.NewRequestWithContext` and `c.client.Do`
abbrev pub perform : Wire → HttpRequest → Option String → Fallible String HttpResponse
perform w request none = w.send request
perform w request (some e) = err e

abbrev pub request_to : ClickHouse → Url → Option String → Body → HttpRequest
request_to c url content_type body = record {
  url = url;
  user = c.user;
  password = c.password;
  content_type = content_type;
  body = body;
}

abbrev pub post : ClickHouse → Wire → Url → Option String → Body → Fallible String HttpResponse
post c w url content_type body = perform w (request_to c url content_type body) (w.refuse_url url)

abbrev pub failure {ℓ} : {A : Type ℓ} → Fallible String A → Option String
failure (ok _) = none
failure (err e) = some e

-- `fmt.Errorf(prefix + "%w", err)`
abbrev pub wrapped {ℓ} : {A : Type ℓ} → String → Fallible String A → Fallible String A
wrapped prefix (ok a) = ok a
wrapped prefix (err e) = err (prefix <> e)

-- `queryJSON`, with the JSON decoder for the rows that are asked for
unfoldable pub query_json :
    {A : Type 0}
    → ClickHouse
    → Wire
    → (List ℕ → Fallible String A)
    → String
    → Dict String
    → Fallible String A
query_json c w decode query params = do
  endpoint ← w.parse_url c.endpoint
  response ← post c w (record endpoint { query = params }) (some "text/plain") (text query)
  content ← accepted w response
  wrapped "decode ClickHouse response: " (decode (take (8 * 2 ^ 20) content))

-- `insertJSONEachRow`, of a row that is encoded already
unfoldable pub insert_json_each_row :
    ClickHouse → Wire → String → Fallible String (List ℕ) → Option String
insert_json_each_row c w query row = failure (do
  encoded ← row
  endpoint ← w.parse_url c.endpoint
  let params = insert "date_time_input_format" "best_effort" (insert "query" query endpoint.query)
  response ←
      post c w (record endpoint { query = params }) (some "application/x-ndjson")
        (bytes (encoded ++ (b'\n' ∷ [])))
  accepted w response)
