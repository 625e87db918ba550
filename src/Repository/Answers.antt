-- ===== src/Repository/Answers.antt =====
-- When a query to ClickHouse succeeds, and what an insert sends.
use stream_pulse.Common.{
  ℕ, ◌*◌, ◌^◌, ◌≡◌, ◌∙◌, ◌↔◌, ◌==◌, refl, ap, inl, inr, String, ◌<>◌, Option, none, some, List, [],
  ◌∷◌, ◌++◌, arith, Bool-cases, take,
}
use stream_pulse.Common.Dict.{Dict, insert}
use stream_pulse.Common.Fallible.{Fallible, ok, err, >>=-eq-ok, >>=-of_ok, ok-injective}
use stream_pulse.Repository.Requests.{
  Url, Body, text, bytes, HttpRequest, HttpResponse, Wire, ClickHouse, accepted, perform,
  request_to, post, failure, wrapped, click_house_error, query_json, insert_json_each_row,
}

module _ (c : ClickHouse) (w : Wire) where
  -- ClickHouse answered this POST request with 200 and these bytes.
  pub record IsPosted (url : Url) (content_type : Option String) (body : Body) (content : List ℕ)
      : Type 0 where
    pub response : HttpResponse
    pub allowed : w.refuse_url url ≡ none
    pub sent : w.send (request_to c url content_type body) ≡ ok response
    pub status : response.status ≡ 200
    pub read : response.body ≡ content

  accepted-ok :
      (response : HttpResponse) (content : List ℕ)
      → accepted w response ≡ ok content
      → (response.status ≡ 200) × (response.body ≡ content)
  accepted-ok response content h = elim (Bool-cases (response.status == 200)) [
    | inl p ↦ (ground arith, ok-injective (rw p at h))
    | inr p ↦ let bad : err (click_house_error w response) ≡ ok content = rw p at h in cc
  ]

  perform-ok :
      (request : HttpRequest) (refusal : Option String) (response : HttpResponse)
      → perform w request refusal ≡ ok response
      → (refusal ≡ none) × (w.send request ≡ ok response)
  perform-ok request none response h = (refl, h)
  perform-ok request (some e) response h = cc

  pub posted :
      (url : Url) (content_type : Option String) (body : Body) (response : HttpResponse)
      (content : List ℕ)
      → post c w url content_type body ≡ ok response
      → accepted w response ≡ ok content
      → IsPosted url content_type body content
  posted url content_type body response content h a =
      let (status, read) = accepted-ok response content a in
      let (allowed, sent) =
        perform-ok (request_to c url content_type body) (w.refuse_url url) response h in
      record { response = response; allowed = allowed; sent = sent; status = status; read = read }

  posted-accepted :
      (url : Url) (content_type : Option String) (body : Body) (content : List ℕ)
      (p : IsPosted url content_type body content)
      → (post c w url content_type body ≡ ok p.response) × (accepted w p.response ≡ ok content)
  posted-accepted url content_type body content p =
      (rw (p.allowed, perform) p.sent, rw (p.status) (ap ok p.read))

pub wrapped-ok :
    {A : Type 0} (prefix : String) (answer : Fallible String A) (a : A)
    → (wrapped prefix answer ≡ ok a) ↔ (answer ≡ ok a)
wrapped-ok prefix (ok b) a = (λ h. h, λ h. h)
wrapped-ok prefix (err e) a = (λ h. let bad : err (prefix <> e) ≡ ok a = h in cc, λ h. cc)

module _ {A : Type 0} (c : ClickHouse) (w : Wire) (decode : List ℕ → Fallible String A)
    (query : String) (params : Dict String) (a : A) where
  -- ClickHouse answered the query, with its parameters in the URL, with 200 and JSON of `a`.
  pub record IsAnswered : Type 0 where
    pub endpoint : Url
    pub content : List ℕ
    pub parsed : w.parse_url c.endpoint ≡ ok endpoint
    pub answered :
        IsPosted c w (record endpoint { query = params }) (some "text/plain") (text query) content
    pub decoded : decode (take (8 * 2 ^ 20) content) ≡ ok a

  pub query_json-answered : query_json c w decode query params ≡ ok a → IsAnswered
  unfolding query_json
  query_json-answered h =
      let (endpoint, p, h1) = >>=-eq-ok _ _ h in
      let (response, q, h2) = >>=-eq-ok _ _ h1 in
      let (content, r, h3) = >>=-eq-ok _ _ h2 in
      record {
        endpoint = endpoint;
        content = content;
        parsed = p;
        answered = posted c w _ _ _ response content q r;
        decoded = (wrapped-ok "decode ClickHouse response: " _ a).0 h3;
      }

  pub answered-query_json : IsAnswered → query_json c w decode query params ≡ ok a
  unfolding query_json
  answered-query_json h =
      let (sent, read) = posted-accepted c w _ _ _ h.content h.answered in
      >>=-of_ok _ _ h.endpoint h.parsed
      ∙ >>=-of_ok _ _ h.answered.response sent
      ∙ >>=-of_ok _ _ h.content read
      ∙ (wrapped-ok "decode ClickHouse response: " _ a).1 h.decoded

failure-none : (m : Fallible String (List ℕ)) → failure m ≡ none → (a : List ℕ) × (m ≡ ok a)
failure-none (ok a) h = (a, refl)
failure-none (err e) h = cc

module _ (c : ClickHouse) (w : Wire) (query : String) (row : Fallible String (List ℕ)) where
  -- ClickHouse took the encoded row, a line of its own, with 200, under this statement.
  pub record IsInserted : Type 0 where
    pub encoded : List ℕ
    pub endpoint : Url
    pub content : List ℕ
    pub marshalled : row ≡ ok encoded
    pub parsed : w.parse_url c.endpoint ≡ ok endpoint
    pub taken :
        IsPosted c w
          (record endpoint {
            query =
                insert "date_time_input_format" "best_effort" (insert "query" query endpoint.query);
          })
          (some "application/x-ndjson")
          (bytes (encoded ++ (b'\n' ∷ [])))
          content

  pub inserted : insert_json_each_row c w query row ≡ none → IsInserted
  unfolding insert_json_each_row
  inserted h =
      let (content, h0) = failure-none _ h in
      let (encoded, p, h1) = >>=-eq-ok _ _ h0 in
      let (endpoint, q, h2) = >>=-eq-ok _ _ h1 in
      let (response, r, h3) = >>=-eq-ok _ _ h2 in
      record {
        encoded = encoded;
        endpoint = endpoint;
        content = content;
        marshalled = p;
        parsed = q;
        taken = posted c w _ _ _ response content r h3;
      }

  pub insert_json_each_row-none : IsInserted → insert_json_each_row c w query row ≡ none
  unfolding insert_json_each_row
  insert_json_each_row-none h =
      let (sent, read) = posted-accepted c w _ _ _ h.content h.taken in
      ap failure (
        >>=-of_ok _ _ h.encoded h.marshalled
        ∙ >>=-of_ok _ _ h.endpoint h.parsed
        ∙ >>=-of_ok _ _ h.taken.response sent
        ∙ read)
