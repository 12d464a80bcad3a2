-- ===== src/Client/Laws.antt =====
-- How a response is classified, and how many HTTP calls a request makes.
use whatsapp_api.Base.{
  ℕ, ◌+◌, ◌≤◌, ◌<◌, ◌≡◌, refl, ◌∙◌, ◌≢◌, ◌↔◌, ◌⊎◌, inl, inr, true, false, not, ◌||◌, String, ◌<>◌,
  Option, none, some, ltb, ◌==◌, arith, Bool-cases,
}
use whatsapp_api.Base.Exec.{ok, err}
use whatsapp_api.Errors.{
  prodaxis, failure, class_status, meta_auth, meta_invalid_request, meta_server, meta_error,
}
use whatsapp_api.Json.{Json}
use whatsapp_api.Utils.Retry.Laws.{
  IsFinal, IsTransient, Counts, with_retry_once, with_retry_count, with_retry_exhausted,
}
use whatsapp_api.Client.{Http, Request, Client, is_transient, policy, call_once, request}
use whatsapp_api.Client.Responses.{
  Response, response, classify, raise_for_status, response_failure, read_response, read_content,
  parsed, read_outcome, is_code, is_rate_code,
}

-- The error for a response of status 400 or more: a rejected token exactly for status 401 or
-- code 190; a server error exactly for a status from 500 on whose code is neither that nor one of
-- the rate-limit codes; never the bare `MetaError`. An invalid request keeps the status of the
-- response, and the API answers with a status between 400 and 502.
classify_cases :
    (status : ℕ) (code : Json) (msg : String)
    → 400 ≤ status
    → let f = classify status code msg in
      ((f.kind ≡ meta_auth) ↔ ((status ≡ 401) ⊎ (is_code 190 code ≡ true)))
      × ((f.kind ≡ meta_server)
          ↔ ((500 ≤ status) × (is_code 190 code ≡ false) × (is_rate_code code ≡ false)))
      × (f.kind ≢ meta_error)
      × (f.kind ≡ meta_invalid_request → f.status_code ≡ status)
      × (400 ≤ f.status_code)
      × (f.status_code ≤ 502)
unfolding classify failure class_status
classify_cases status code msg h =
    (ground arith, ground arith, ground arith, ground arith, ground arith, ground arith)

classify-client_error :
    (status : ℕ) (code : Json) (msg : String)
    → status < 500
    → is_transient (prodaxis (classify status code msg)) ≡ false
unfolding classify failure is_transient
classify-client_error status code msg h = ground arith

classify-server_error :
    (status : ℕ) (code : Json) (msg : String)
    → 500 ≤ status
    → is_code 190 code ≡ false
    → is_rate_code code ≡ false
    → is_transient (prodaxis (classify status code msg)) ≡ true
unfolding classify failure is_transient
classify-server_error status code msg h a b = ground arith

parsed-IsFinal : (o : Option Json) → IsFinal policy (parsed o)
unfolding parsed is_transient
parsed-IsFinal (some j) = tt
parsed-IsFinal none = refl

read_content-IsFinal : (r : Response) → IsFinal policy (read_content r)
unfolding read_content is_transient
read_content-IsFinal r = elim (Bool-cases (r.status_code == 204 || not r.has_content)) [
  | inl e ↦ rw e tt
  | inr e ↦ rw e (parsed-IsFinal r.json)
]

raise_for_status-client_error :
    (r : Response)
    → r.status_code < 500
    → (raise_for_status r ≡ ok tt)
      ⊎ ((raise_for_status r ≡ err (prodaxis (response_failure r)))
          × (is_transient (prodaxis (response_failure r)) ≡ false))
unfolding raise_for_status response_failure
raise_for_status-client_error r h = elim (Bool-cases (ltb r.status_code 400)) [
  | inl e ↦ inl (rw e)
  | inr e ↦ inr (rw e, classify-client_error r.status_code _ _ h)
]

read_response-IsFinal : (r : Response) → r.status_code < 500 → IsFinal policy (read_response r)
unfolding read_response
read_response-IsFinal r h = elim (raise_for_status-client_error r h) [
  | inl e ↦ rw e (read_content-IsFinal r)
  | inr (e, final) ↦ rw e final
]

module _ (http : Http) (c : Client) (method url : String) (json params : Json)
    (s : http.State) where
  abbrev sent : Request
  sent = record {
    method = method;
    url = url;
    json = json;
    params = params;
    authorization = "Bearer " <> c.access_token;
  }

  -- A response whose status is below 500, an error of the 4xx range included, ends the call: the
  -- HTTP client was called once, and its response is the result.
  request_no_retry :
      (r : Response)
      → (http.request sent s).0 ≡ response r
      → r.status_code < 500
      → request http c method url json params s ≡ (read_response r, (http.request sent s).1)
  unfolding request call_once read_outcome
  request_no_retry r e h =
      with_retry_once policy http.uniform http.sleep (call_once http sent) s (omega arith)
        (rw e (read_response-IsFinal r h))
      ∙ rw e

  -- Whatever Meta answers, a request is three HTTP calls at most, by any count of the calls that
  -- pauses leave alone.
  request_calls :
      (k : Counts http.uniform http.sleep (call_once http sent))
      → k.count (request http c method url json params s).1 ≤ k.count s + 3
  unfolding request
  request_calls k = with_retry_count policy http.uniform http.sleep (call_once http sent) k s

  -- While every call fails in transit or with a server error, a request is three calls exactly, and
  -- raises such an error.
  pub request_exhausted :
      (k : Counts http.uniform http.sleep (call_once http sent))
      → ((t : http.State) → IsTransient policy (call_once http sent t).0)
      → IsTransient policy (request http c method url json params s).0
        × (k.count (request http c method url json params s).1 ≡ k.count s + 3)
  unfolding request
  request_exhausted k failing =
      with_retry_exhausted policy http.uniform http.sleep (call_once http sent) k failing s
        (omega arith)
