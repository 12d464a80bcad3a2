-- ===== src/Examples/Calls.antt =====
-- Examples on the client of the Cloud API and on the rate limiter.
use whatsapp_api.Base.{
  ℕ, ◌+◌, ◌≡◌, refl, arith, true, ◌&&◌, String, some, [], ◌∷◌, ◌++◌, ◌<>◌, ◌==◌, str_eq, leb,
  if◌then◌else◌,
}
use whatsapp_api.Base.Exec.{ok}
use whatsapp_api.Json.{Json, null, str, arr, obj, Items, field, end, get_or, get, iterate, truthy}
use whatsapp_api.Utils.Retry.{with_retry, retry_from}
use whatsapp_api.Utils.Retry.Laws.{Counts, IsTransient}
use whatsapp_api.Client.{
  Http, Client, Request, policy, call_once, request, templates_from, read_page, is_transient,
}
use whatsapp_api.Client.Responses.{
  Response, response, timed_out, read_outcome, read_response, raise_for_status, read_content,
  parsed,
}
use whatsapp_api.Client.Laws.{request_exhausted}
use whatsapp_api.Client.Listing.{Pages, flat, templates_from-Pages}
use whatsapp_api.RateLimiter.{Redis, RateLimiter, acquire}
use whatsapp_api.RateLimiter.Laws.{
  IsCounter, sends, sends_to, granted, repeat, acquire_lem, granted_burst,
}

abbrev sender : Client
sender = record {
  access_token = "t";
  phone_number_id = "100";
  api_version = "v21.0";
  base_url = "https://graph.facebook.com";
}

-- Meta never answering; the state counts the calls.
abbrev silent : Http
silent = record {
  State = ℕ;
  request = λ r n. (timed_out, n + 1);
  uniform = λ d n. (0, n);
  sleep = λ d n. n;
}

abbrev ping : Request
ping = record {
  method = "GET";
  url = "u";
  json = null;
  params = null;
  authorization = "Bearer " <> "t";
}

silent_calls : Counts silent.uniform silent.sleep (call_once silent ping)
unfolding call_once
silent_calls = record {
  count = λ n. n;
  fn_counts = λ s. refl;
  sleep_keeps = λ d s. refl;
  uniform_keeps = λ d s. refl;
}

abbrev page : Json → Json → Response
page rows paging = record {
  status_code = 200;
  text = "";
  has_content = true;
  json = some (obj (field "data" rows (field "paging" paging end)));
}

-- Meta serving two pages of templates.
abbrev page_of : ℕ → Response
page_of n =
    if n == 0
    then page (arr (Items.cons (str "a") Items.nil)) (obj (field "next" (str "second") end))
    else page (arr (Items.cons (str "b") Items.nil)) (obj end)

abbrev two_pages : Http
two_pages = record {
  State = ℕ;
  request = λ r n. (response (page_of n), n + 1);
  uniform = λ d n. (0, n);
  sleep = λ d n. n;
}

served : Pages two_pages sender (str "u") null 0 ((str "a" ∷ []) ∷ (str "b" ∷ []) ∷ []) 2
unfolding request with_retry retry_from call_once read_outcome read_response raise_for_status
    read_content parsed read_page get_or get iterate truthy str_eq
served =
    Pages.more "u" null 0 1 2 (str "a" ∷ []) (str "second") ((str "b" ∷ []) ∷ []) refl refl refl
      (Pages.last "second" null 1 2 (str "b" ∷ []) null refl refl refl)

-- Redis as a function from keys to counters.
abbrev counters : Redis
counters = record {
  State = String → ℕ;
  incr = λ k s. (ok (s k + 1), λ j. if str_eq k j then s j + 1 else s j);
  expire = λ k t s. (ok tt, s);
  delete = λ k s. (ok tt, λ j. if str_eq k j then 0 else s j);
}

counters-IsCounter : IsCounter counters
counters-IsCounter = record {
  value = λ s k. s k;
  incr_reply = λ k s. refl;
  value-incr = λ k j s. refl;
  expire_reply = λ k t s. refl;
  value-expire = λ k j t s. refl;
}

abbrev limiter : RateLimiter
limiter = record { max_per_second = 80; max_burst_per_recipient = 45; recipient_window = 6 }

abbrev no_sends : String → ℕ
no_sends k = 0

request_exhausted_example :
    IsTransient policy (request silent sender "GET" "u" null null 0).0
    × (silent_calls.count (request silent sender "GET" "u" null null 0).1
        ≡ silent_calls.count 0 + 3)
unfolding call_once read_outcome is_transient
request_exhausted_example =
    request_exhausted silent sender "GET" "u" null null 0 silent_calls (λ t. refl)

templates_from-Pages_example :
    templates_from two_pages 2 sender (str "u") null ([]) 0
    ≡ (ok (([]) ++ flat (((str "a" ∷ []) ∷ (str "b" ∷ []) ∷ []))), 2)
templates_from-Pages_example =
    templates_from-Pages two_pages sender 2 (str "u") null [] 0 2
      ((str "a" ∷ []) ∷ (str "b" ∷ []) ∷ []) served (omega arith)

acquire_lem_example :
    let (granted, s') = acquire counters limiter "100" "+1" no_sends in
    (granted ≡ (
      leb (((sends counters counters-IsCounter limiter "100")) no_sends + 1) limiter.max_per_second
      && leb
          (((sends_to counters counters-IsCounter limiter "100")) "+1" no_sends + 1)
          limiter.max_burst_per_recipient))
    × (((sends counters counters-IsCounter limiter "100")) s'
        ≡ ((sends counters counters-IsCounter limiter "100")) no_sends + 1)
    × (((sends_to counters counters-IsCounter limiter "100")) "+1" s' ≡ (
        if leb
          (((sends counters counters-IsCounter limiter "100")) no_sends + 1)
          limiter.max_per_second
        then ((sends_to counters counters-IsCounter limiter "100")) "+1" no_sends + 1
        else ((sends_to counters counters-IsCounter limiter "100")) "+1" no_sends))
acquire_lem_example = acquire_lem counters counters-IsCounter limiter "100" "+1" no_sends

granted_burst_example :
    ((granted counters counters-IsCounter limiter "100"))
      (((repeat counters counters-IsCounter limiter "100")) 45 "+1")
      no_sends
    ≡ 45
unfolding counters-IsCounter
granted_burst_example =
    granted_burst counters counters-IsCounter limiter "100" 45 "+1" no_sends (omega arith)
      (omega arith)
