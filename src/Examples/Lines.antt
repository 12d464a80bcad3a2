-- ===== src/Examples/Lines.antt =====
-- Redis, Meta's answers, and the worlds of the examples on sends.
use whatsapp_api.Base.{ℕ, ◌+◌, true, false, String, none, some, str_eq, if◌then◌else◌}
use whatsapp_api.Base.Exec.{ok}
use whatsapp_api.Errors.{Error}
use whatsapp_api.Json.{Json, str, arr, obj, Items, field, end}
use whatsapp_api.Client.{Http}
use whatsapp_api.Client.Responses.{Response, response, timed_out}
use whatsapp_api.RateLimiter.{Redis, RateLimiter, acquire}
use whatsapp_api.Messages.{SendTextRequest}

abbrev pub shown : Error → String
shown e = "error"

abbrev pub counters : Redis
counters = record {
  State = String → ℕ;
  incr = λ k s. (ok (s k + 1), λ j. if str_eq k j then s j + 1 else s j);
  expire = λ k t s. (ok tt, s);
  delete = λ k s. (ok tt, λ j. if str_eq k j then 0 else s j);
}

abbrev pub limiter : RateLimiter
limiter = record { max_per_second = 80; max_burst_per_recipient = 45; recipient_window = 6 }

abbrev pub no_sends : String → ℕ
no_sends k = 0

abbrev pub one_send : String → ℕ
one_send = (acquire counters limiter "100" "+14155552671" no_sends).1

-- Meta never answering, and giving every request one answer; the state counts the calls.
abbrev pub silent : Http
silent = record {
  State = ℕ;
  request = λ r n. (timed_out, n + 1);
  uniform = λ d n. (0, n);
  sleep = λ d n. n;
}

abbrev pub answering : Response → Http
answering a = record {
  State = ℕ;
  request = λ r n. (response a, n + 1);
  uniform = λ d n. (0, n);
  sleep = λ d n. n;
}

abbrev pub good : Json → Response
good j = record { status_code = 200; text = ""; has_content = true; json = some j }

abbrev pub acceptance : Json
acceptance =
    obj (field "messages" (arr (Items.cons (obj (field "id" (str "m9") end)) Items.nil)) end)

abbrev pub accepting : Http
accepting = answering (good acceptance)

-- The refusal of a recipient that has no account.
abbrev bad : Response
bad = record { status_code = 400; text = "no account"; has_content = true; json = none }

abbrev pub refusing : Http
refusing = answering bad

abbrev pub hello : SendTextRequest
hello = record { tenant_id = some 1; to = "+14155552671"; text = "Hello"; preview_url = false }
