-- ===== src/Api/Reading/Laws.antt =====
-- What the listing of messages holds.
use whatsapp_api.Base.{
  ℕ, ◌-◌, ◌*◌, ◌≤◌, ◌≡◌, ◌↔◌, refl, true, Bool, ◌&&◌, List, select, take, drop, length, max, min,
  arith,
}
use whatsapp_api.Base.Int.{pos}
use whatsapp_api.Base.Exec.{ok}
use whatsapp_api.Base.Newest.{IsNewestFirst, newest_first-IsNewestFirst}
use whatsapp_api.Models.{Message}
use whatsapp_api.Store.{Db}
use whatsapp_api.Store.Counting.{count}
use whatsapp_api.Store.Sessions.{get_session}
use whatsapp_api.Utils.Pagination.{Paginated, paginate, page_rows, clamp_size}
use whatsapp_api.Api.Reading.{MessageFilter, passes, filtered, list_messages}
use whatsapp_api.Api.Reading.Wanted.{Wants, passes-Wants, count-newest_first}

-- The listing changes nothing and answers with the page that was asked for of the rows that were
-- asked for. The rows are the stored messages that fit every filter of the request, each as often
-- as it is stored, none before a newer one, and `total` is their number. FastAPI admits a page
-- from 1 on and a size from 1 to 500.
pub list_messages_lem :
    (f : MessageFilter) (page page_size : ℕ) (s : Db)
    → 1 ≤ page
    → 1 ≤ page_size
    → page_size ≤ 500
    → (rows : List Message) × (keep : Message → Bool) × (answer : Paginated Message)
      × (list_messages f page page_size s ≡ (ok answer, s))
      × (answer.items ≡ take page_size (drop ((page - 1) * page_size) rows))
      × (answer.total ≡ length rows)
      × IsNewestFirst (λ (m : Message). m.created_at) rows
      × ((p : Message → Bool) → count p rows ≡ count (λ m. keep m && p m) s.messages)
      × ((m : Message) → (keep m ≡ true) ↔ Wants f m)
unfolding list_messages get_session filtered paginate page_rows clamp_size
list_messages_lem f page page_size s from_one some_rows at_most = (
  filtered f s,
  passes f,
  paginate (filtered f s) (pos page) (pos page_size),
  refl,
  rw (page_lem, size_lem) refl,
  refl,
  newest_first-IsNewestFirst (λ (m : Message). m.created_at) (select (passes f) s.messages),
  λ p. count-newest_first p (λ (m : Message). m.created_at) (passes f) s.messages,
  passes-Wants f,
)
  where
    page_lem : max 1 page ≡ page
    page_lem = omega (arith, from_one)

    size_lem : max 1 (min page_size 500) ≡ page_size
    size_lem = omega (arith, some_rows, at_most)
