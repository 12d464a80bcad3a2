-- ===== src/Campaigns/Upload.antt =====
-- `CampaignService.upload_recipients`. What `csv.DictReader` makes of the decoded file is the
-- argument `csv`: its field names or the error that reading them raises, its rows, each a dict, and
-- the error, if any, that the reader raises after these rows.
pub mod Laws
use whatsapp_api.Base.{
  ℕ, ◌+◌, ◌≡◌, not, ◌&&◌, ◌||◌, String, ◌<>◌, Option, none, some, List, [], ◌∷◌, ◌++◌, exists, find,
  length, take, str_eq, map, if◌then◌else◌,
}
use whatsapp_api.Base.Text.{lower_eq, is_empty, strip}
use whatsapp_api.Base.Exec.{
  Result, ok, err, Action, ◌>>=◌, ◌>>◌, pure, gets, lift, modify, raise_if, or_raise,
}
use whatsapp_api.Errors.{Error, prodaxis, coded, saying, validation_error, conflict, Kind}
use whatsapp_api.Json.{Json, str, arr, from_list, decimal}
use whatsapp_api.Models.{Campaign, CampaignRecipient, CampaignRecipientStatus, campaign_value}
use whatsapp_api.Store.{Db, put_campaign, flush}
use whatsapp_api.Utils.Phone.{PhoneLib, normalize_phone}
use whatsapp_api.Campaigns.{get, is_open}

-- A row: a short row has cells with no value, and a long one has extra values under the key `None`.
pub record CsvRow : Type 0 where
  pub cells : List (String × Option String)
  pub extra : Option (List String)

pub record Csv : Type 0 where
  pub fieldnames : Result (Option (List String))
  pub rows : List CsvRow
  pub stopped : Option Error

-- The local variables of the loop; `added` are the recipients added to the session.
pub record Upload : Type 0 where
  pub rows_parsed : ℕ
  pub rows_inserted : ℕ
  pub skip_reasons : List String
  pub seen : List String
  pub added : List CampaignRecipient

-- schemas/campaign.py
pub record CampaignUploadResponse : Type 0 where
  pub campaign_id : ℕ
  pub rows_parsed : ℕ
  pub rows_inserted : ℕ
  pub rows_skipped : ℕ
  pub skip_reasons : List String

-- The first field that is `phone` in some case.
unfoldable pub phone_field : Option (List String) → Option String
phone_field none = none
phone_field (some names) = find (λ f. lower_eq f "phone") names

-- `row.get(phone_field) or ""`
unfoldable pub cell : String → List (String × Option String) → String
cell k [] = ""
cell k ((j, v) ∷ cells) = if str_eq j k then (elim v [ some s ↦ s | none ↦ "" ]) else cell k cells

abbrev extra_variable : Option (List String) → List (String × Json)
extra_variable none = []
extra_variable (some values) = ("null", arr (from_list (map str values))) ∷ []

abbrev kept_cell : String → String → Option String → Option Json
kept_cell phone_field k none = none
kept_cell phone_field k (some v) = if str_eq k phone_field || is_empty v then none else some (str v)

abbrev with_cell : String → Option Json → List (String × Json) → List (String × Json)
with_cell k none rest = rest
with_cell k (some v) rest = (k, v) ∷ rest

abbrev cell_variables : String → List (String × Option String) → List (String × Json)
cell_variables phone_field [] = []
cell_variables phone_field ((k, v) ∷ cells) =
    with_cell k (kept_cell phone_field k v) (cell_variables phone_field cells)

-- The other cells that have a value; the key `None` is `null` in the column.
unfoldable variables : String → CsvRow → List (String × Json)
variables phone_field row = cell_variables phone_field row.cells ++ extra_variable row.extra

-- `except ValidationError`
unfoldable pub caught : Error → Option String
caught (prodaxis f) = elim f.kind [ Kind.validation_error ↦ some f.message | _ ↦ none ]
caught _ = none

unfoldable pub skip : String → Upload → Upload
skip why u = record u {
  skip_reasons = u.skip_reasons ++ (("row " <> decimal u.rows_parsed <> ": " <> why) ∷ []);
}

module _ (lib : PhoneLib) (campaign_id first_id now : ℕ) (field : String) where
  abbrev recipient : String → CsvRow → ℕ → CampaignRecipient
  recipient phone row n = record {
    id = first_id + n;
    created_at = now;
    campaign_id = campaign_id;
    phone = phone;
    variables = variables field row;
    status = CampaignRecipientStatus.queued;
    wa_message_id = Json.null;
    error_message = none;
    attempted_at = none;
    completed_at = none;
    attempt_count = 0;
  }

  unfoldable pub insert : String → CsvRow → Upload → Upload
  unfolding variables
  insert phone row u = record u {
    rows_inserted = u.rows_inserted + 1;
    seen = u.seen ++ (phone ∷ []);
    added = u.added ++ (recipient phone row u.rows_inserted ∷ []);
  }

  -- The row whose phone `normalize_phone` gave, or its error.
  unfoldable pub take_phone : Result String → CsvRow → Upload → Result Upload
  take_phone (ok phone) row u =
      if exists (str_eq phone) u.seen
      then ok (skip ("duplicate phone " <> phone) u)
      else ok (insert phone row u)
  take_phone (err e) row u = elim (caught e) [ some message ↦ ok (skip message u) | none ↦ err e ]

  abbrev pub counted : Upload → Upload
  counted u = record u { rows_parsed = u.rows_parsed + 1 }

  unfoldable pub take_row : CsvRow → Upload → Result Upload
  take_row row u =
      let raw = strip (cell field row.cells) in
      if is_empty raw
      then ok (skip "empty phone" (counted u))
      else take_phone (normalize_phone lib raw) row (counted u)

  abbrev pub and_then : Result Upload → (Upload → Result Upload) → Result Upload
  and_then (ok u) f = f u
  and_then (err e) f = err e

  unfoldable pub take_rows : List CsvRow → Upload → Result Upload
  take_rows [] u = ok u
  take_rows (row ∷ rows) u = and_then (take_row row u) (take_rows rows)

abbrev pub empty_upload : Upload
empty_upload = record {
  rows_parsed = 0;
  rows_inserted = 0;
  skip_reasons = [];
  seen = [];
  added = [];
}

abbrev pub grown : ℕ → Campaign → Campaign
grown n c = record c { total_recipients = c.total_recipients + n }

abbrev pub add_recipients : Upload → Db → Db
add_recipients u s = record s {
  recipients = s.recipients ++ u.added;
  next_id = s.next_id + u.rows_inserted;
}

abbrev pub response : Campaign → Upload → CampaignUploadResponse
response c u = record {
  campaign_id = c.id;
  rows_parsed = u.rows_parsed;
  rows_inserted = u.rows_inserted;
  rows_skipped = length u.skip_reasons;
  skip_reasons = take 50 u.skip_reasons;
}

-- An error of the reader, which nothing catches, ends the loop after the rows before it.
abbrev pub ended : Option Error → Result Upload → Result Upload
ended none r = r
ended (some e) (ok u) = err e
ended (some e) (err f) = err f

abbrev pub taken : PhoneLib → Campaign → String → Csv → Db → Result Upload
taken lib campaign field csv s =
    ended csv.stopped (take_rows lib campaign.id s.next_id s.now field csv.rows empty_upload)

unfoldable pub upload_recipients : PhoneLib → ℕ → Csv → Action Db CampaignUploadResponse
upload_recipients lib campaign_id csv = do
  campaign ← get campaign_id
  raise_if (not (is_open campaign.status)) (
      saying conflict
        ("Cannot upload recipients: campaign status is " <> campaign_value campaign.status))
  names ← lift csv.fieldnames
  field ←
      or_raise (phone_field names)
        (coded validation_error "CSV must contain a 'phone' column" "invalid_csv")
  rows ← gets (taken lib campaign field csv)
  u ← lift rows
  modify (add_recipients u)
  modify (put_campaign (grown u.rows_inserted campaign))
  flush
  pure (response campaign u)
