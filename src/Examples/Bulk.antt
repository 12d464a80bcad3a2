-- ===== src/Examples/Bulk.antt =====
-- Examples on campaigns.
use whatsapp_api.Base.{String, none, some, [], ◌∷◌}
use whatsapp_api.Base.Exec.{ok}
use whatsapp_api.Campaigns.Upload.{Csv, CsvRow}

abbrev row : String → CsvRow
row phone = record { cells = ("Phone", some phone) ∷ ("name", some "A") ∷ []; extra = none }

-- A number, the same number written otherwise, and no number.
abbrev file : Csv
file = record {
  fieldnames = ok (some ("Phone" ∷ "name" ∷ []));
  rows = row "+14155552671" ∷ row "14155552671" ∷ row "" ∷ [];
  stopped = none;
}
