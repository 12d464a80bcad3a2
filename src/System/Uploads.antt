-- ===== src/System/Uploads.antt =====
-- The campaign endpoints, and the phones: an upload adds recipients with phones in E.164 only.
use whatsapp_api.Base.{
  ℕ, ◌≡◌, refl, true, String, Option, none, some, List, [], ◌∷◌, All, exists, str_eq, if_elim,
}
use whatsapp_api.Base.Text.{is_empty, strip}
use whatsapp_api.Base.Exec.{Result, ok, err, ◌>>=◌, ◌>>◌, pure, gets, modify, lift}
use whatsapp_api.Base.Keeps.{Keeps, Keeps-raise, Keeps-from, Yields, keeps_rules}
use whatsapp_api.Errors.{Error}
use whatsapp_api.Models.{Campaign}
use whatsapp_api.Store.{put_campaign, flush}
use whatsapp_api.Utils.Phone.{PhoneLib, IsLawful, normalize_phone}
use whatsapp_api.Utils.Phone.Laws.{normalize_phone_idem}
use whatsapp_api.Campaigns.Kept.{Keeps-get}
use whatsapp_api.Campaigns.Upload.{
  Csv, CsvRow, Upload, cell, caught, skip, insert, take_phone, take_row, take_rows, counted,
  and_then, ended, taken, empty_upload, add_recipients, grown, response, upload_recipients,
}
use whatsapp_api.Store.Rows.{All-append, All-snoc}
use whatsapp_api.System.Dialable.{Dialable-same, Dialable, HasPhone, in_e164, Keeps-flush}

-- The recipients that an upload has added so far.
abbrev Added : Result Upload → Type 0
Added (ok u) = All HasPhone u.added
Added (err _) = Unit

ended-Added : (o : Option Error) (r : Result Upload) → Added r → Added (ended o r)
ended-Added none r h = h
ended-Added (some e) (ok u) h = tt
ended-Added (some e) (err f) h = tt

pub Keeps-put_campaign : (c : Campaign) → Keeps Dialable (modify (put_campaign c))
Keeps-put_campaign c = record { at = λ s h. Dialable-same refl refl refl h }

module _ (lib : PhoneLib) (laws : IsLawful lib) where
  module _ (campaign_id first_id now : ℕ) (field : String) where
    phone-Added :
        (r : Result String) (row : CsvRow) (u : Upload)
        → ((phone : String) → r ≡ ok phone → in_e164 phone ≡ true)
        → All HasPhone u.added
        → Added (take_phone lib campaign_id first_id now field r row u)
    unfolding take_phone skip insert
    phone-Added (ok phone) row u shape h =
        if_elim Added (exists (str_eq phone) u.seen) (λ _. h)
          (λ _. All-snoc HasPhone _ u.added (shape phone refl) h)
    phone-Added (err e) row u shape h = go (caught e)
      where
        go :
            (o : Option String)
            → Added (elim o [ some message ↦ ok (skip message u) | none ↦ err e ])
        go none = tt
        go (some message) = h

    row-Added :
        (row : CsvRow) (u : Upload)
        → All HasPhone u.added
        → Added (take_row lib campaign_id first_id now field row u)
    unfolding take_row skip
    row-Added row u h =
        if_elim Added (is_empty (strip (cell field row.cells))) (λ _. h)
          (λ _.
            phone-Added (normalize_phone lib (strip (cell field row.cells))) row
              (counted lib campaign_id first_id now field u)
              (λ phone k. (normalize_phone_idem lib laws _ phone k).1) h)

    rows-Added :
        (rows : List CsvRow) (u : Upload)
        → All HasPhone u.added
        → Added (take_rows lib campaign_id first_id now field rows u)
    unfolding take_rows
    rows-Added [] u h = h
    rows-Added (row ∷ rows) u h =
        go (take_row lib campaign_id first_id now field row u) (row-Added row u h) (rows-Added rows)
      where
        go :
            (r : Result Upload)
            → Added r
            → ((v : Upload)
                → All HasPhone v.added
                → Added (take_rows lib campaign_id first_id now field rows v))
            → Added (
                and_then lib campaign_id first_id now field r
                  (take_rows lib campaign_id first_id now field rows))
        go (ok v) k later = later v k
        go (err e) k later = tt

  Yields-taken :
      (c : Campaign) (field : String) (csv : Csv)
      → Yields Dialable Added (gets (taken lib c field csv))
  Yields-taken c field csv = record {
    yields = λ s h. (
      ended-Added csv.stopped _ (rows-Added c.id s.next_id s.now field csv.rows empty_upload tt),
      h,
    );
  }

  Keeps-add_recipients :
      (u : Upload) → All HasPhone u.added → Keeps Dialable (modify (add_recipients u))
  Keeps-add_recipients u a = record {
    at = λ s h. record {
      of_recipients = All-append HasPhone s.recipients u.added h.of_recipients a;
      of_messages = h.of_messages;
      of_pending = h.of_pending;
    };
  }

  Keeps-rest :
      (c : Campaign) (u : Upload)
      → All HasPhone u.added
      → Keeps Dialable (
          modify (add_recipients u)
          >> (modify (put_campaign (grown u.rows_inserted c)) >> (flush >> pure (response c u))))
  Keeps-rest c u a = search (keeps_rules, Keeps-add_recipients, Keeps-put_campaign, Keeps-flush)

  -- What follows the loop: the rows are added, and the campaign counts them.
  Keeps-outcome :
      (c : Campaign) (r : Result Upload)
      → Added r
      → Keeps Dialable (
          lift r >>= λ u.
          modify (add_recipients u)
          >> (modify (put_campaign (grown u.rows_inserted c)) >> (flush >> pure (response c u))))
  Keeps-outcome c (err e) a = Keeps-raise e
  Keeps-outcome c (ok u) a = record { at = (Keeps-rest c u a).at }

  Keeps-take :
      (c : Campaign) (field : String) (csv : Csv)
      → Keeps Dialable (
          gets (taken lib c field csv) >>= λ r. lift r >>= λ u.
          modify (add_recipients u)
          >> (modify (put_campaign (grown u.rows_inserted c)) >> (flush >> pure (response c u))))
  Keeps-take c field csv = Keeps-from Added _ _ (Yields-taken c field csv) (Keeps-outcome c)

  pub Keeps-upload :
      (campaign_id : ℕ) (csv : Csv) → Keeps Dialable (upload_recipients lib campaign_id csv)
  unfolding upload_recipients
  Keeps-upload campaign_id csv = search (keeps_rules, Keeps-get, Keeps-take) depth 12
