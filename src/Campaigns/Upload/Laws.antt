-- ===== src/Campaigns/Upload/Laws.antt =====
-- What an upload adds, skips and reports.
use whatsapp_api.Base.{
  ℕ, suc, ◌+◌, ◌≡◌, refl, ap, ◌∙◌, subst, true, false, String, Option, some, List, [], ◌∷◌, ◌++◌,
  arith, ◌⊎◌, exists, length, length-append, map, str_eq, str_eq_comm, Bool-cases, inl, inr,
}
use whatsapp_api.Base.Text.{is_empty, strip}
use whatsapp_api.Base.Exec.{Result, ok, err}
use whatsapp_api.Errors.{Error, coded, validation_error, failure}
use whatsapp_api.Models.{Campaign, CampaignRecipient}
use whatsapp_api.Store.{Db, get_campaign}
use whatsapp_api.Utils.Phone.{PhoneLib, normalize_phone}
use whatsapp_api.Utils.Phone.Laws.{normalize_phone-coded}
use whatsapp_api.Campaigns.{get, is_open}
use whatsapp_api.Campaigns.Upload.{
  Csv, CsvRow, Upload, phone_field, cell, caught, skip, insert, take_phone, counted, take_row,
  take_rows, empty_upload, upload_recipients,
}

-- No text stands twice in the list.
abbrev pub Distinct : List String → Type 0
Distinct [] = Unit
Distinct (x ∷ xs) = (exists (str_eq x) xs ≡ false) × Distinct xs

exists-snoc :
    (x y : String) (xs : List String)
    → exists (str_eq x) xs ≡ false
    → str_eq x y ≡ false
    → exists (str_eq x) (xs ++ (y ∷ [])) ≡ false
exists-snoc x y [] h k = ground arith
exists-snoc x y (z ∷ xs) h k = ground (arith, exists-snoc x y xs)

Distinct-snoc :
    (y : String) (xs : List String)
    → Distinct xs
    → exists (str_eq y) xs ≡ false
    → Distinct (xs ++ (y ∷ []))
Distinct-snoc y [] d h = (refl, tt)
Distinct-snoc y (x ∷ xs) (new, d) h =
    (exists-snoc x y xs new (str_eq_comm x y ∙ ground arith), Distinct-snoc y xs d (ground arith))

map-snoc :
    (r : CampaignRecipient) (rs : List CampaignRecipient)
    → map (λ (x : CampaignRecipient). x.phone) (rs ++ (r ∷ []))
      ≡ map (λ (x : CampaignRecipient). x.phone) rs ++ (r.phone ∷ [])
map-snoc r [] = refl
map-snoc r (x ∷ rs) = ap (λ t. x.phone ∷ t) (map-snoc r rs)

-- What the local variables of the loop mean, after each row.
pub record IsTally (u : Upload) : Type 0 where
  pub every_row : u.rows_parsed ≡ u.rows_inserted + length u.skip_reasons
  pub inserted : u.rows_inserted ≡ length u.added
  pub seen_phones : u.seen ≡ map (λ (r : CampaignRecipient). r.phone) u.added
  pub distinct : Distinct u.seen

caught-coded :
    (message : String)
    → (m : String) × (caught (coded validation_error message "invalid_phone") ≡ some m)
unfolding caught failure
caught-coded message = (_, refl)

-- An error of `normalize_phone` is one that the loop catches.
normalize_phone-caught :
    (lib : PhoneLib) (raw : String) (e : Error)
    → normalize_phone lib raw ≡ err e
    → (m : String) × (caught e ≡ some m)
normalize_phone-caught lib raw e h =
    let (message, same) = normalize_phone-coded lib raw e h in
    subst (λ e. (m : String) × (caught e ≡ some m)) same (caught-coded message)

Result-cases : (r : Result String) → ((e : Error) × (r ≡ err e)) ⊎ ((a : String) × (r ≡ ok a))
Result-cases (ok a) = inr (a, refl)
Result-cases (err e) = inl (e, refl)

-- The tally of the rows before this one, which is counted already.
record IsPartial (u : Upload) : Type 0 where
  pub every_row : u.rows_parsed ≡ suc (u.rows_inserted + length u.skip_reasons)
  pub inserted : u.rows_inserted ≡ length u.added
  pub seen_phones : u.seen ≡ map (λ (r : CampaignRecipient). r.phone) u.added
  pub distinct : Distinct u.seen

skip-IsTally : (why : String) (u : Upload) → IsPartial u → IsTally (skip why u)
unfolding skip
skip-IsTally why u t = record {
  every_row = omega (arith, t.every_row, length-append u.skip_reasons);
  inserted = t.inserted;
  seen_phones = t.seen_phones;
  distinct = t.distinct;
}

skip-parsed : (why : String) (u : Upload) → (skip why u).rows_parsed ≡ u.rows_parsed
unfolding skip
skip-parsed why u = refl

module _ (lib : PhoneLib) (campaign_id first_id now : ℕ) (field : String) where
  insert-IsTally :
      (phone : String) (row : CsvRow) (u : Upload)
      → IsPartial u
      → exists (str_eq phone) u.seen ≡ false
      → IsTally (insert lib campaign_id first_id now field phone row u)
  unfolding insert
  insert-IsTally phone row u t new = record {
    every_row = omega (arith, t.every_row);
    inserted = omega (arith, t.inserted, length-append u.added);
    seen_phones = rw (map-snoc, t.seen_phones);
    distinct = Distinct-snoc phone u.seen t.distinct new;
  }

  insert-parsed :
      (phone : String) (row : CsvRow) (u : Upload)
      → (insert lib campaign_id first_id now field phone row u).rows_parsed ≡ u.rows_parsed
  unfolding insert
  insert-parsed phone row u = refl

  -- A step of the loop returns, and leaves the row counted once.
  abbrev Returns : ℕ → Result Upload → Type 0
  Returns n r = (v : Upload) × (r ≡ ok v) × IsTally v × (v.rows_parsed ≡ n)

  take_phone-Returns :
      (p : Result String) (row : CsvRow) (u : Upload)
      → IsPartial u
      → ((e : Error) → p ≡ err e → (m : String) × (caught e ≡ some m))
      → Returns u.rows_parsed (take_phone lib campaign_id first_id now field p row u)
  unfolding take_phone
  take_phone-Returns (ok phone) row u t c = elim (Bool-cases (exists (str_eq phone) u.seen)) [
    | inl old ↦ rw old (_, refl, skip-IsTally _ u t, skip-parsed _ u)
    | inr new ↦ rw new (_, refl, insert-IsTally phone row u t new, insert-parsed phone row u)
  ]
  take_phone-Returns (err e) row u t c =
      let (m, same) = c e refl in
      rw (take_phone, same) (_, refl, skip-IsTally _ u t, skip-parsed _ u)

  counted-IsPartial :
      (u : Upload) → IsTally u → IsPartial (counted lib campaign_id first_id now field u)
  counted-IsPartial u t = record {
    every_row = omega (arith, t.every_row);
    inserted = t.inserted;
    seen_phones = t.seen_phones;
    distinct = t.distinct;
  }

  take_row-Returns :
      (row : CsvRow) (u : Upload)
      → IsTally u
      → Returns (u.rows_parsed + 1) (take_row lib campaign_id first_id now field row u)
  unfolding take_row
  take_row-Returns row u t =
      let raw = strip (cell field row.cells) in
      let partial = counted-IsPartial u t in
      elim (Bool-cases (is_empty raw)) [
        | inl empty ↦ rw empty (_, refl, skip-IsTally _ _ partial, skip-parsed _ _)
        | inr nonempty ↦ rw nonempty (
            take_phone-Returns (normalize_phone lib raw) row _ partial
              (normalize_phone-caught lib raw))
      ]

  take_rows-Returns :
      (rows : List CsvRow) (u : Upload)
      → IsTally u
      → Returns (u.rows_parsed + length rows) (take_rows lib campaign_id first_id now field rows u)
  unfolding take_rows
  take_rows-Returns [] u t = (u, refl, t, omega arith)
  take_rows-Returns (row ∷ rows) u t =
      let (v, same, tally, parsed) = take_row-Returns row u t in
      let (w, same', tally', parsed') = take_rows-Returns rows v tally in
      (w, rw same same', tally', omega (arith, parsed, parsed'))

empty-IsTally : IsTally empty_upload
empty-IsTally = record { every_row = refl; inserted = refl; seen_phones = refl; distinct = tt }

-- The loop over rows that the reader gives never raises, whatever they hold: each row is either
-- inserted or skipped with a reason, and no phone is inserted twice.
taken_lem :
    (lib : PhoneLib) (campaign : Campaign) (field : String) (rows : List CsvRow) (s : Db)
    → (u : Upload) × (take_rows lib campaign.id s.next_id s.now field rows empty_upload ≡ ok u)
      × (u.rows_parsed ≡ length rows)
      × (u.rows_inserted ≡ length u.added)
      × (u.rows_parsed ≡ length u.added + length u.skip_reasons)
      × (Distinct (map (λ (r : CampaignRecipient). r.phone) u.added))
taken_lem lib campaign field rows s =
    let (u, same, t, parsed) =
      take_rows-Returns lib campaign.id s.next_id s.now field rows empty_upload empty-IsTally in
    (
      u,
      same,
      omega (arith, parsed),
      t.inserted,
      omega (arith, t.every_row, t.inserted),
      subst Distinct t.seen_phones t.distinct,
    )

module _ (lib : PhoneLib) (campaign_id : ℕ) (csv : Csv) (s : Db) where
  -- The first line is read, and has a `phone` column.
  abbrev pub HasPhoneField : String → Type 0
  HasPhoneField field =
      (names : Option (List String)) × (csv.fieldnames ≡ ok names)
      × (phone_field names ≡ some field)

  -- An error that the reader raises at any row is raised again, and the upload stores nothing of
  -- the rows before it.
  upload_recipients_unreadable :
      (campaign : Campaign) (field : String) (e : Error)
      → get_campaign campaign_id s ≡ some campaign
      → is_open campaign.status ≡ true
      → HasPhoneField field
      → csv.stopped ≡ some e
      → upload_recipients lib campaign_id csv s ≡ (err e, s)
  unfolding upload_recipients get
  upload_recipients_unreadable campaign field e found is_draft (names, read, has_phone) broken =
      let (u, rows, _, _, _, _) = taken_lem lib campaign field csv.rows s in
      rw (found, is_draft, read, has_phone, broken, rows) refl
