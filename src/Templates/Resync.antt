-- ===== src/Templates/Resync.antt =====
-- `sync_from_meta` where Meta lists templates that the cache has.
use whatsapp_api.Base.{
  ℕ, ◌+◌, ◌≡◌, refl, ap, Bool, true, String, Option, none, some, List, [], ◌∷◌, exists, length, map,
  arith, ◌∙◌, subst, sym, false, if◌then◌else◌,
}
use whatsapp_api.Base.Exec.{Result, ok}
use whatsapp_api.Json.{Json}
use whatsapp_api.Models.{Template}
use whatsapp_api.Store.{Db, nullable_text}
use whatsapp_api.Store.Laws.{IsClean, flush_clean}
use whatsapp_api.Templates.{
  Locals, matches, synced, touch, touch_rows, take_entry, take_found, take_templates,
  insert_entries, list_for_tenant, store_templates, check_ids, ids_fit,
}
use whatsapp_api.Templates.Entries.{Entry, read_template}
use whatsapp_api.Templates.Refinement.{existing-eq}

-- Each template of Meta reads as the entry of its place.
abbrev Reads : List Json → List Entry → Type 0
Reads [] [] = Unit
Reads (raw ∷ raws) (e ∷ es) = (read_template raw ≡ ok (some e)) × Reads raws es
Reads _ _ = ⊥

ids_fit-touch :
    (p : Template → Bool) (e : Entry) (now : ℕ) (ts : List Template)
    → nullable_text e.meta_id ≡ true
    → ids_fit ts ≡ true
    → ids_fit (touch p (synced e now) ts) ≡ true
ids_fit-touch p e now [] h k = refl
ids_fit-touch p e now (t ∷ ts) h k = ground (arith, ids_fit-touch p e now ts h)

module _ (owner : ℕ) where
  abbrev pub touched : List Entry → Db → Db
  touched [] s = s
  touched (e ∷ es) s = touched es (touch_rows owner e s)

  -- The tenant has a row for the entry, whose id is a text or null.
  abbrev IsKnown : List Template → Entry → Type 0
  IsKnown ts e = (exists (matches owner e) ts ≡ true) × (nullable_text e.meta_id ≡ true)

  -- Every key of the entries has a row.
  abbrev AllKnown : List Template → List Entry → Type 0
  AllKnown ts [] = Unit
  AllKnown ts (e ∷ es) = IsKnown ts e × AllKnown ts es

  counted_as :
      {m n : ℕ} (s : Db)
      → m ≡ n
      → ◌≡◌ {A = Result Locals × Db}
          (ok (record { added = []; created = 0; updated = m }), s)
          (ok (record { added = []; created = 0; updated = n }), s)
  counted_as s h = rw h refl

  loop-eq :
      (existing : List Template) (raws : List Json) (es : List Entry) (n : ℕ) (s : Db)
      → Reads raws es
      → AllKnown existing es
      → take_templates owner existing raws (record { added = []; created = 0; updated = n }) s
        ≡ (ok (record { added = []; created = 0; updated = n + length raws }), touched es s)
  unfolding take_templates take_found take_entry
  loop-eq existing [] [] n s h k = counted_as s (omega arith)
  loop-eq existing [] (e ∷ es) n s h k = absurd h
  loop-eq existing (raw ∷ raws) [] n s h k = absurd h
  loop-eq existing (raw ∷ raws) (e ∷ es) n s h k =
      rw (h.0, k.0.0, loop-eq existing raws es (n + 1) (touch_rows owner e s) h.1 k.1)
        (counted_as (touched es (touch_rows owner e s)) (omega arith))

  touched-IsClean : (es : List Entry) (s : Db) → IsClean s → IsClean (touched es s)
  touched-IsClean [] s clean = clean
  touched-IsClean (e ∷ es) s clean =
      touched-IsClean es (touch_rows owner e s)
        (record { nothing_pending = clean.nothing_pending; storable = clean.storable })

  ids_fit-touched :
      (existing : List Template) (es : List Entry) (s : Db)
      → AllKnown existing es
      → ids_fit s.templates ≡ true
      → ids_fit (touched es s).templates ≡ true
  ids_fit-touched existing [] s known fit = fit
  ids_fit-touched existing (e ∷ es) s known fit =
      ids_fit-touched existing es (touch_rows owner e s) known.1
        (ids_fit-touch (matches owner e) e s.now s.templates known.0.1 fit)

  known_lem :
      (collate : String → String → Bool) (es : List Entry) (s : Db)
      → AllKnown s.templates es
      → AllKnown (list_for_tenant collate owner none s) es
  known_lem collate [] s known = tt
  known_lem collate (e ∷ es) s known =
      ((existing-eq collate owner e s ∙ known.0.0, known.0.1), known_lem collate es s known.1)

  abbrev later_or : Option Entry → Bool → Entry → Option Entry
  later_or (some later) b e = some later
  later_or none true e = some e
  later_or none false e = none

  -- The last entry that has the row's key.
  abbrev pub last_for : List Entry → Template → Option Entry
  last_for [] t = none
  last_for (e ∷ es) t = later_or (last_for es t) (matches owner e t) e

  -- A row after the sync: as it was, or with what the entry says, read now.
  abbrev pub IsRefreshed : Option Entry → ℕ → Template → Template → Type 0
  IsRefreshed none now t u = u ≡ t
  IsRefreshed (some e) now t u = u ≡ record t {
    category = e.category;
    status = e.status;
    components = e.components;
    meta_template_id = u.meta_template_id;
    last_synced_at = some now;
  }

  abbrev refresh : List Entry → ℕ → Template → Template
  refresh [] now t = t
  refresh (e ∷ es) now t = refresh es now (if matches owner e t then synced e now t else t)

  abbrev refresh_rows : List Entry → ℕ → List Template → List Template
  refresh_rows es now ts = map (refresh es now) ts

  map-touch :
      (e : Entry) (es : List Entry) (now : ℕ) (ts : List Template)
      → refresh_rows es now (touch (matches owner e) (synced e now) ts)
        ≡ refresh_rows (e ∷ es) now ts
  map-touch e es now [] = refl
  map-touch e es now (t ∷ ts) =
      ap (λ us. refresh es now (if matches owner e t then synced e now t else t) ∷ us)
        (map-touch e es now ts)

  map_none : (now : ℕ) (ts : List Template) → ts ≡ refresh_rows [] now ts
  map_none now [] = refl
  map_none now (t ∷ ts) = ap (λ us. t ∷ us) (map_none now ts)

  touched-eq :
      (es : List Entry) (s : Db)
      → touched es s ≡ record s { templates = refresh_rows es s.now s.templates }
  touched-eq [] s = ap (λ ts. record s { templates = ts }) (map_none s.now s.templates)
  touched-eq (e ∷ es) s =
      touched-eq es (touch_rows owner e s)
      ∙ ap (λ ts. record s { templates = ts }) (map-touch e es s.now s.templates)

  last_for-synced :
      (es : List Entry) (e : Entry) (now : ℕ) (t : Template)
      → last_for es (synced e now t) ≡ last_for es t
  last_for-synced [] e now t = refl
  last_for-synced (x ∷ es) e now t =
      ap (λ o. later_or o (matches owner x t) x) (last_for-synced es e now t)

  last_for-if :
      (b : Bool) (es : List Entry) (e : Entry) (now : ℕ) (t : Template)
      → last_for es (if b then synced e now t else t) ≡ last_for es t
  last_for-if true es e now t = last_for-synced es e now t
  last_for-if false es e now t = refl

  refresh_step :
      (b : Bool) (o : Option Entry) (e : Entry) (now : ℕ) (t u : Template)
      → IsRefreshed o now (if b then synced e now t else t) u
      → IsRefreshed (later_or o b e) now t u
  refresh_step true none e now t u h = subst (IsRefreshed (some e) now t) (sym h) refl
  refresh_step true (some later) e now t u h = h
  refresh_step false none e now t u h = h
  refresh_step false (some later) e now t u h = h

  refresh_lem :
      (es : List Entry) (now : ℕ) (t : Template)
      → IsRefreshed (last_for es t) now t (refresh es now t)
  refresh_lem [] now t = refl
  refresh_lem (e ∷ es) now t =
      let t' : Template = if matches owner e t then synced e now t else t in
      refresh_step (matches owner e t) (last_for es t) e now t (refresh es now t') (
        subst (λ o. IsRefreshed o now t' (refresh es now t'))
          (last_for-if (matches owner e t) es e now t) (refresh_lem es now t'))

  -- The sync of known templates, in the code's own terms.
  known-eq :
      (collate : String → String → Bool) (raws : List Json) (es : List Entry) (s : Db)
      → Reads raws es
      → AllKnown s.templates es
      → ids_fit s.templates ≡ true
      → IsClean s
      → store_templates collate owner raws s ≡ (
        ok (record { synced = length raws; created = 0; updated = length raws; tenant_id = owner }),
        touched es s,
      )
  unfolding store_templates insert_entries check_ids
  known-eq collate raws es s reads known fit clean = rw (
    loop-eq (list_for_tenant collate owner none s) raws es 0 s reads (known_lem collate es s known),
    ids_fit-touched s.templates es s known fit,
    flush_clean (touched es s) (touched-IsClean es s clean),
    zero_add (length raws),
  )
    where
      zero_add : (n : ℕ) → 0 + n ≡ n
      zero_add n = omega arith

  -- If every template that Meta lists is readable and has a row of the tenant, and there is nothing
  -- else to flush that the driver would refuse, the sync succeeds and only updates: every template
  -- is counted as updated, one listed twice included. The table keeps its rows in their places: a
  -- row that no entry names is as it was, and a row that entries name has the category, the status
  -- and the components of the last of them, and is synced now; nothing else of it changes but
  -- Meta's id.
  pub store_templates_known :
      (collate : String → String → Bool) (raws : List Json) (es : List Entry) (s : Db)
      → Reads raws es
      → AllKnown s.templates es
      → ids_fit s.templates ≡ true
      → IsClean s
      → (f : Template → Template) × (store_templates collate owner raws s ≡ (
        ok (record { synced = length raws; created = 0; updated = length raws; tenant_id = owner }),
        record s { templates = map f s.templates },
      ))
        × ((t : Template) → IsRefreshed (last_for es t) s.now t (f t))
  store_templates_known collate raws es s reads known fit clean = (
    refresh es s.now,
    known-eq collate raws es s reads known fit clean
        ∙ ap
            (λ (v : Db). (
              ok (record {
                synced = length raws;
                created = 0;
                updated = length raws;
                tenant_id = owner;
              }),
              v,
            ))
            (touched-eq es s),
    refresh_lem es s.now,
  )
