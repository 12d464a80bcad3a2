-- ===== src/Templates.antt =====
-- services/template_service.py: `TemplateService`. The database orders texts by its collation,
-- which is the parameter `collate`: may the first text stand before the second?
pub mod Entries
pub mod Cache
pub mod Sync
pub mod Inserts
pub mod Refinement
pub mod Resync
pub mod Duplicates
use whatsapp_api.Base.{
  ℕ, ◌+◌, Bool, true, false, not, ◌&&◌, String, ◌<>◌, Option, none, some, List, [], ◌∷◌, ◌++◌,
  select, exists, length, ◌==◌, str_eq, if◌then◌else◌,
}
use whatsapp_api.Base.Exec.{
  ok, err, Action, ◌>>=◌, ◌>>◌, pure, gets, lift, or_raise, raise_if, within,
}
use whatsapp_api.Errors.{Error, saying, template_not_found, type_error, integrity_error}
use whatsapp_api.Json.{Json, str, null, or_else}
use whatsapp_api.Models.{Template, TemplateStatus, Settings, template_eq}
use whatsapp_api.Store.{Db, flush, nullable_text}
use whatsapp_api.Tenants.{Fernet, resolve}
use whatsapp_api.Client.{Http, get_templates}
use whatsapp_api.RateLimiter.{Redis, RateLimiter}
use whatsapp_api.Campaigns.{has_key, find_template}
use whatsapp_api.Messages.{World, client_for}
use whatsapp_api.Templates.Entries.{Entry, read_template}

module _ (collate : String → String → Bool) where
  -- The order of `order_by(Template.name, Template.language)`.
  abbrev precedes : Template → Template → Bool
  precedes a b =
      if collate a.name b.name
      then (if collate b.name a.name then collate a.language b.language else true)
      else false

  abbrev pub insert_by_name : Template → List Template → List Template
  insert_by_name t [] = t ∷ []
  insert_by_name t (x ∷ xs) =
      let rest = insert_by_name t xs in if precedes t x then t ∷ x ∷ xs else x ∷ rest

  abbrev pub by_name : List Template → List Template
  by_name [] = []
  by_name (t ∷ ts) = insert_by_name t (by_name ts)

  abbrev status_is : Option TemplateStatus → Template → Bool
  status_is none t = true
  status_is (some status) t = template_eq t.status status

  unfoldable pub list_for_tenant : ℕ → Option TemplateStatus → Db → List Template
  list_for_tenant tenant_id status s =
      by_name
        (select (λ (t : Template). t.tenant_id == tenant_id && status_is status t) s.templates)

-- The query is the one of `CampaignService.create`.
unfoldable pub get_by_name : ℕ → String → String → Action Db Template
get_by_name tenant_id name language = do
  found ← find_template tenant_id name language
  or_raise found
      (saying template_not_found ("Template '" <> name <> "' (" <> language <> ") not found"))

-- The local variables of the loop: the rows added to the session, and the counters.
pub record Locals : Type 0 where
  pub added : List Entry
  pub created : ℕ
  pub updated : ℕ

-- schemas/template.py; `fetched_at` is not kept.
pub record TemplateSyncResponse : Type 0 where
  pub synced : ℕ
  pub created : ℕ
  pub updated : ℕ
  pub tenant_id : ℕ

-- What the loop assigns to a row that is there already.
abbrev pub synced : Entry → ℕ → Template → Template
synced e now t = record t {
  category = e.category;
  status = e.status;
  components = e.components;
  meta_template_id = or_else e.meta_id t.meta_template_id;
  last_synced_at = some now;
}

-- Assigns to the row that has the key: the table has one for each.
abbrev pub touch : (Template → Bool) → (Template → Template) → List Template → List Template
touch p f [] = []
touch p f (t ∷ ts) = (if p t then f t else t) ∷ touch p f ts

-- Has the row the key `(name, language)` of the entry?
abbrev pub is_text : Json → String → Bool
is_text (str s) t = str_eq t s
is_text _ t = false

abbrev pub matches : ℕ → Entry → Template → Bool
matches tenant_id e t =
    t.tenant_id == tenant_id && is_text e.name t.name && is_text e.language t.language

abbrev pub touch_rows : ℕ → Entry → Db → Db
touch_rows tenant_id e s = record s {
  templates = touch (matches tenant_id e) (synced e s.now) s.templates;
}

module _ (tenant_id : ℕ) where
  unfoldable pub take_entry : List Template → Entry → Locals → Action Db Locals
  take_entry existing e l s =
      if exists (matches tenant_id e) existing
      then (ok (record l { updated = l.updated + 1 }), touch_rows tenant_id e s)
      else (ok (record l { added = l.added ++ (e ∷ []); created = l.created + 1 }), s)

  -- One round of the loop.
  unfoldable pub take_found : List Template → Option Entry → Locals → Action Db Locals
  take_found existing none l = pure l
  take_found existing (some e) l = take_entry existing e l

  unfoldable pub take_templates : List Template → List Json → Locals → Action Db Locals
  take_templates existing [] l = pure l
  take_templates existing (raw ∷ raws) l = do
    found ← lift (read_template raw)
    l' ← take_found existing found l
    take_templates existing raws l'

  abbrev pub new_template : String → String → Entry → Db → Template
  new_template name language e s = record {
    id = s.next_id;
    tenant_id = tenant_id;
    name = name;
    language = language;
    category = e.category;
    status = e.status;
    components = e.components;
    meta_template_id = e.meta_id;
    last_synced_at = some s.now;
  }

  abbrev pub add_template : Template → Db → Db
  add_template t s = record s { templates = s.templates ++ (t ∷ []); next_id = s.next_id + 1 }

  -- The insert of one added row: the columns of the key are texts that are not null, and no two
  -- rows have the same key.
  unfoldable pub insert_named : Json → Json → Entry → Action Db (Unit {0})
  insert_named (str name) (str language) e s =
      if exists (has_key tenant_id name language) s.templates
      then (err integrity_error, s)
      else (ok tt, add_template (new_template name language e s) s)
  insert_named (str _) null e s = (err integrity_error, s)
  insert_named _ _ e s = (err type_error, s)

  unfoldable pub insert_entries : List Entry → Action Db (Unit {0})
  insert_entries [] = pure tt
  insert_entries (e ∷ es) = insert_named e.name e.language e >> insert_entries es

abbrev pub no_locals : Locals
no_locals = record { added = []; created = 0; updated = 0 }

-- What the driver accepts of the column `meta_template_id`, which is a text or null.
abbrev ids_fit : List Template → Bool
ids_fit [] = true
ids_fit (t ∷ ts) = nullable_text t.meta_template_id && ids_fit ts

unfoldable pub check_ids : Action Db (Unit {0})
check_ids s = raise_if (not (ids_fit s.templates)) type_error s

-- What `sync_from_meta` does with the templates that it fetched.
unfoldable pub store_templates :
    (String → String → Bool) → ℕ → List Json → Action Db TemplateSyncResponse
store_templates collate tenant_id raws = do
  existing ← gets (list_for_tenant collate tenant_id none)
  l ← take_templates tenant_id existing raws no_locals
  insert_entries tenant_id l.added
  check_ids
  flush
  pure (record {
    synced = length raws;
    created = l.created;
    updated = l.updated;
    tenant_id = tenant_id;
  })

module _ (redis : Redis) (http : Http) (fernet : Option Fernet) (limiter : RateLimiter)
    (settings : Settings) (describe : Error → String) where
  abbrev on_db : {A : Type 0} → Action Db A → Action (World redis http) A
  on_db m =
      within (λ (w : World redis http). w.db) (λ d (w : World redis http). record w { db = d }) m

  abbrev on_remote : {A : Type 0} → Action http.State A → Action (World redis http) A
  on_remote m =
      within (λ (w : World redis http). w.remote)
        (λ h (w : World redis http). record w { remote = h }) m

  -- `sync_from_meta`; the fuel bounds the pages that Meta serves.
  unfoldable pub sync_from_meta :
      (String → String → Bool) → ℕ → Option ℕ → Action (World redis http) TemplateSyncResponse
  sync_from_meta collate fuel tenant_id = do
    t ← on_db (resolve settings tenant_id)
    raws ← on_remote (
        get_templates http fuel (client_for redis http fernet limiter settings describe t) t.waba_id
          200)
    on_db (store_templates collate t.id raws)
