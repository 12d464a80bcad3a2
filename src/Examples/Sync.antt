-- ===== src/Examples/Sync.antt =====
-- Examples on templates: Meta lists one that is stored as pending, and one that is new.
use whatsapp_api.Base.{
  ◌≡◌, refl, arith, Bool, true, String, ◌<>◌, none, some, List, [], ◌∷◌, length, str_eq, map,
}
use whatsapp_api.Base.Text.{upper_eq}
use whatsapp_api.Base.Int.{pos}
use whatsapp_api.Base.Exec.{ok, err}
use whatsapp_api.Errors.{Error}
use whatsapp_api.Base.Ensures.{Ensures}
use whatsapp_api.Json.{
  Json, null, str, num, obj, arr, Items, field, end, get, get_or, iterate, truthy,
}
use whatsapp_api.Models.{Template, TemplateCategory, TemplateStatus}
use whatsapp_api.Store.{Db}
use whatsapp_api.Store.Laws.{IsClean}
use whatsapp_api.Tenants.{resolve, get as get_tenant}
use whatsapp_api.Utils.Retry.{with_retry, retry_from}
use whatsapp_api.Client.{Http, request, call_once, read_page, root}
use whatsapp_api.Client.Responses.{
  read_outcome, read_response, raise_for_status, read_content, parsed,
}
use whatsapp_api.Client.Listing.{Pages, flat}
use whatsapp_api.Messages.{World, client_for}
use whatsapp_api.Templates.{sync_from_meta, store_templates}
use whatsapp_api.Templates.Entries.{Entry, read_template, read_named, category_of, status_of}
use whatsapp_api.Templates.Refinement.{Synced, sync_from_meta_refines}
use whatsapp_api.Templates.Duplicates.{store_templates_twice}
use whatsapp_api.Templates.Resync.{last_for, IsRefreshed, store_templates_known}
use whatsapp_api.Examples.Lines.{shown, counters, limiter, no_sends, answering, good}
use whatsapp_api.Examples.{shop, acme, settings}

abbrev offer : Template
offer = record {
  id = 30;
  tenant_id = 1;
  name = "offer";
  language = "en_US";
  category = TemplateCategory.utility;
  status = TemplateStatus.pending;
  components = null;
  meta_template_id = null;
  last_synced_at = none;
}

abbrev by_alphabet : String → String → Bool
by_alphabet s t = true

abbrev listed_as : String → Json
listed_as name =
    obj (field "name" (str name) (field "status" (str "approved") (field "id" (str "x") end)))

abbrev one_page : Json
one_page = obj (
    field "data" (arr (Items.cons (listed_as "offer") (Items.cons (listed_as "news") Items.nil)))
      end)

abbrev meta : Http
meta = answering (good one_page)

abbrev template_shop : Db
template_shop = record shop { templates = offer ∷ [] }

template_shop-IsClean : IsClean template_shop
template_shop-IsClean = record { nothing_pending = refl; storable = refl }

abbrev before : World counters meta
before = record { db = template_shop; counters = no_sends; remote = 0 }

abbrev pages : List (List Json)
pages = (listed_as "offer" ∷ listed_as "news" ∷ []) ∷ []

abbrev approved_offer : Entry
approved_offer = record {
  name = str "offer";
  language = str "en_US";
  category = TemplateCategory.utility;
  status = TemplateStatus.approved;
  components = arr Items.nil;
  meta_id = str "x";
}

served :
    Pages meta
      (client_for counters meta none limiter settings shown acme)
      (str (
        root (client_for counters meta none limiter settings shown acme)
        <> "/"
        <> acme.waba_id
        <> "/message_templates"))
      (obj (field "limit" (num (pos 200)) end))
      0
      pages
      1
unfolding request with_retry retry_from call_once read_outcome read_response raise_for_status
    read_content parsed read_page get_or get iterate truthy str_eq
served =
    Pages.last
      (root (client_for counters meta none limiter settings shown acme)
        <> "/"
        <> acme.waba_id
        <> "/message_templates")
      (obj (field "limit" (num (pos 200)) end)) 0 1 (listed_as "offer" ∷ listed_as "news" ∷ []) null
      refl refl refl

sync_from_meta_refines_example :
    Ensures
      (λ r (u : World counters meta). Synced by_alphabet acme.id (flat pages) before.db r u.db)
      (sync_from_meta counters meta none limiter settings shown by_alphabet 3 ((some 1)) before)
unfolding resolve get_tenant
sync_from_meta_refines_example =
    sync_from_meta_refines counters meta none limiter settings shown by_alphabet 3 (some 1) before
      acme pages 1 refl served (omega arith)

store_templates_known_example :
    (f : Template → Template) × (store_templates by_alphabet 1
        ((listed_as "offer" ∷ []))
        template_shop
      ≡ (
        ok (record {
          synced = length ((listed_as "offer" ∷ []));
          created = 0;
          updated = length ((listed_as "offer" ∷ []));
          tenant_id = 1;
        }),
        record template_shop { templates = map f template_shop.templates },
      ))
    × ((t : Template)
        → ((IsRefreshed 1)) (((last_for 1)) ((approved_offer ∷ [])) t) template_shop.now t (f t))
unfolding read_template read_named category_of status_of upper_eq get_or get truthy str_eq
store_templates_known_example =
    store_templates_known 1 by_alphabet (listed_as "offer" ∷ []) (approved_offer ∷ []) template_shop
      (refl, tt) ((refl, refl), tt) refl template_shop-IsClean

store_templates_twice_example :
    (e : Error) × ((store_templates by_alphabet 1
        (listed_as "news" ∷ listed_as "news" ∷ [])
        template_shop).0
      ≡ err e)
unfolding read_template read_named category_of status_of upper_eq get_or get truthy str_eq
store_templates_twice_example =
    store_templates_twice 1 "news" "en_US" by_alphabet (listed_as "news" ∷ listed_as "news" ∷ [])
      template_shop refl (omega arith)
