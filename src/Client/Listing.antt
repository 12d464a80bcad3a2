-- ===== src/Client/Listing.antt =====
-- The paging loop of `get_templates` against the chain of pages that Meta serves.
use whatsapp_api.Base.{
  ℕ, zero, suc, ◌≤◌, ◌≡◌, true, false, String, List, [], ◌∷◌, ◌++◌, append-nil, append_assoc, arith,
  length,
}
use whatsapp_api.Base.Exec.{ok}
use whatsapp_api.Json.{Json, null, str, truthy}
use whatsapp_api.Client.{Http, Client, request, page_result, templates_from}

abbrev pub flat : List (List Json) → List Json
flat [] = []
flat (p ∷ ps) = p ++ flat ps

module _ (http : Http) (c : Client) where
  -- The pages that are served from an address on, each linking to the next: their templates and
  -- the state after the last request.
  pub data Pages : Json → Json → http.State → List (List Json) → http.State → Type 0 where
    last :
        (url : String) (params : Json) (s s' : http.State) (found : List Json) (next : Json)
        → page_result (request http c "GET" url null params s).0 ≡ ok (found, next)
        → (request http c "GET" url null params s).1 ≡ s'
        → truthy next ≡ false
        → Pages (str url) params s (found ∷ []) s'
    more :
        (url : String) (params : Json) (s s' t : http.State) (found : List Json) (next : Json)
        (rest : List (List Json))
        → page_result (request http c "GET" url null params s).0 ≡ ok (found, next)
        → (request http c "GET" url null params s).1 ≡ s'
        → truthy next ≡ true
        → Pages next null s' rest t
        → Pages (str url) params s (found ∷ rest) t

  -- If Meta serves a chain of pages that ends, the loop returns the templates of all of them in
  -- order, with one round for each page.
  pub templates_from-Pages :
      (fuel : ℕ) (url params : Json) (results : List Json) (s t : http.State)
      (pages : List (List Json))
      → Pages url params s pages t
      → length pages ≤ fuel
      → templates_from http fuel c url params results s ≡ (ok (results ++ flat pages), t)
  unfolding templates_from
  templates_from-Pages zero _ _ results _ _ _ (last url params s s' found next e e' n) h =
      absurd (omega arith)
  templates_from-Pages zero _ _ results _ _ _ (more url params s s' t found next rest e e' n p) h =
      absurd (omega arith)
  templates_from-Pages (suc fuel) _ _ results _ _ _ (last url params s s' found next e e' n) h =
      rw (e, n, e', append-nil, templates_from)
  templates_from-Pages (suc fuel) _ _ results _ _ _
        (more url params s s' t found next rest e e' n p) h =
      rw (
        e,
        n,
        e',
        templates_from-Pages fuel next null (results ++ found) s' t rest p (omega arith),
        append_assoc,
        templates_from,
      )
