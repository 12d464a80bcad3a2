-- ===== src/Templates/Duplicates.antt =====
-- What `sync_from_meta` does with a listing that names a new template twice.
use whatsapp_api.Base.{
  ℕ, suc, ◌+◌, ◌≤◌, ◌≡◌, refl, inl, inr, Bool, true, false, ◌||◌, String, Option, none, some, List,
  [], ◌∷◌, ◌++◌, exists, arith, sym, ◌∙◌, Bool-cases, if_elim, if◌then◌else◌, str_eq_refl, ==_refl,
  ◌&&◌, ◌==◌, str_eq, str_eq_iff, and_true,
}
use whatsapp_api.Base.Exec.{Result, ok, err, lift, ◌>>=◌}
use whatsapp_api.Base.Ensures.{Ensures, Ensures-bind, Ensures-map}
use whatsapp_api.Errors.{Error}
use whatsapp_api.Json.{Json, null, bool, num, str, arr, obj}
use whatsapp_api.Models.{Template}
use whatsapp_api.Store.{Db}
use whatsapp_api.Campaigns.{has_key}
use whatsapp_api.Templates.{
  Locals, TemplateSyncResponse, matches, take_entry, take_found, take_templates, insert_named,
  insert_entries, list_for_tenant, no_locals, store_templates, new_template,
}
use whatsapp_api.Templates.Entries.{Entry, read_template}
use whatsapp_api.Templates.Cache.{names, listed, listed_found, key_same, exists_ext}
use whatsapp_api.Templates.Refinement.{existing-eq}

module _ (owner : ℕ) (name language : String) where
  -- How often a listing names the key.
  abbrev times : List Entry → ℕ
  times [] = 0
  times (e ∷ es) =
      let rest = times es in if names owner e owner name language then suc rest else rest

  abbrev has_row : List Template → Bool
  has_row ts = exists (has_key owner name language) ts

  times-snoc :
      (es : List Entry) (e : Entry)
      → names owner e owner name language ≡ true
      → times (es ++ (e ∷ [])) ≡ suc (times es)
  times-snoc [] e h = rw h refl
  times-snoc (x ∷ xs) e h = ground (arith, times-snoc xs e h)

  times-snoc_other :
      (es : List Entry) (e : Entry)
      → names owner e owner name language ≡ false
      → times (es ++ (e ∷ [])) ≡ times es
  times-snoc_other [] e h = rw h refl
  times-snoc_other (x ∷ xs) e h = ground (arith, times-snoc_other xs e h)

  -- The loop sees no row with the key.
  abbrev Unseen : List Template → Type 0
  Unseen existing =
      (e : Entry)
      → names owner e owner name language ≡ true
      → exists (matches owner e) existing ≡ false

  abbrev Grows : ℕ → Locals → Locals → Db → Type 0
  Grows n l m u = times m.added ≡ times l.added + n

  entry-Grows :
      (existing : List Template) (e : Entry) (l : Locals) (s : Db)
      → Unseen existing
      → Ensures (Grows (times (e ∷ [])) l) (take_entry owner existing e l s)
  unfolding take_entry
  entry-Grows existing e l s unseen = elim (Bool-cases (names owner e owner name language)) [
    | inl h ↦ rw (unseen e h, h) (times-snoc l.added e h ∙ suc_lem (times l.added))
    | inr h ↦
        if_elim (Ensures (Grows (times (e ∷ [])) l)) (exists (matches owner e) existing)
          (λ _. rw h (zero_lem (times l.added)))
          (λ _. rw h (times-snoc_other l.added e h ∙ zero_lem (times l.added)))
  ]
    where
      suc_lem : (n : ℕ) → suc n ≡ n + 1
      suc_lem n = omega arith

      zero_lem : (n : ℕ) → n ≡ n + 0
      zero_lem n = omega arith

  found-Grows :
      (existing : List Template) (found : Option Entry) (l : Locals) (s : Db)
      → Unseen existing
      → Ensures (Grows (times (listed_found (ok found) [])) l) (take_found owner existing found l s)
  unfolding take_found
  found-Grows existing none l s unseen = omega arith
  found-Grows existing (some e) l s unseen = entry-Grows existing e l s unseen

  times-found :
      (found : Option Entry) (es : List Entry)
      → times (listed_found (ok found) es) ≡ times (listed_found (ok found) []) + times es
  times-found none es = omega arith
  times-found (some e) es = ground arith

  loop-Grows :
      (existing : List Template) (raws : List Json) (l : Locals) (s : Db)
      → Unseen existing
      → Ensures (Grows (times (listed raws)) l) (take_templates owner existing raws l s)
  unfolding take_templates
  loop-Grows existing [] l s unseen = omega arith
  loop-Grows existing (raw ∷ raws) l s unseen =
      go (read_template raw) (λ m u. loop-Grows existing raws m u unseen)
    where
      go :
          (r : Result (Option Entry))
          → ((m : Locals) (u : Db)
              → Ensures (Grows (times (listed raws)) m) (take_templates owner existing raws m u))
          → Ensures (Grows (times (listed_found r (listed raws))) l) (
              (lift r >>= λ found.
              take_found owner existing found l >>= take_templates owner existing raws)
                s)
      go (err e) later = tt
      go (ok found) later =
          Ensures-bind (Grows (times (listed_found (ok found) [])) l)
            (Grows (times (listed_found (ok found) (listed raws))) l)
            (take_found owner existing found l) (take_templates owner existing raws) s
            (found-Grows existing found l s unseen)
            (λ m u h.
              Ensures-map (Grows (times (listed raws)) m)
                (Grows (times (listed_found (ok found) (listed raws))) l)
                (take_templates owner existing raws m u) (later m u)
                (λ n v k. omega (arith, h, k, times-found found (listed raws))))

  -- What the insert of one row needs and leaves.
  abbrev Takes : Entry → Db → Unit {0} → Db → Type 0
  Takes e s r u =
      (has_row s.templates ≡ true → has_row u.templates ≡ true)
      × (names owner e owner name language ≡ true
          → (has_row s.templates ≡ false) × (has_row u.templates ≡ true))

  has_row-snoc :
      (t : Template) (ts : List Template)
      → has_row (ts ++ (t ∷ [])) ≡ (has_row ts || has_key owner name language t)
  has_row-snoc t [] = ground arith
  has_row-snoc t (x ∷ xs) = ground (arith, has_row-snoc t xs)

  named-Takes :
      (a b : Json) (e : Entry) (s : Db)
      → e.name ≡ a
      → e.language ≡ b
      → Ensures (Takes e s) (insert_named owner a b e s)
  unfolding insert_named
  named-Takes (str a) (str b) e s h k = elim (Bool-cases (exists (has_key owner a b) s.templates)) [
    | inl there ↦ rw there tt
    | inr absent ↦ rw absent (
      (λ had.
          has_row-snoc (new_template owner a b e s) s.templates
          ∙ or_left (has_row s.templates) (has_key owner name language (new_template owner a b e s))
              had),
      (λ named.
          let (same_name, same_language) = same (rw (h, k) at named) in
          (
            rw (same_name, same_language) absent,
            has_row-snoc (new_template owner a b e s) s.templates
                ∙ or_right (has_row s.templates)
                    (has_key owner name language (new_template owner a b e s))
                    (rw (same_name, same_language)
                      (rw (==_refl owner, str_eq_refl a, str_eq_refl b) refl)),
          )),
    )
  ]
    where
      or_left : (x y : Bool) → x ≡ true → (x || y) ≡ true
      or_left x y e = ground arith

      or_right : (x y : Bool) → y ≡ true → (x || y) ≡ true
      or_right x y e = ground arith

      same :
          (owner == owner && str_eq name a && str_eq language b) ≡ true
          → (name ≡ a) × (language ≡ b)
      same e =
          let (first, second) = and_true (owner == owner && str_eq name a) (str_eq language b) e in
          (
            (str_eq_iff name a).0 (and_true (owner == owner) (str_eq name a) first).1,
            (str_eq_iff language b).0 second,
          )
  named-Takes (str _) null e s h k = tt
  named-Takes (str _) (bool _) e s h k = tt
  named-Takes (str _) (num _) e s h k = tt
  named-Takes (str _) (arr _) e s h k = tt
  named-Takes (str _) (obj _) e s h k = tt
  named-Takes null _ e s h k = tt
  named-Takes (bool _) _ e s h k = tt
  named-Takes (num _) _ e s h k = tt
  named-Takes (arr _) _ e s h k = tt
  named-Takes (obj _) _ e s h k = tt

  -- Inserts that returned found no row with the key that they add.
  never_again :
      (es : List Entry) (s : Db)
      → has_row s.templates ≡ true
      → Ensures (λ _ _. times es ≡ 0) (insert_entries owner es s)
  unfolding insert_entries
  never_again [] s had = refl
  never_again (e ∷ es) s had =
      Ensures-bind (Takes e s) (λ _ _. times (e ∷ es) ≡ 0) (insert_named owner e.name e.language e)
        (λ _. insert_entries owner es) s (named-Takes e.name e.language e s refl refl)
        (λ _ u took. elim (Bool-cases (names owner e owner name language)) [
          | inl named ↦ absurd (differ (sym had ∙ (took.1 named).0))
          | inr other ↦ rw other (never_again es u (took.0 had))
        ])
    where
      differ : true ≡ false → ⊥
      differ h = cc

  at_most_once :
      (es : List Entry) (s : Db) → Ensures (λ _ _. times es ≤ 1) (insert_entries owner es s)
  unfolding insert_entries
  at_most_once [] s = omega arith
  at_most_once (e ∷ es) s =
      Ensures-bind (Takes e s) (λ _ _. times (e ∷ es) ≤ 1) (insert_named owner e.name e.language e)
        (λ _. insert_entries owner es) s (named-Takes e.name e.language e s refl refl)
        (λ _ u took. elim (Bool-cases (names owner e owner name language)) [
          | inl named ↦ rw named (
              Ensures-map (λ _ _. times es ≡ 0) (λ _ _. suc (times es) ≤ 1)
                (insert_entries owner es u) (never_again es u (took.1 named).1)
                (λ _ v none_left. omega (arith, none_left)))
          | inr other ↦ rw other (at_most_once es u)
        ])

  unseen_lem :
      (collate : String → String → Bool) (s : Db)
      → has_row s.templates ≡ false
      → Unseen (list_for_tenant collate owner none s)
  unseen_lem collate s absent e named =
      existing-eq collate owner e s
      ∙ exists_ext (has_key owner name language) (matches owner e) s.templates
          (λ t. sym (key_same owner e owner name language t named))
      ∙ absent

  -- If a listing of Meta names a key twice for which the tenant has no row, storing it raises an
  -- error.
  pub store_templates_twice :
      (collate : String → String → Bool) (raws : List Json) (s : Db)
      → exists (has_key owner name language) s.templates ≡ false
      → 2 ≤ times (listed raws)
      → (e : Error) × ((store_templates collate owner raws s).0 ≡ err e)
  unfolding store_templates
  store_templates_twice collate raws s absent twice = never (store_templates collate owner raws s) (
      Ensures-bind (Grows (times (listed raws)) no_locals) (λ _ _. ⊥)
        (take_templates owner existing raws no_locals) _ s
        (loop-Grows existing raws no_locals s (unseen_lem collate s absent))
        (λ l u grown.
          Ensures-bind (λ _ _. ⊥) (λ _ _. ⊥) (insert_entries owner l.added) _ u
            (Ensures-map (λ _ _. times l.added ≤ 1) (λ _ _. ⊥) (insert_entries owner l.added u)
              (at_most_once l.added u) (λ _ v once. omega (arith, grown, once, twice)))
            (λ _ v h. absurd h)))
    where
      existing : List Template
      existing = list_for_tenant collate owner none s

      never :
          (p : Result TemplateSyncResponse × Db)
          → Ensures (λ _ _. ⊥) p
          → (e : Error) × (p.0 ≡ err e)
      never (ok a, u) h = absurd h
      never (err e, u) h = (e, refl)
