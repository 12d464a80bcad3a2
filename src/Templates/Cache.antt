-- ===== src/Templates/Cache.antt =====
-- The cache of templates as a map from tenants, names and languages, which forgets the rows: the
-- specification of `sync_from_meta`.
use whatsapp_api.Base.{
  ℕ, ◌≡◌, refl, inl, inr, Bool, true, false, ◌&&◌, String, Option, none, some, List, [], ◌∷◌, ◌++◌,
  exists, find, ◌==◌, str_eq, if◌then◌else◌, arith, ap, sym, ◌∙◌, Bool-cases, str_eq_iff, ==_iff,
  str_eq_refl, str_eq_comm, ==_refl, ==_comm, fun_ext, and_true,
}
use whatsapp_api.Base.Exec.{Result, ok}
use whatsapp_api.Json.{Json, null, bool, num, str, arr, obj}
use whatsapp_api.Models.{Template, TemplateCategory, TemplateStatus}
use whatsapp_api.Store.{Db}
use whatsapp_api.Campaigns.{has_key}
use whatsapp_api.Templates.{synced, touch, is_text, matches, touch_rows, new_template, add_template}
use whatsapp_api.Templates.Entries.{Entry, read_template}

-- What a caller of the cache sees of a template.
abbrev Shown : Type 0
Shown = TemplateCategory × TemplateStatus × Json

abbrev pub Cache : Type 0
Cache = ℕ → String → String → Option Shown

abbrev pub seen : Option Template → Option Shown
seen none = none
seen (some t) = some (t.category, t.status, t.components)

-- The map that the rows stand for.
abbrev pub cached : Db → Cache
cached s k name language = seen (find (has_key k name language) s.templates)

-- A template that Meta lists is put into the map, and so is each of a list, in their order.
abbrev pub names : ℕ → Entry → ℕ → String → String → Bool
names tenant_id e k name language =
    k == tenant_id && is_text e.name name && is_text e.language language

abbrev pub learn : ℕ → Entry → Cache → Cache
learn tenant_id e m k name language =
    if names tenant_id e k name language
    then some (e.category, e.status, e.components)
    else m k name language

abbrev pub learn_all : ℕ → List Entry → Cache → Cache
learn_all tenant_id [] m = m
learn_all tenant_id (e ∷ es) m = learn_all tenant_id es (learn tenant_id e m)

abbrev pub listed_found : Result (Option Entry) → List Entry → List Entry
listed_found (ok (some e)) rest = e ∷ rest
listed_found _ rest = rest

-- The templates that the loop reads.
abbrev pub listed : List Json → List Entry
listed [] = []
listed (raw ∷ raws) = listed_found (read_template raw) (listed raws)

is_text_same : (j : Json) (n x : String) → is_text j n ≡ true → is_text j x ≡ str_eq x n
is_text_same (str s) n x h = rw ((str_eq_iff n s).0 h) refl
is_text_same null n x h = cc
is_text_same (bool b) n x h = cc
is_text_same (num i) n x h = cc
is_text_same (arr js) n x h = cc
is_text_same (obj fs) n x h = cc

module _ (tenant_id : ℕ) where
  -- The rows that an entry matches are those with its key.
  pub key_same :
      (e : Entry) (k : ℕ) (n l : String) (t : Template)
      → names tenant_id e k n l ≡ true
      → has_key k n l t ≡ matches tenant_id e t
  key_same e k n l t h = rw (
    is_text_same e.name n t.name (and_true (k == tenant_id) (is_text e.name n) first).1,
    is_text_same e.language l t.language
        (and_true (k == tenant_id && is_text e.name n) (is_text e.language l) h).1,
    (==_iff k tenant_id).0 (and_true (k == tenant_id) (is_text e.name n) first).0,
  )
    where
      first : (k == tenant_id && is_text e.name n) ≡ true
      first = (and_true (k == tenant_id && is_text e.name n) (is_text e.language l) h).0

  key_other :
      (e : Entry) (k : ℕ) (n l : String) (t : Template)
      → names tenant_id e k n l ≡ false
      → has_key k n l t ≡ true
      → matches tenant_id e t ≡ false
  key_other e k n l t h same = rw (tenant_eq, name_eq, language_eq) h
    where
      first : (t.tenant_id == k && str_eq t.name n) ≡ true
      first = (and_true (t.tenant_id == k && str_eq t.name n) (str_eq t.language l) same).0

      tenant_eq : t.tenant_id ≡ k
      tenant_eq = (==_iff t.tenant_id k).0 (and_true (t.tenant_id == k) (str_eq t.name n) first).0

      name_eq : t.name ≡ n
      name_eq = (str_eq_iff t.name n).0 (and_true (t.tenant_id == k) (str_eq t.name n) first).1

      language_eq : t.language ≡ l
      language_eq =
          (str_eq_iff t.language l).0
            (and_true (t.tenant_id == k && str_eq t.name n) (str_eq t.language l) same).1

module _ (q p : Template → Bool) (f : Template → Template)
    (keeps : (t : Template) → q (f t) ≡ q t) where
  find-touch_other :
      (ts : List Template)
      → ((t : Template) → q t ≡ true → p t ≡ false)
      → find q (touch p f ts) ≡ find q ts
  find-touch_other [] h = refl
  find-touch_other (t ∷ ts) h = ground (arith, find-touch_other ts h, keeps t, h t)

  pub exists-touch : (ts : List Template) → exists q (touch p f ts) ≡ exists q ts
  exists-touch [] = refl
  exists-touch (t ∷ ts) = ground (arith, exists-touch ts, keeps t)

  find-touch_same :
      (ts : List Template)
      → ((t : Template) → q t ≡ p t)
      → exists q ts ≡ true
      → (t : Template) × (find q (touch p f ts) ≡ some (f t))
  find-touch_same [] h some_row = cc
  find-touch_same (t ∷ ts) h some_row = elim (Bool-cases (q t)) [
    | inl here ↦ (t, ground (arith, keeps t, h t))
    | inr away ↦
        (let (x, found) = find-touch_same ts h (ground (arith)) in
          (x, ground (arith, keeps t, h t, found)))
  ]

pub exists_ext :
    (p q : Template → Bool) (ts : List Template)
    → ((t : Template) → q t ≡ p t)
    → exists q ts ≡ exists p ts
exists_ext p q [] h = refl
exists_ext p q (t ∷ ts) h = rw (h t, exists_ext p q ts h)

find-snoc_absent :
    (q : Template → Bool) (x : Template) (ts : List Template)
    → exists q ts ≡ false
    → find q (ts ++ (x ∷ [])) ≡ (if q x then some x else none)
find-snoc_absent q x [] h = refl
find-snoc_absent q x (t ∷ ts) h = ground (arith, find-snoc_absent q x ts)

find-snoc_other :
    (q : Template → Bool) (x : Template) (ts : List Template)
    → q x ≡ false
    → find q (ts ++ (x ∷ [])) ≡ find q ts
find-snoc_other q x [] h = rw h refl
find-snoc_other q x (t ∷ ts) h = ground (arith, find-snoc_other q x ts)

module _ (tenant_id : ℕ) where
  -- Assigning to the row of a template that is there puts it into the map.
  pub cached-touch_rows :
      (e : Entry) (s : Db)
      → exists (matches tenant_id e) s.templates ≡ true
      → cached (touch_rows tenant_id e s) ≡ learn tenant_id e (cached s)
  cached-touch_rows e s there = fun_ext λ k. fun_ext λ n. fun_ext λ l. at k n l
    where
      here :
          (k : ℕ) (n l : String)
          → names tenant_id e k n l ≡ true
          → cached (touch_rows tenant_id e s) k n l ≡ some (e.category, e.status, e.components)
      here k n l h =
          let (t, found) =
            find-touch_same (has_key k n l) (matches tenant_id e) (synced e s.now) (λ t. refl)
              s.templates (λ t. key_same tenant_id e k n l t h)
              (exists_ext (matches tenant_id e) (has_key k n l) s.templates
                  (λ t. key_same tenant_id e k n l t h)
                ∙ there) in
          ap seen found

      at :
          (k : ℕ) (n l : String)
          → cached (touch_rows tenant_id e s) k n l ≡ learn tenant_id e (cached s) k n l
      at k n l = elim (Bool-cases (names tenant_id e k n l)) [
        | inl h ↦ rw h (here k n l h)
        | inr h ↦ rw h (
            ap seen (
              find-touch_other (has_key k n l) (matches tenant_id e) (synced e s.now) (λ t. refl)
                s.templates (λ t. key_other tenant_id e k n l t h)))
      ]

  -- So does adding a row under a key that has none.
  pub cached-add_template :
      (name language : String) (e : Entry) (s : Db)
      → e.name ≡ str name
      → e.language ≡ str language
      → exists (has_key tenant_id name language) s.templates ≡ false
      → cached (add_template tenant_id (new_template tenant_id name language e s) s)
        ≡ learn tenant_id e (cached s)
  cached-add_template name language e s name_eq language_eq absent =
      fun_ext λ k. fun_ext λ n. fun_ext λ l. at k n l
    where
      row : Template
      row = new_template tenant_id name language e s

      key_eq : (k : ℕ) (n l : String) → has_key k n l row ≡ names tenant_id e k n l
      key_eq k n l =
          rw (name_eq, language_eq, str_eq_comm n name, str_eq_comm l language, ==_comm k tenant_id)

      own : names tenant_id e tenant_id name language ≡ true
      own = rw (name_eq, language_eq, str_eq_refl name, str_eq_refl language, ==_refl tenant_id)

      absent_here :
          (k : ℕ) (n l : String)
          → names tenant_id e k n l ≡ true
          → exists (has_key k n l) s.templates ≡ false
      absent_here k n l h =
          exists_ext (has_key tenant_id name language) (has_key k n l) s.templates (λ t.
            key_same tenant_id e k n l t h
            ∙ sym (key_same tenant_id e tenant_id name language t own))
          ∙ absent

      here :
          (k : ℕ) (n l : String)
          → names tenant_id e k n l ≡ true
          → cached (add_template tenant_id row s) k n l ≡ some (e.category, e.status, e.components)
      here k n l h =
          ap seen (find-snoc_absent (has_key k n l) row s.templates (absent_here k n l h))
          ∙ ap (λ b. seen (if b then some row else none)) (key_eq k n l ∙ h)

      at :
          (k : ℕ) (n l : String)
          → cached (add_template tenant_id row s) k n l ≡ learn tenant_id e (cached s) k n l
      at k n l = elim (Bool-cases (names tenant_id e k n l)) [
        | inl h ↦ rw h (here k n l h)
        | inr h ↦
            rw h (ap seen (find-snoc_other (has_key k n l) row s.templates (key_eq k n l ∙ h)))
      ]
