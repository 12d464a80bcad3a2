-- ===== src/Templates/Sync.antt =====
-- `sync_from_meta` against its specification, the cache as a map.
use whatsapp_api.Base.{
  ℕ, ◌+◌, ◌≡◌, refl, inl, inr, true, false, String, Option, none, some, List, [], ◌∷◌, ◌++◌, exists,
  length, arith, ap, sym, ◌∙◌, fun_ext, All, Bool-cases, if_elim,
}
use whatsapp_api.Base.Exec.{Result, ok, err, lift, ◌>>=◌}
use whatsapp_api.Base.Ensures.{Ensures, Ensures-bind, Ensures-map}
use whatsapp_api.Json.{Json}
use whatsapp_api.Models.{Template}
use whatsapp_api.Store.{Db}
use whatsapp_api.Templates.{Locals, synced, matches, take_entry, take_found, take_templates}
use whatsapp_api.Templates.Entries.{Entry, read_template}
use whatsapp_api.Templates.Cache.{
  Cache, cached, names, learn, learn_all, listed, listed_found, key_same, exists-touch, exists_ext,
  cached-touch_rows,
}

module _ (tenant_id : ℕ) where
  learn_all-append :
      (es : List Entry) (e : Entry) (m : Cache)
      → learn_all tenant_id (es ++ (e ∷ [])) m ≡ learn tenant_id e (learn_all tenant_id es m)
  learn_all-append [] e m = refl
  learn_all-append (x ∷ xs) e m = learn_all-append xs e (learn tenant_id x m)

  -- Two entries of different keys.
  abbrev Apart : Entry → Entry → Type 0
  Apart e a =
      (k : ℕ) (n l : String) → names tenant_id a k n l ≡ true → names tenant_id e k n l ≡ false

  learn_comm :
      (a e : Entry) (m : Cache)
      → Apart e a
      → learn tenant_id a (learn tenant_id e m) ≡ learn tenant_id e (learn tenant_id a m)
  learn_comm a e m apart = fun_ext λ k. fun_ext λ n. fun_ext λ l. at k n l
    where
      at :
          (k : ℕ) (n l : String)
          → learn tenant_id a (learn tenant_id e m) k n l
            ≡ learn tenant_id e (learn tenant_id a m) k n l
      at k n l = elim (Bool-cases (names tenant_id a k n l)) [
        | inl h ↦ rw (h, apart k n l h)
        | inr h ↦ rw h
      ]

  learn_all_comm :
      (es : List Entry) (e : Entry) (m : Cache)
      → All (Apart e) es
      → learn_all tenant_id es (learn tenant_id e m) ≡ learn tenant_id e (learn_all tenant_id es m)
  learn_all_comm [] e m h = refl
  learn_all_comm (a ∷ es) e m h =
      ap (learn_all tenant_id es) (learn_comm a e m h.0)
      ∙ learn_all_comm es e (learn tenant_id a m) h.1

  -- An entry with a row and one without have different keys.
  apart_lem :
      (ts : List Template) (e a : Entry)
      → exists (matches tenant_id e) ts ≡ true
      → exists (matches tenant_id a) ts ≡ false
      → Apart e a
  apart_lem ts e a there absent k n l h = elim (Bool-cases (names tenant_id e k n l)) [
    | inr differ ↦ differ
    | inl same ↦ absurd (
        contradiction (
          sym there
          ∙ exists_ext (matches tenant_id a) (matches tenant_id e) ts
              (λ t. sym (key_same tenant_id e k n l t same) ∙ key_same tenant_id a k n l t h)
          ∙ absent))
  ]
    where
      contradiction : true ≡ false → ⊥
      contradiction h = cc

  -- The loop's invariant: it sees the keys that have a row, and what it added has none.
  pub record Looping (existing : List Template) (l : Locals) (s : Db) : Type 0 where
    pub known :
        (e : Entry)
        → exists (matches tenant_id e) existing ≡ exists (matches tenant_id e) s.templates
    pub fresh : All (λ a. exists (matches tenant_id a) existing ≡ false) l.added

  -- The map that the rows and the added rows stand for.
  abbrev pending_map : Locals → Db → Cache
  pending_map l s = learn_all tenant_id l.added (cached s)

  -- What a part of the loop leaves: the map has learned the entries, and each is counted.
  pub record Took (existing : List Template) (es : List Entry) (l : Locals) (s : Db) (l' : Locals)
      (u : Db) : Type 0 where
    pub looping : Looping existing l' u
    pub learned : pending_map l' u ≡ learn_all tenant_id es (pending_map l s)
    pub counted : l'.created + l'.updated ≡ l.created + l.updated + length es

  entry-Ensures :
      (existing : List Template) (e : Entry) (l : Locals) (s : Db)
      → Looping existing l s
      → Ensures (Took existing (e ∷ []) l s) (take_entry tenant_id existing e l s)
  unfolding take_entry
  entry-Ensures existing e l s inv =
      if_elim (Ensures (Took existing (e ∷ []) l s)) (exists (matches tenant_id e) existing)
        (λ there. record {
          looping = record {
            known = λ a.
                inv.known a
                ∙ sym (
                    exists-touch (matches tenant_id a) (matches tenant_id e) (synced e s.now)
                      (λ t. refl) s.templates);
            fresh = inv.fresh;
          };
          learned =
              ap (learn_all tenant_id l.added)
                (cached-touch_rows tenant_id e s (sym (inv.known e) ∙ there))
              ∙ learn_all_comm l.added e (cached s) (all_apart l.added there inv.fresh);
          counted = omega arith;
        })
        (λ absent. record {
          looping = record { known = inv.known; fresh = all_snoc l.added inv.fresh absent };
          learned = learn_all-append l.added e (cached s);
          counted = omega arith;
        })
    where
      all_apart :
          (es : List Entry)
          → exists (matches tenant_id e) existing ≡ true
          → All (λ a. exists (matches tenant_id a) existing ≡ false) es
          → All (Apart e) es
      all_apart [] there h = tt
      all_apart (a ∷ es) there h = (apart_lem existing e a there h.0, all_apart es there h.1)

      all_snoc :
          (es : List Entry)
          → All (λ a. exists (matches tenant_id a) existing ≡ false) es
          → exists (matches tenant_id e) existing ≡ false
          → All (λ a. exists (matches tenant_id a) existing ≡ false) (es ++ (e ∷ []))
      all_snoc [] h absent = (absent, tt)
      all_snoc (a ∷ es) h absent = (h.0, all_snoc es h.1 absent)

  found-Ensures :
      (existing : List Template) (found : Option Entry) (l : Locals) (s : Db)
      → Looping existing l s
      → Ensures
          (Took existing (listed_found (ok found) []) l s)
          (take_found tenant_id existing found l s)
  unfolding take_found
  found-Ensures existing none l s inv = record {
    looping = inv;
    learned = refl;
    counted = omega arith;
  }
  found-Ensures existing (some e) l s inv = entry-Ensures existing e l s inv

  Took-trans :
      (existing : List Template) (found : Option Entry) (es : List Entry) (l : Locals) (s : Db)
      (m : Locals) (u : Db) (n : Locals) (v : Db)
      → Took existing (listed_found (ok found) []) l s m u
      → Took existing es m u n v
      → Took existing (listed_found (ok found) es) l s n v
  Took-trans existing none es l s m u n v h k = record {
    looping = k.looping;
    learned = k.learned ∙ ap (learn_all tenant_id es) h.learned;
    counted = omega (arith, h.counted, k.counted);
  }
  Took-trans existing (some e) es l s m u n v h k = record {
    looping = k.looping;
    learned = k.learned ∙ ap (learn_all tenant_id es) h.learned;
    counted = omega (arith, h.counted, k.counted);
  }

  pub loop-Ensures :
      (existing : List Template) (raws : List Json) (l : Locals) (s : Db)
      → Looping existing l s
      → Ensures (Took existing (listed raws) l s) (take_templates tenant_id existing raws l s)
  unfolding take_templates
  loop-Ensures existing [] l s inv = record { looping = inv; learned = refl; counted = omega arith }
  loop-Ensures existing (raw ∷ raws) l s inv =
      go (read_template raw) (λ m u looping. loop-Ensures existing raws m u looping)
    where
      go :
          (r : Result (Option Entry))
          → ((m : Locals) (u : Db)
              → Looping existing m u
              → Ensures
                  (Took existing (listed raws) m u)
                  (take_templates tenant_id existing raws m u))
          → Ensures (Took existing (listed_found r (listed raws)) l s) (
              (lift r >>= λ found.
              take_found tenant_id existing found l >>= take_templates tenant_id existing raws)
                s)
      go (err e) later = tt
      go (ok found) later =
          Ensures-bind (Took existing (listed_found (ok found) []) l s)
            (Took existing (listed_found (ok found) (listed raws)) l s)
            (take_found tenant_id existing found l) (take_templates tenant_id existing raws) s
            (found-Ensures existing found l s inv)
            (λ m u h.
              Ensures-map (Took existing (listed raws) m u)
                (Took existing (listed_found (ok found) (listed raws)) l s)
                (take_templates tenant_id existing raws m u) (later m u h.looping)
                (λ n v k. Took-trans existing found (listed raws) l s m u n v h k))
