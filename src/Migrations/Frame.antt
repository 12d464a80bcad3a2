-- ===== src/Migrations/Frame.antt =====
-- A migration that runs on an empty schema runs beside anything whose names it does not touch, and
-- leaves that as it was.
use whatsapp_api.Base.{
  ◌≡◌, refl, ◌∙◌, ap, Bool, true, false, not, ◌&&◌, ◌||◌, String, Option, none, some, List, [], ◌∷◌,
  ◌++◌, exists, str_eq, if◌then◌else◌, arith, and_true,
}
use whatsapp_api.Migrations.{
  ColumnType, enum, Column, Table, Index, Op, create_type, create_table, create_index, drop_index,
  drop_table, drop_type, Schema, has_type, has_table, has_index, refers, uses, is_on, all_in,
  found_in, known_type, all_typed, is_indexed, discard, guard, step, then_run, run,
}

-- One schema beside another.
abbrev pub beside : Schema → Schema → Schema
beside u s = record {
  types = u.types ++ s.types;
  tables = u.tables ++ s.tables;
  indexes = u.indexes ++ s.indexes;
}

-- The names that an operation makes or drops are not those of the schema, which has nothing that
-- stands on them either.
abbrev apart : Op → Schema → Bool
apart (create_type n labels) s = not (has_type n s.types)
apart (create_table t) s = not (has_table t.name s.tables)
apart (create_index i) s = not (has_index i.name s.indexes)
apart (drop_index n) s = not (has_index n s.indexes)
apart (drop_table n) s =
    not (has_table n s.tables) && (not (refers n s.tables) && not (exists (is_on n) s.indexes))
apart (drop_type n) s = not (has_type n s.types) && not (uses n s.tables)

abbrev pub all_apart : List Op → Schema → Bool
all_apart [] s = true
all_apart (o ∷ ops) s = apart o s && all_apart ops s

module _ {ℓ} {A : Type ℓ} (p : A → Bool) where
  exists-append : (xs ys : List A) → exists p (xs ++ ys) ≡ (exists p xs || exists p ys)
  exists-append [] ys = refl
  exists-append (x ∷ xs) ys = ground (arith, exists-append xs ys)

  exists_absent : (xs ys : List A) → not (exists p ys) ≡ true → exists p (xs ++ ys) ≡ exists p xs
  exists_absent xs ys h = ground (arith, exists-append xs ys)

  exists_present : (xs ys : List A) → exists p xs ≡ true → exists p (xs ++ ys) ≡ true
  exists_present xs ys h = ground (arith, exists-append xs ys)

  discard_absent : (ys : List A) → not (exists p ys) ≡ true → discard p ys ≡ ys
  discard_absent [] h = refl
  discard_absent (y ∷ ys) h = ground (arith, discard_absent ys)

  discard-append :
      (xs ys : List A) → not (exists p ys) ≡ true → discard p (xs ++ ys) ≡ discard p xs ++ ys
  discard-append [] ys h = discard_absent ys h
  discard-append (x ∷ xs) ys h = ground (arith, discard-append xs ys h)

found_in-append :
    (r : Option (String × String)) (us ts : List Table)
    → found_in r us ≡ true
    → found_in r (us ++ ts) ≡ true
found_in-append none us ts h = refl
found_in-append (some r) us ts h = exists_present (λ (t : Table). str_eq t.name r.0) us ts h

all_in-append :
    (cs : List Column) (us ts : List Table) → all_in cs us ≡ true → all_in cs (us ++ ts) ≡ true
all_in-append [] us ts h = refl
all_in-append (c ∷ cs) us ts h =
    let (here, later) = and_true (found_in c.references us) (all_in cs us) h in
    rw (found_in-append c.references us ts here) (all_in-append cs us ts later)

abbrev is_type : String → String × List String → Bool
is_type n t = str_eq t.0 n

known_type-append :
    (c : ColumnType) (us ts : List (String × List String))
    → known_type c us ≡ true
    → known_type c (us ++ ts) ≡ true
known_type-append (enum n) us ts h = exists_present (is_type n) us ts h
known_type-append _ us ts h = refl

all_typed-append :
    (cs : List Column) (us ts : List (String × List String))
    → all_typed cs us ≡ true
    → all_typed cs (us ++ ts) ≡ true
all_typed-append [] us ts h = refl
all_typed-append (c ∷ cs) us ts h =
    let (here, later) = and_true (known_type c.type us) (all_typed cs us) h in
    rw (known_type-append c.type us ts here) (all_typed-append cs us ts later)

guard-some : (b : Bool) (x y : Schema) → guard b x ≡ some y → (b ≡ true) × (x ≡ y)
guard-some true x y h = (refl, ground arith)
guard-some false x y h = cc

guard_holds : (b : Bool) (x : Schema) → b ≡ true → guard b x ≡ some x
guard_holds b x h = rw h refl

some-injective : (x y : Schema) → some x ≡ some y → x ≡ y
some-injective x y h = ground arith

both : (a b : Bool) → a ≡ true → b ≡ true → (a && b) ≡ true
both a b h k = ground arith

-- What a test and a result have in common with those beside another schema.
guard-beside :
    (b c : Bool) (x y u s : Schema)
    → guard b x ≡ some u
    → (b ≡ true → c ≡ true)
    → (b ≡ true → y ≡ beside x s)
    → guard c y ≡ some (beside u s)
guard-beside b c x y u s h test same =
    let (fine, e) = guard-some b x u h in
    guard_holds c y (test fine) ∙ ap some (same fine ∙ ap (λ t. beside t s) e)

abbrev is_named : String → Table → Bool
is_named n t = str_eq t.name n

abbrev is_called : String → Index → Bool
is_called n i = str_eq i.name n

absent :
    {A : Type 0} (p : A → Bool) (xs ys : List A)
    → not (exists p ys) ≡ true
    → not (exists p xs) ≡ true
    → not (exists p (xs ++ ys)) ≡ true
absent p xs ys h k = ap not (exists_absent p xs ys h) ∙ k

create_type-beside :
    (b c : Bool) (t : String × List String) (u v s : Schema)
    → c ≡ b
    → some (if b then u else record u { types = t ∷ u.types }) ≡ some v
    → some (if c then beside u s else record (beside u s) { types = t ∷ (u.types ++ s.types) })
      ≡ some (beside v s)
create_type-beside true c t u v s same e =
    rw same (ap (λ w. some (beside w s)) (some-injective u v e))
create_type-beside false c t u v s same e =
    rw same (ap (λ w. some (beside w s)) (some-injective (record u { types = t ∷ u.types }) v e))

drop_table-test :
    (n : String) (us ts : List Table)
    → not (refers n ts) ≡ true
    → not (has_table n ts) ≡ true
    → (has_table n us && not (refers n (discard (is_named n) us))) ≡ true
    → (has_table n (us ++ ts) && not (refers n (discard (is_named n) (us ++ ts)))) ≡ true
drop_table-test n us ts alone none_named h =
    let (here, free) = and_true (has_table n us) (not (refers n (discard (is_named n) us))) h in
    both _ _ (exists_present (is_named n) us ts here) (
      ap (λ l. not (refers n l)) (discard-append (is_named n) us ts none_named)
      ∙ absent _ (discard (is_named n) us) ts alone free)

-- An operation that runs on a schema runs beside another from which its names are apart.
step-beside :
    (o : Op) (u v s : Schema)
    → apart o s ≡ true
    → step o u ≡ some v
    → step o (beside u s) ≡ some (beside v s)
unfolding step
step-beside (create_type n labels) u v s a e =
    create_type-beside (has_type n u.types) _ (n, labels) u v s
      (exists_absent (is_type n) u.types s.types a) e
step-beside (create_table t) u v s a e =
    guard-beside _ _ _ _ v s e
      (λ h.
        let (fresh, rest) =
          and_true (not (has_table t.name u.tables))
            (all_in t.columns (t ∷ u.tables) && all_typed t.columns u.types) h in
        let (found, typed) =
          and_true (all_in t.columns (t ∷ u.tables)) (all_typed t.columns u.types) rest in
        both _ _ (absent (is_named t.name) u.tables s.tables a fresh) (
          both _ _ (all_in-append t.columns (t ∷ u.tables) s.tables found)
            (all_typed-append t.columns u.types s.types typed)))
      (λ _. refl)
step-beside (create_index i) u v s a e =
    guard-beside _ _ _ _ v s e
      (λ h.
        let (fresh, found) =
          and_true (not (has_index i.name u.indexes)) (exists (is_indexed i) u.tables) h in
        both _ _ (absent (is_called i.name) u.indexes s.indexes a fresh)
          (exists_present (is_indexed i) u.tables s.tables found))
      (λ _. refl)
step-beside (drop_index n) u v s a e =
    guard-beside _ _ _ _ v s e (exists_present (is_called n) u.indexes s.indexes) (λ _.
      ap (λ l. record (beside u s) { indexes = l })
        (discard-append (is_called n) u.indexes s.indexes a))
step-beside (drop_table n) u v s a e =
    let (no_table, rest) =
      and_true (not (has_table n s.tables))
        (not (refers n s.tables) && not (exists (is_on n) s.indexes)) a in
    let (alone, no_index) =
      and_true (not (refers n s.tables)) (not (exists (is_on n) s.indexes)) rest in
    guard-beside _ _ _ _ v s e (drop_table-test n u.tables s.tables alone no_table) (λ _.
      ap
        (λ l. record (beside u s) {
          tables = l;
          indexes = discard (is_on n) (u.indexes ++ s.indexes);
        })
        (discard-append (is_named n) u.tables s.tables no_table)
      ∙ ap
          (λ l. record (beside u s) {
            tables = discard (is_named n) u.tables ++ s.tables;
            indexes = l;
          })
          (discard-append (is_on n) u.indexes s.indexes no_index))
step-beside (drop_type n) u v s a e =
    let (no_type, no_use) = and_true (not (has_type n s.types)) (not (uses n s.tables)) a in
    guard-beside _ _ _ _ v s e (absent _ u.tables s.tables no_use) (λ _.
      ap (λ l. record (beside u s) { types = l })
        (discard-append (is_type n) u.types s.types no_type))

-- So does a list of operations.
pub run-beside :
    (ops : List Op) (u v s : Schema)
    → all_apart ops s ≡ true
    → run ops u ≡ some v
    → run ops (beside u s) ≡ some (beside v s)
unfolding run
run-beside [] u v s a e = ap (λ w. some (beside w s)) (some-injective u v e)
run-beside (o ∷ ops) u v s a e =
    let (here, later) = and_true (apart o s) (all_apart ops s) a in
    go here (λ w k. run-beside ops w v s later k) (step o u) refl e
  where
    go :
        apart o s ≡ true
        → ((w : Schema) → run ops w ≡ some v → run ops (beside w s) ≡ some (beside v s))
        → (r : Option Schema) → step o u ≡ r
        → then_run (run ops) r ≡ some v
        → then_run (run ops) (step o (beside u s)) ≡ some (beside v s)
    go here rest none h k = cc
    go here rest (some w) h k = rw (step-beside o u w s here h) (rest w k)
