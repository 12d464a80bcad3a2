-- ===== src/Json.antt =====
-- JSON values as Python handles them: `.get`, truth, `or`, iteration and `str()`. A number is whole.
use whatsapp_api.Base.{
  ℕ, zero, suc, ◌+◌, ◌/◌, ◌%◌, Bool, true, false, not, String, ◌<>◌, List, [], ◌∷◌, ◌==◌, str_eq,
  if◌then◌else◌,
}
use whatsapp_api.Base.Int.{ℤ, pos, negsuc}
use whatsapp_api.Base.Text.{is_empty}
use whatsapp_api.Base.Exec.{Result, ok, err}
use whatsapp_api.Errors.{attribute_error, type_error, index_error, key_error}

mutual
  pub data Json : Type 0 where
    null : Json
    bool : Bool → Json
    num : ℤ → Json
    str : String → Json
    arr : Items → Json
    obj : Fields → Json

  pub data Items : Type 0 where
    nil : Items
    cons : Json → Items → Items

  pub data Fields : Type 0 where
    end : Fields
    field : String → Json → Fields → Fields

abbrev items : Items → List Json
items nil = []
items (cons j js) = j ∷ items js

abbrev pub from_list : List Json → Items
from_list [] = nil
from_list (j ∷ js) = cons j (from_list js)

-- `d.get(k, default)` on a dict.
abbrev pub lookup : String → Json → Fields → Json
lookup k d end = d
lookup k d (field j v fs) = if str_eq j k then v else lookup k d fs

-- `x.get(k, default)`: only a dict has the method.
unfoldable pub get_or : Json → String → Json → Result Json
get_or (obj fs) k d = ok (lookup k d fs)
get_or _ k d = err attribute_error

unfoldable pub get : Json → String → Result Json
unfolding get_or
get j k = get_or j k null

-- `bool(x)`
unfoldable pub truthy : Json → Bool
truthy null = false
truthy (bool b) = b
truthy (num (pos n)) = not (n == 0)
truthy (num (negsuc _)) = true
truthy (str s) = not (is_empty s)
truthy (arr nil) = false
truthy (arr (cons _ _)) = true
truthy (obj end) = false
truthy (obj (field _ _ _)) = true

-- `x or y`
abbrev pub or_else : Json → Json → Json
or_else x y = if truthy x then x else y

abbrev keys : Fields → List Json
keys end = []
keys (field k _ fs) = str k ∷ keys fs

abbrev characters : String → List Json
characters String.[] = []
characters (String.◌∷◌ c s) = str (String.◌∷◌ c String.[]) ∷ characters s

-- What `for x in j` runs over.
unfoldable pub iterate : Json → Result (List Json)
iterate (arr js) = ok (items js)
iterate (obj fs) = ok (keys fs)
iterate (str s) = ok (characters s)
iterate _ = err type_error

-- `x[0]`, for what a truthy value may be.
unfoldable pub first : Json → Result Json
first (arr (cons j _)) = ok j
first (arr nil) = err index_error
first (str (String.◌∷◌ c _)) = ok (str (String.◌∷◌ c String.[]))
first (str String.[]) = err index_error
first (obj _) = err key_error
first _ = err type_error

abbrev item_of : String → Fields → Result Json
item_of k end = err key_error
item_of k (field j v fs) = if str_eq j k then ok v else item_of k fs

-- `x[k]`, for a text `k`.
unfoldable pub item : Json → String → Result Json
item (obj fs) k = item_of k fs
item _ k = err type_error

abbrev digit : ℕ → String
digit d =
    if d == 0
    then "0"
    else if d == 1
    then "1"
    else if d == 2
    then "2"
    else if d == 3
    then "3"
    else if d == 4
    then "4"
    else if d == 5
    then "5"
    else if d == 6
    then "6"
    else if d == 7
    then "7"
    else if d == 8
    then "8"
    else "9"

-- A number below 10 ^ fuel in decimal; `suc n` rounds are enough for `n`.
decimal_fuel : ℕ → ℕ → String
decimal_fuel zero n = ""
decimal_fuel (suc k) n =
    let more = decimal_fuel k (n / 10) <> digit (n % 10) in if n / 10 == 0 then digit n else more

unfoldable pub decimal : ℕ → String
unfolding decimal_fuel
decimal n = decimal_fuel (suc n) n

abbrev quoted : String → String
quoted s = "'" <> s <> "'"

-- `repr(x)`, with no character escaped.
unfoldable mutual
  pub repr : Json → String
  repr null = "None"
  repr (bool true) = "True"
  repr (bool false) = "False"
  repr (num (pos n)) = decimal n
  repr (num (negsuc n)) = "-" <> decimal (n + 1)
  repr (str s) = quoted s
  repr (arr js) = "[" <> repr_items js
  repr (obj fs) = "{" <> repr_fields fs

  repr_items : Items → String
  repr_items nil = "]"
  repr_items (cons j nil) = repr j <> "]"
  repr_items (cons j js) = repr j <> ", " <> repr_items js

  repr_fields : Fields → String
  repr_fields end = "}"
  repr_fields (field k v end) = quoted k <> ": " <> repr v <> "}"
  repr_fields (field k v fs) = quoted k <> ": " <> repr v <> ", " <> repr_fields fs

-- `str(x)`
unfoldable pub to_str : Json → String
to_str (str s) = s
to_str j = repr j
