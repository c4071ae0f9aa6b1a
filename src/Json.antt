-- ===== src/Json.antt =====
-- JSON values as nlohmann::json holds them, as far as the sources read and build them: numbers are
-- integers. Text to value and back (parse and dump) is the library's and stays outside the model.
use realtime_chat.Common.{
  ℕ, ◌≡◌, refl, Bool, true, false, Option, none, some, List, [], ◌∷◌, arith, if◌then◌else◌, ◌==◌,
  nat_eq, Bytes, bytes_eq, ℤ, pos,
}

mutual
  pub data Json : Type 0 where
    null : Json
    boolean : Bool → Json
    number : ℤ → Json
    str : Bytes → Json
    arr : Items → Json
    obj : Fields → Json

  pub data Items : Type 0 where
    nil : Items
    item : Json → Items → Items

  pub data Fields : Type 0 where
    end : Fields
    field : Bytes → Json → Fields → Fields

-- The fields of a value; a value that is no object has none.
abbrev pub fields : Json → Fields
fields (obj fs) = fs
fields _ = end

-- `find` on an object: the value of a key.
abbrev pub find : Bytes → Fields → Option Json
find key end = none
find key (field k v fs) = if k == key then some v else find key fs

abbrev pub is_object : Json → Bool
is_object (obj fs) = true
is_object _ = false

-- A found value where it is a string.
abbrev pub as_string : Option Json → Option Bytes
as_string (some (str s)) = some s
as_string _ = none

-- A found value where it is an integer that is not negative, as the ids of the program are.
abbrev pub as_id : Option Json → Option ℕ
as_id (some (number (pos n))) = some n
as_id _ = none

abbrev pub id : ℕ → Json
id n = number (pos n)

abbrev pub id_items : List ℕ → Items
id_items [] = nil
id_items (n ∷ ns) = item (id n) (id_items ns)

abbrev cons_id : Option ℕ → Option (List ℕ) → Option (List ℕ)
cons_id none ns = none
cons_id (some n) none = none
cons_id (some n) (some ns) = some (n ∷ ns)

-- `get<std::vector<std::int64_t>>()`; `none` is the library's type error.
abbrev pub get_ids : Items → Option (List ℕ)
get_ids nil = some []
get_ids (item j js) = cons_id (as_id (some j)) (get_ids js)

pub get_ids-id_items : (ns : List ℕ) → get_ids (id_items ns) ≡ some ns
get_ids-id_items [] = refl
get_ids-id_items (n ∷ ns) = ground (arith, get_ids-id_items ns)
