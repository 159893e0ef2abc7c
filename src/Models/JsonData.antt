-- ===== src/Models/JsonData.antt =====
-- JSON values as `json.loads` returns them, and the dict operations that the program uses.
use serverless_xmpp.Base.{
  ℕ, String, Bool, true, false, Option, none, some, ◌≡◌, arith, ◌==◌, eq_iff, if◌then◌else◌, eqb,
}

mutual
  pub data Json : Type 0 where
    null : Json
    bool : Bool → Json
    int : ℕ → Json
    -- any other number, by its literal
    number : String → Json
    str : String → Json
    arr : Items → Json
    obj : Fields → Json

  pub data Items : Type 0 where
    nil : Items
    cons : Json → Items → Items

  pub data Fields : Type 0 where
    end : Fields
    field : String → Json → Fields → Fields

-- `d.get(k)`
unfoldable pub get : String → Fields → Option Json
get k end = none
get k (field j v d) = if j == k then some v else get k d

-- `d[k] = v`: a present key keeps its place, a new one is last.
unfoldable pub set : String → Json → Fields → Fields
set k v end = field k v end
set k v (field j w d) = let rest = set k v d in if j == k then field j v d else field j w rest

-- `{k: v for k, v in d.items() if k != key}`
unfoldable pub without : String → Fields → Fields
without key end = end
without key (field j v d) = let rest = without key d in if j == key then rest else field j v rest

-- `d.update(e)`
unfoldable pub update : Fields → Fields → Fields
update d end = d
update d (field k v e) = update (set k v d) e

pub get-set :
    (k j : String) (v : Json) (d : Fields)
    → get k (set j v d) ≡ (if j == k then some v else get k d)
unfolding get set
get-set k j v end = ground arith
get-set k j v (field i w d) = ground (arith, get-set k j v d, eq_iff i j, eq_iff i k, eq_iff j k)

pub get-without :
    (k j : String) (d : Fields) → get k (without j d) ≡ (if j == k then none else get k d)
unfolding get without
get-without k j end = ground arith
get-without k j (field i w d) =
    ground (arith, get-without k j d, eq_iff i j, eq_iff i k, eq_iff j k)

-- Whatever a key is set to, taking the key out gives one dict.
pub without-set_self : (k : String) (v : Json) (d : Fields) → without k (set k v d) ≡ without k d
unfolding without set
without-set_self k v end = ground (arith, eq_iff k k)
without-set_self k v (field i w d) = ground (arith, without-set_self k v d, eq_iff i k)

-- Truthiness, `bool(v)`.
unfoldable pub truthy : Json → Bool
truthy null = false
truthy (bool b) = b
truthy (int n) = if eqb n 0 then false else true
truthy (number s) = if s == "0.0" then false else if s == "-0.0" then false else true
truthy (str s) = if s == "" then false else true
truthy (arr nil) = false
truthy (arr (cons v l)) = true
truthy (obj end) = false
truthy (obj (field k v d)) = true

-- `d.get(k)` as a text, if it is one.
unfoldable pub as_str : Option Json → Option String
as_str (some (str s)) = some s
as_str _ = none

pub str-injective : {s t : String} → some (str s) ≡ some (str t) → s ≡ t
str-injective h = cc h
