-- ===== src/Client/Value.antt =====
-- The values that `response.json()` returns, as far as collector/client.py looks into them.
use deribit_price_collector.Prelude.{
  String, Bool, true, false, Option, none, some, str_eq, if◌then◌else◌,
}
use deribit_price_collector.Prelude.Int.{ℤ, pos, floor_div}
use deribit_price_collector.Exceptions.{Result, ok, err, other}

-- A float by what the client asks of it: `int(x)`, which raises on NaN and on an infinity, and the
-- whole number `x // 1_000_000`.
pub record Float : Type 0 where
  pub truncated : Result ℤ
  pub floored_million : ℤ

mutual
  pub data Json : Type 0 where
    null : Json
    bool : Bool → Json
    int : ℤ → Json
    float : Float → Json
    str : String → Json
    arr : Items → Json
    obj : Fields → Json

  pub data Items : Type 0 where
    nil : Items
    cons : Json → Items → Items

  pub data Fields : Type 0 where
    end : Fields
    field : String → Json → Fields → Fields

abbrev pub lookup : String → Fields → Option Json
lookup k end = none
lookup k (field j v rest) = if str_eq j k then some v else lookup k rest

-- value.get(key): `AttributeError` on what is no dict
unfoldable pub get : String → Json → Result (Option Json)
get k (obj fields) = ok (lookup k fields)
get k _ = err other

-- int(b), for a bool
abbrev pub int_of_bool : Bool → ℤ
int_of_bool true = pos 1
int_of_bool false = pos 0

-- value // 1_000_000: `TypeError` on what is no number
unfoldable pub floor_million : Json → Result ℤ
floor_million (int n) = ok (floor_div n 1_000_000)
floor_million (bool b) = ok (floor_div (int_of_bool b) 1_000_000)
floor_million (float x) = ok x.floored_million
floor_million _ = err other

-- isinstance(value, int | float): a bool is an int
unfoldable pub is_number : Json → Bool
is_number (int n) = true
is_number (bool b) = true
is_number (float x) = true
is_number _ = false

-- int(value), of a number
unfoldable pub truncate : Json → Result ℤ
truncate (int n) = ok n
truncate (bool b) = ok (int_of_bool b)
truncate (float x) = x.truncated
truncate _ = err other
