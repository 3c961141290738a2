-- ===== src/Web/Runtime.antt =====
-- What the console takes from the JavaScript runtime, and the state of a query of the data layer.
use smartdns_rs.Prelude.{Bool, CaseMap, Option, ℕ}
use Prim.Native.String.{String}

-- A JSON value of unknown shape; a number is its text.
mutual
  pub data Json : Type 0 where
    null : Json
    bool : Bool → Json
    num : String → Json
    str : String → Json
    arr : Items → Json
    obj : Fields → Json

  pub data Items : Type 0 where
    nil : Items
    cons : Json → Items → Items

  pub data Fields : Type 0 where
    end : Fields
    field : String → Json → Fields → Fields

-- Whole numbers are `ℕ`, and `round n` is the double nearest to `n`; the fractional ones, their printing, dates and Unicode are parameters.
pub record Runtime : Type 1 where
  pub Number : Type 0
  pub round : ℕ → ℕ
  pub of_nat : ℕ → Number
  pub mul : Number → Number → Number
  pub div : Number → Number → Number
  pub geb : Number → Number → Bool
  -- `n.toFixed(digits)`
  pub to_fixed : Number → ℕ → String
  -- `n.toLocaleString()` of a whole number
  pub to_locale_string : ℕ → String
  -- `new Date(ts).toLocaleString("zh-CN", …)`, none where the time is NaN
  pub locale_date : String → Option String
  pub case_map : CaseMap
  -- `JSON.stringify(v)`, and the text that a template literal makes of a JSON value
  pub stringify : Json → String
  pub to_text : Json → String

-- What `useQuery` returns, as far as the components read it.
pub record Query {ℓ} (A : Type ℓ) : Type ℓ where
  pub value : Option A
  pub is_loading : Bool
  pub error : Bool
