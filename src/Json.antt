-- ===== src/Json.antt =====
-- Plain data as JavaScript holds it (`unknown`, `Record<string, unknown>`): the values that the
-- service hashes, stores in an audit entry's `detail`, or keeps as an opaque object.
use aisdlc.Prelude.{Bool, Option}
use aisdlc.Text.{Text}

mutual
  pub data Value : Type 0 where
    null undefined : Value
    text : Text → Value
    bool : Bool → Value
    -- A finite number is carried as the text that JSON.stringify gives for it.
    finite : Text → Value
    -- NaN or an infinity.
    non_finite : Value
    -- A Date is carried as what its toISOString gives, `none` where that throws (an invalid date).
    date : Option Text → Value
    -- A bigint is carried as the text of its toString.
    bigint : Text → Value
    -- A function or a symbol, with its `typeof`.
    opaque : Text → Value
    array : Values → Value
    object : Fields → Value

  pub data Values : Type 0 where
    nil : Values
    cons : Value → Values → Values

  -- The own properties, in insertion order.
  pub data Fields : Type 0 where
    end : Fields
    field : Text → Value → Fields → Fields
