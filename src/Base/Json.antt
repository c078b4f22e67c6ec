-- ===== src/Base/Json.antt =====
-- A JSON value as the database's JSONB columns hold it: a tree, not its bytes.
use Prim.Native.String.{String}
use mathlib.Core.Option.{Option, none, some}
use text.Mathlib.Text.{◌==◌}
use stonesuite_notify.Base.Int.{ℤ}
use mathlib.Core.Bool.{Bool, false}
use mathlib.Core.Path.{◌≡◌}
use mathlib.Core.Logic.{inl, inr}
use text.Mathlib.TextEquality.{eq_iff}
use text.Mathlib.TextPositions.{eq_refl}
use stonesuite_notify.Base.Results.{Result, ok, err}
use stonesuite_notify.Base.Tests.{if◌then◌else◌, Bool-cases}

mutual
  pub data Json : Type 0 where
    null : Json
    boolean : Bool → Json
    number : ℤ → Json
    string : String → Json
    arr : Items → Json
    obj : Fields → Json

  pub data Items : Type 0 where
    nil : Items
    cons : Json → Items → Items

  pub data Fields : Type 0 where
    end : Fields
    field : String → Json → Fields → Fields

-- The value of a key; a JSONB object holds each key once.
abbrev pub member : String → Fields → Option Json
member k end = none
member k (field j v fs) = if j == k then some v else member k fs

-- json.Marshal of a text field marked omitempty, in front of the other fields.
abbrev pub omit_empty : String → String → Fields → Fields
omit_empty key v rest = if v == "" then rest else field key (string v) rest

-- json.Unmarshal into a text field: a key that is missing or null leaves it empty, and a value of
-- another kind is an error.
unfoldable pub text_field : Option Json → Result String
text_field none = ok ""
text_field (some null) = ok ""
text_field (some (string s)) = ok s
text_field _ = err "cannot unmarshal"

pub member-omit_empty_other :
    (k j v : String) (rest : Fields)
    → (j == k) ≡ false
    → member k (omit_empty j v rest) ≡ member k rest
member-omit_empty_other k j v rest h = elim (Bool-cases (v == "")) [
  | inl e ↦ rw e
  | inr e ↦ rw (e, h)
]

pub text_field-omit_empty :
    (k v : String) (rest : Fields)
    → text_field (member k rest) ≡ ok ""
    → text_field (member k (omit_empty k v rest)) ≡ ok v
unfolding text_field
text_field-omit_empty k v rest h = elim (Bool-cases (v == "")) [
  | inl e ↦ rw (e, h, (eq_iff v "").0 e)
  | inr e ↦ rw (e, eq_refl k)
]
