-- ===== src/Base/Cuts.antt =====
-- Go's functions that take texts apart: CutSuffix, Split, FieldsFunc.
use Prim.Native.Nat.{ℕ, suc}
use Prim.Native.Char.{Char, code}
use Prim.Native.String.{String, [], ◌∷◌}
use mathlib.Core.Path.{◌≡◌, refl, sym, ap, ◌∙◌}
use mathlib.Core.Logic.{inl, inr}
use mathlib.Core.Bool.{Bool, false, not}
use mathlib.Core.Option.{Option, none, some}
use mathlib.Core.List.{List}
use text.Mathlib.Text.{◌==◌}
use text.Mathlib.TextLemmas.{nil-append, cons-append}
use text.Mathlib.TextEquality.{eq_iff}
use text.Mathlib.TextPositions.{eq_refl}
use native.Mathlib.Omega.{arith}
use stonesuite_notify.Base.Tests.{nat_eq, if◌then◌else◌, Bool-cases, Option-cases}
use stonesuite_notify.Base.Text.{◌+++◌, rune_count, rune_count-append}
use stonesuite_notify.Base.Lists.{All}
use stonesuite_notify.Base.Table.{select, All-select}

abbrev with_char : Char → Option String → Option String
with_char c none = none
with_char c (some s) = some (c ∷ s)

-- strings.CutSuffix: the text before the suffix, if it is one.
abbrev pub cut_suffix : String → String → Option String
cut_suffix [] suffix = if suffix == "" then some "" else none
cut_suffix (c ∷ s) suffix = if suffix == c ∷ s then some "" else with_char c (cut_suffix s suffix)

some-injective : {a b : String} → some a ≡ some b → a ≡ b
some-injective {a} e = ap (λ o. elim o [ none ↦ a | some x ↦ x ]) e

pub cut_suffix-append :
    (s suffix : String) {p : String} → cut_suffix s suffix ≡ some p → s ≡ p +++ suffix
cut_suffix-append [] suffix {p} h = elim (Bool-cases (suffix == "")) [
  | inr e ↦ cc (rw e at h)
  | inl e ↦ sym (
      ap (λ t. t +++ suffix) (sym (some-injective (rw e at h)))
      ∙ nil-append suffix
      ∙ (eq_iff suffix "").0 e)
]
cut_suffix-append (c ∷ s) suffix {p} h = elim (Bool-cases (suffix == c ∷ s)) [
  | inl e ↦ sym (
      ap (λ t. t +++ suffix) (sym (some-injective (rw e at h)))
      ∙ nil-append suffix
      ∙ (eq_iff suffix (c ∷ s)).0 e)
  | inr e ↦ elim (Option-cases (cut_suffix s suffix)) [
    | inl n ↦ cc (rw (e, n) at h)
    | inr (q, k) ↦
        ap (λ t. c ∷ t) (cut_suffix-append s suffix k)
        ∙ sym (cons-append c q suffix)
        ∙ ap (λ t. t +++ suffix) (some-injective (rw (e, k) at h))
  ]
]

pub append-cut_suffix : (p suffix : String) → cut_suffix (p +++ suffix) suffix ≡ some p
append-cut_suffix [] suffix = rw (nil-append suffix) (cut_self suffix)
  where
    cut_self : (t : String) → cut_suffix t t ≡ some ""
    cut_self [] = refl
    cut_self (c ∷ t) = rw (eq_refl (c ∷ t))
append-cut_suffix (c ∷ p) suffix =
    rw (cons-append c p suffix) (elim (Bool-cases (suffix == c ∷ (p +++ suffix))) [
      | inl e ↦ absurd (
          let longer : rune_count suffix ≡ suc (rune_count (p +++ suffix)) =
            ap rune_count ((eq_iff suffix (c ∷ (p +++ suffix))).0 e) in
          omega (arith, longer, rune_count-append p suffix))
      | inr e ↦ rw (e, append-cut_suffix p suffix)
    ])

-- The pieces of a text between the characters that are separators: at least one.
abbrev pub pieces : (Char → Bool) → String → String × List String
pieces sep [] = ("", List.[])
pieces sep (c ∷ s) =
    let rest = pieces sep s in if sep c then ("", List.◌∷◌ rest.0 rest.1) else (c ∷ rest.0, rest.1)

-- strings.Split by a separator of one character, given by its code.
abbrev pub split : ℕ → String → List String
split ch s = let p = pieces (λ c. nat_eq (code c) ch) s in List.◌∷◌ p.0 p.1

-- strings.FieldsFunc: the pieces that are not empty.
abbrev pub fields : (Char → Bool) → String → List String
fields sep s = let p = pieces sep s in select (λ t. not (t == "")) (List.◌∷◌ p.0 p.1)

-- The texts that are not empty, and that have no separator.
abbrev pub HasNo : (Char → Bool) → String → Type 0
HasNo sep [] = Unit
HasNo sep (c ∷ s) = (sep c ≡ false) × HasNo sep s

pieces-HasNo :
    (sep : Char → Bool) (s : String) → HasNo sep (pieces sep s).0 × All (HasNo sep) (pieces sep s).1
pieces-HasNo sep [] = (tt, tt)
pieces-HasNo sep (c ∷ s) = elim (Bool-cases (sep c)) [
  | inl e ↦ rw e (tt, pieces-HasNo sep s)
  | inr e ↦ rw e ((e, (pieces-HasNo sep s).0), (pieces-HasNo sep s).1)
]

pub fields-HasNo : (sep : Char → Bool) (s : String) → All (HasNo sep) (fields sep s)
fields-HasNo sep s =
    All-select (HasNo sep) (λ t. not (t == "")) (List.◌∷◌ (pieces sep s).0 (pieces sep s).1)
      (pieces-HasNo sep s)
