-- ===== src/Inbound/Mail/Domain.antt =====
-- Which mails are addressed to the reply domain.
use Prim.Native.Char.{Char, code}
use text.Mathlib.TextLemmas.{nil-append, cons-append}
use stonesuite_notify.Base.{
  ℕ, ◌≡◌, refl, sym, ap, ◌∙◌, inl, inr, ◌↔◌, String, Bool, true, Option, none, some, List, [], ◌∷◌,
  ◌++◌, nat_eq, Bool-cases, Option-cases, HasNo,
}
use stonesuite_notify.Base.Text.{◌+++◌, trim_space}
use stonesuite_notify.Inbound.Mail.{after_last_at, equal_fold, addressed_to_domain, on_domain}

abbrev is_at : Char → Bool
is_at c = nat_eq (code c) 64

some_eq : {x y : String} → some x ≡ some y → x ≡ y
some_eq {x} e = ap (λ o. elim o [ none ↦ x | some z ↦ z ]) e

-- A text of a mailbox, an "@" and a domain that has no further "@".
pub record IsAddress (s d : String) : Type 0 where
  pub mailbox : String
  pub at : Char
  pub is_at_sign : is_at at ≡ true
  pub parts : s ≡ mailbox +++ String.◌∷◌ at d
  pub no_at : HasNo is_at d

after_last_at-none : (s : String) → after_last_at s ≡ none → HasNo is_at s
unfolding after_last_at
after_last_at-none String.[] h = tt
after_last_at-none (String.◌∷◌ c s) h = elim (Option-cases (after_last_at s)) [
  | inr (d, e) ↦ cc (rw e at h)
  | inl e ↦ elim (Bool-cases (is_at c)) [
    | inl k ↦ cc (rw (e, k) at h)
    | inr k ↦ (k, after_last_at-none s e)
  ]
]

after_last_at-HasNo : (s : String) → HasNo is_at s → after_last_at s ≡ none
unfolding after_last_at
after_last_at-HasNo String.[] h = refl
after_last_at-HasNo (String.◌∷◌ c s) h = rw (after_last_at-HasNo s h.1, h.0) refl

after_last_at-IsAddress : (s : String) {d : String} → after_last_at s ≡ some d → IsAddress s d
unfolding after_last_at
after_last_at-IsAddress String.[] h = cc
after_last_at-IsAddress (String.◌∷◌ c s) {d} h = elim (Option-cases (after_last_at s)) [
  | inr (t, e) ↦
      let same : after_last_at s ≡ some d = e ∙ (rw e at h) in
      let rest = after_last_at-IsAddress s same in
      record {
        mailbox = String.◌∷◌ c rest.mailbox;
        at = rest.at;
        is_at_sign = rest.is_at_sign;
        parts =
            ap (String.◌∷◌ c) rest.parts ∙ sym (cons-append c rest.mailbox (String.◌∷◌ rest.at d));
        no_at = rest.no_at;
      }
  | inl e ↦ elim (Bool-cases (is_at c)) [
    | inr k ↦ cc (rw (e, k) at h)
    | inl k ↦
        let same : s ≡ d = some_eq (rw (e, k) at h) in
        record {
          mailbox = "";
          at = c;
          is_at_sign = k;
          parts = ap (String.◌∷◌ c) same ∙ sym (nil-append (String.◌∷◌ c d));
          no_at = rw (← same) (after_last_at-none s e);
        }
  ]
]

after_last_at-here :
    (c : Char) (d : String)
    → is_at c ≡ true
    → HasNo is_at d
    → after_last_at (String.◌∷◌ c d) ≡ some d
unfolding after_last_at
after_last_at-here c d k h = rw (after_last_at-HasNo d h, k) refl

after_last_at-later :
    (b : Char) (s : String) {d : String}
    → after_last_at s ≡ some d
    → after_last_at (String.◌∷◌ b s) ≡ some d
unfolding after_last_at
after_last_at-later b s e = rw e refl

IsAddress-after_last_at :
    (m : String) (c : Char) (d : String)
    → is_at c ≡ true
    → HasNo is_at d
    → after_last_at (m +++ String.◌∷◌ c d) ≡ some d
IsAddress-after_last_at String.[] c d k h =
    rw (nil-append (String.◌∷◌ c d)) (after_last_at-here c d k h)
IsAddress-after_last_at (String.◌∷◌ b m) c d k h =
    rw (cons-append b m (String.◌∷◌ c d))
      (after_last_at-later b (m +++ String.◌∷◌ c d) (IsAddress-after_last_at m c d k h))

module _ (fold : ℕ → ℕ) (parse_address : String → Option String) (domain : String) where
  -- One of the entries is an address on the domain.
  pub record IsAddressed (addrs : List String) : Type 0 where
    pub before : List String
    pub raw : String
    pub after : List String
    pub entries : addrs ≡ before ++ raw ∷ after
    pub address : String
    pub parses : parse_address (trim_space raw) ≡ some address
    pub on : String
    pub is_address : IsAddress address on
    pub same_domain : equal_fold fold on domain ≡ true

  on_domain_iff :
      (s : String)
      → on_domain fold domain (some s) ≡ true
      → (d : String) × IsAddress s d × (equal_fold fold d domain ≡ true)
  on_domain_iff s h = elim (Option-cases (after_last_at s)) [
    | inl e ↦ cc (rw e at h)
    | inr (d, e) ↦ (d, after_last_at-IsAddress s e, rw e at h)
  ]

  IsAddressed-of :
      (addrs : List String)
      → addressed_to_domain fold parse_address addrs domain ≡ true
      → IsAddressed addrs
  unfolding addressed_to_domain
  IsAddressed-of [] h = cc
  IsAddressed-of (raw ∷ addrs) h =
      elim (Bool-cases (on_domain fold domain (parse_address (trim_space raw)))) [
        | inr no_match ↦
            let rest = IsAddressed-of addrs (rw no_match at h) in
            record {
              before = raw ∷ rest.before;
              raw = rest.raw;
              after = rest.after;
              entries = ap (λ l. raw ∷ l) rest.entries;
              address = rest.address;
              parses = rest.parses;
              on = rest.on;
              is_address = rest.is_address;
              same_domain = rest.same_domain;
            }
        | inl matches ↦ elim (Option-cases (parse_address (trim_space raw))) [
          | inl e ↦ cc (rw e at matches)
          | inr (s, e) ↦
              let (d, is_address, same) = on_domain_iff s (rw e at matches) in
              record {
                before = [];
                raw = raw;
                after = addrs;
                entries = refl;
                address = s;
                parses = e;
                on = d;
                is_address = is_address;
                same_domain = same;
              }
        ]
      ]

  addressed_to_domain-found :
      (before after : List String) (raw s d : String)
      → parse_address (trim_space raw) ≡ some s
      → IsAddress s d
      → equal_fold fold d domain ≡ true
      → addressed_to_domain fold parse_address (before ++ raw ∷ after) domain ≡ true
  unfolding addressed_to_domain
  addressed_to_domain-found [] after raw s d e i k =
      let found : after_last_at s ≡ some d =
        rw i.parts (IsAddress-after_last_at i.mailbox i.at d i.is_at_sign i.no_at) in
      rw (e, found, k) refl
  addressed_to_domain-found (x ∷ before) after raw s d e i k =
      let rest = addressed_to_domain-found before after raw s d e i k in
      elim (Bool-cases (on_domain fold domain (parse_address (trim_space x)))) [
        | inl found ↦ rw found refl
        | inr not_it ↦ rw (not_it, rest) refl
      ]

  -- A mail counts as addressed to the domain exactly when one of its entries parses as an address
  -- whose part behind the last "@" is the domain, upper and lower case ignored.
  pub addressed_to_domain_iff :
      (addrs : List String)
      → (addressed_to_domain fold parse_address addrs domain ≡ true) ↔ IsAddressed addrs
  addressed_to_domain_iff addrs = (
    IsAddressed-of addrs,
    λ i. rw i.entries (
        addressed_to_domain-found i.before i.after i.raw i.address i.on i.parses i.is_address
          i.same_domain),
  )
