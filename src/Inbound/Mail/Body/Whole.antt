-- ===== src/Inbound/Mail/Body/Whole.antt =====
-- The cut by bytes of a body keeps whole characters.
use Prim.Native.Char.{code}
use stonesuite_notify.Base.{
  ℕ, zero, suc, ◌+◌, ◌-◌, ◌≤◌, ◌<◌, ◌≡◌, refl, ap, ◌∙◌, sym, true, false, List, [], ◌∷◌, ◌++◌, take,
  length, length-append, leb, leb→le, if◌then◌else◌, String, arith, Bool-cases, inl, inr,
}
use stonesuite_notify.Base.Utf8.{encode_code, encode, rune_start, byte_at}
use stonesuite_notify.Base.Utf8.Prefix.{fit, Inside, IsChar, encode_code-IsChar, length-encode-fit}
use stonesuite_notify.Inbound.Mail.Body.{back_up, truncate_bytes}

suc_add : (a b : ℕ) → suc a + b ≡ suc (a + b)
suc_add a b = omega arith

zero_add : (b : ℕ) → 0 + b ≡ b
zero_add b = omega arith

add_zero : (a : ℕ) → a + 0 ≡ a
add_zero a = omega arith

add_suc : (a b : ℕ) → a + suc b ≡ suc (a + b)
add_suc a b = omega arith

byte_at-append : (p q : List ℕ) (i : ℕ) → byte_at (p ++ q) (length p + i) ≡ byte_at q i
byte_at-append [] q i = rw (zero_add i) refl
byte_at-append (b ∷ p) q i = rw (suc_add (length p) i) (byte_at-append p q i)

byte_at-Inside :
    (p q : List ℕ) (i : ℕ) → Inside p → i < length p → rune_start (byte_at (p ++ q) i) ≡ false
byte_at-Inside [] q i h k = absurd (omega arith)
byte_at-Inside (b ∷ p) q zero h k = h.0
byte_at-Inside (b ∷ p) q (suc i) h k = byte_at-Inside p q i h.1 (omega arith)

take-append : (p q : List ℕ) (n : ℕ) → take (length p + n) (p ++ q) ≡ p ++ take n q
take-append [] q n = rw (zero_add n) refl
take-append (b ∷ p) q n = rw (suc_add (length p) n) (ap (λ l. b ∷ l) (take-append p q n))

back_up-suc :
    (s : List ℕ) (cut : ℕ)
    → back_up s (suc cut) ≡ (if rune_start (byte_at s (suc cut)) then suc cut else back_up s cut)
unfolding back_up rune_start
back_up-suc s cut = refl

back_up-start : (s : List ℕ) (cut : ℕ) → rune_start (byte_at s cut) ≡ true → back_up s cut ≡ cut
back_up-start s zero h = back_up-zero s
  where
    back_up-zero : (s : List ℕ) → back_up s 0 ≡ 0
    back_up-zero s = unfold back_up in refl
back_up-start s (suc cut) h = rw (back_up-suc s cut, h) refl

back_up-inside :
    (s : List ℕ) (cut : ℕ)
    → rune_start (byte_at s (suc cut)) ≡ false
    → back_up s (suc cut) ≡ back_up s cut
back_up-inside s cut h = rw (back_up-suc s cut, h) refl

-- Behind a start of a character the loop does not go.
back_up-append :
    (p q : List ℕ) (m : ℕ)
    → rune_start (byte_at q 0) ≡ true
    → back_up (p ++ q) (length p + m) ≡ length p + back_up q m
back_up-append p q zero h =
    back_up-start (p ++ q) (length p + 0) (rw (byte_at-append p q 0) h)
    ∙ ap (λ k. length p + k) (sym (back_up-start q 0 h))
back_up-append p q (suc m) h = elim (Bool-cases (rune_start (byte_at q (suc m)))) [
  | inl e ↦
      back_up-start (p ++ q) (length p + suc m) (rw (byte_at-append p q (suc m)) e)
      ∙ ap (λ k. length p + k) (sym (back_up-start q (suc m) e))
  | inr e ↦
      let inside : rune_start (byte_at (p ++ q) (suc (length p + m))) ≡ false =
        rw (← add_suc (length p) m) (rw (byte_at-append p q (suc m)) e) in
      rw (add_suc (length p) m, back_up-inside (p ++ q) (length p + m) inside)
        (back_up-append p q m h ∙ ap (λ k. length p + k) (sym (back_up-inside q m e)))
]

-- Inside of the first character it goes back to the beginning.
back_up-IsChar : (p q : List ℕ) (max : ℕ) → IsChar p → max < length p → back_up (p ++ q) max ≡ 0
back_up-IsChar [] q max h k = absurd h
back_up-IsChar (b ∷ p) q zero h k = back_up-start (b ∷ (p ++ q)) 0 h.0
back_up-IsChar (b ∷ p) q (suc max) h k =
    back_up-inside (b ∷ (p ++ q)) max (byte_at-Inside p q max h.1 (omega arith))
    ∙ back_up-IsChar (b ∷ p) q max h (omega arith)

encode-start : (t : String) → 0 < length (encode t) → rune_start (byte_at (encode t) 0) ≡ true
unfolding encode
encode-start String.[] h = absurd (omega arith)
encode-start (String.◌∷◌ c t) h = first (encode_code (code c)) (encode_code-IsChar (code c))
  where
    first : (p : List ℕ) → IsChar p → rune_start (byte_at (p ++ encode t) 0) ≡ true
    first [] k = absurd k
    first (b ∷ p) k = k.0

fit_all : (t : String) (max : ℕ) → length (encode t) ≤ max → fit max t ≡ t
unfolding encode fit
fit_all String.[] max h = refl
fit_all (String.◌∷◌ c t) max h =
    let whole = length-append (encode_code (code c)) (encode t) in
    elim (Bool-cases (leb (length (encode_code (code c))) max)) [
      | inl e ↦ rw e (ap (String.◌∷◌ c) (fit_all t _ (omega (arith, whole))))
      | inr e ↦ absurd (ground (arith, whole, e))
    ]

take-back_up :
    (t : String) (max : ℕ)
    → max < length (encode t)
    → take (back_up (encode t) max) (encode t) ≡ encode (fit max t)
unfolding encode fit
take-back_up String.[] max h = absurd (omega arith)
take-back_up (String.◌∷◌ c t) max h =
    let whole = length-append (encode_code (code c)) (encode t) in
    elim (Bool-cases (leb (length (encode_code (code c))) max)) [
      | inl e ↦
          let n = max - length (encode_code (code c)) in
          let split : max ≡ length (encode_code (code c)) + n = ground (arith, e) in
          let more : n < length (encode t) = omega (arith, whole, split) in
          rw e (
            ap
              (λ k.
                take (back_up (encode_code (code c) ++ encode t) k)
                  (encode_code (code c) ++ encode t))
              split
            ∙ ap (λ k. take k (encode_code (code c) ++ encode t))
                (back_up-append (encode_code (code c)) (encode t) n (encode-start t (omega arith)))
            ∙ take-append (encode_code (code c)) (encode t) (back_up (encode t) n)
            ∙ ap (λ l. encode_code (code c) ++ l) (take-back_up t n more))
      | inr e ↦
          let less : max < length (encode_code (code c)) = ground (arith, e) in
          rw
            (
              e,
              back_up-IsChar (encode_code (code c)) (encode t) max (encode_code-IsChar (code c))
                  less,
            )
            refl
    ]

-- The cut of a text's bytes to `max` is the encoding of the longest beginning of the text that
-- `max` bytes hold, so no character is split, and it has at most `max` bytes.
pub truncate_bytes-encode :
    (t : String) (max : ℕ)
    → (truncate_bytes (encode t) max ≡ encode (fit max t))
      × (length (truncate_bytes (encode t) max) ≤ max)
truncate_bytes-encode t max =
    let cut : truncate_bytes (encode t) max ≡ encode (fit max t) =
      unfold truncate_bytes in
      elim (Bool-cases (leb (length (encode t)) max)) [
        | inl e ↦ rw e (ap encode (sym (fit_all t max (leb→le (length (encode t)) max e))))
        | inr e ↦ rw e (take-back_up t max (ground (arith, e)))
      ] in
    (cut, rw cut (length-encode-fit max t))
