-- ===== src/Tests/Sign.antt =====
-- Webhook signatures at concrete inputs.
use Prim.Native.Char.{code}
use stonesuite_notify.Base.{
  nat_eq, if◌then◌else◌, ap, ℕ, zero, suc, ◌≡◌, ◌↔◌, refl, String, true, Option, some, List, [],
  ◌∷◌, length, HasNo, arith,
}
use stonesuite_notify.Base.Decimal.{parse_int64, parse_nat, parse_digits}
use stonesuite_notify.Base.Int.{pos}
use stonesuite_notify.Base.Text.{is_space, ◌+++◌}
use stonesuite_notify.Base.Utf8.{encode}
use stonesuite_notify.EmailEvents.Svix.{
  accepted, in_window, svix_key, svix_mac, signature_header, verify_signature, any_entry, cut_comma,
  unix_second, time_since,
}
use stonesuite_notify.EmailEvents.Svix.Window.{IsPassed, in_window_iff}
use stonesuite_notify.EmailEvents.Svix.Signs.{
  IsSigned, verify_signature-IsSigned, verify_signature-signature_header,
}

-- A webhook dated in the year 2970, read in 1970.
in_window_iff_example : (in_window 0 (pos 31556952000) ≡ true) ↔ IsPassed 0 31556952000
in_window_iff_example = in_window_iff 0 31556952000 (omega arith)

far_ahead_passes : in_window 0 (pos 31556952000) ≡ true
unfolding in_window unix_second time_since
far_ahead_passes = refl

-- An encoding of numbers in unary, in place of base64.
abbrev ones : ℕ → String → String
ones zero s = String.◌∷◌ "0" s
ones (suc n) s = String.◌∷◌ "1" (ones n s)

abbrev unary : List ℕ → String
unary [] = ""
unary (n ∷ l) = ones n (unary l)

abbrev one_more : List ℕ → List ℕ
one_more [] = []
one_more (n ∷ l) = suc n ∷ l

abbrev read_unary : String → List ℕ
read_unary String.[] = []
read_unary (String.◌∷◌ c s) =
    let rest = read_unary s in if nat_eq (code c) 49 then one_more rest else 0 ∷ rest

abbrev decode_unary : String → Option (List ℕ)
decode_unary s = some (read_unary s)

read-ones : (n : ℕ) (s : String) → read_unary (ones n s) ≡ n ∷ read_unary s
read-ones zero s = refl
read-ones (suc n) s = rw (read-ones n s) refl

read-unary : (l : List ℕ) → read_unary (unary l) ≡ l
read-unary [] = refl
read-unary (n ∷ l) = rw (read-ones n (unary l), read-unary l) refl

unary-HasNo : (l : List ℕ) → HasNo is_space (unary l)
unfolding is_space
unary-HasNo [] = tt
unary-HasNo (n ∷ l) = with_ones n (unary l) (unary-HasNo l)
  where
    with_ones : (n : ℕ) (s : String) → HasNo is_space s → HasNo is_space (ones n s)
    with_ones zero s h = (refl, h)
    with_ones (suc n) s h = (refl, with_ones n s h)

-- A signature that is the key and the number of bytes signed.
abbrev short_mac : List ℕ → List ℕ → List ℕ
short_mac key text = length text ∷ key

abbrev header_text : String
header_text = "v1," +++ unary (8 ∷ 1 ∷ [])

abbrev is_signed :
    signature_header short_mac decode_unary unary "whsec_10" "a" "1000" (5 ∷ []) ≡ some header_text
unfolding signature_header svix_key svix_mac encode
is_signed = refl

abbrev is_fresh : in_window 1000000000000 (pos 1000) ≡ true
unfolding in_window unix_second time_since
is_fresh = refl

abbrev is_number : parse_int64 "1000" ≡ some (pos 1000)
unfolding parse_int64 parse_nat parse_digits
is_number = refl

verify_signature-signature_header_example :
    verify_signature short_mac decode_unary "whsec_10" "a" "1000" header_text (5 ∷ []) 1000000000000
    ≡ accepted
verify_signature-signature_header_example =
    verify_signature-signature_header short_mac decode_unary unary "whsec_10" "a" "1000" (5 ∷ [])
      1000000000000 (λ b. ap some (read-unary b)) unary-HasNo refl is_number is_fresh is_signed

abbrev is_verified :
    verify_signature short_mac decode_unary "whsec_10" "a" "1000" "v1,11111111010"
      (5 ∷ [])
      1000000000000
    ≡ accepted
unfolding verify_signature svix_key svix_mac encode any_entry cut_comma parse_int64 parse_nat
    parse_digits in_window unix_second time_since is_space
is_verified = refl

verify_signature-IsSigned_example :
    IsSigned short_mac decode_unary "whsec_10" "a" "1000" "v1,11111111010" (5 ∷ []) 1000000000000
verify_signature-IsSigned_example =
    verify_signature-IsSigned short_mac decode_unary "whsec_10" "a" "1000" "v1,11111111010" (5 ∷ [])
      1000000000000 is_verified
