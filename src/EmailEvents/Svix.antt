-- ===== src/EmailEvents/Svix.antt =====
-- emailevents/svix.go: the signature of a webhook. The HMAC and base64 are parameters.
pub mod Window
pub mod Signs
use Prim.Native.Char.{Char, code}
use stonesuite_notify.Base.{
  ℕ, ◌+◌, ◌-◌, ◌*◌, ◌^◌, String, Bool, true, false, not, ◌&&◌, ◌||◌, ◌==◌, Option, none, some, List,
  [], ◌∷◌, ◌++◌, nat_eq, ltb, leb, if◌then◌else◌, fields,
}
use stonesuite_notify.Base.Int.{ℤ, pos, negsuc, ltℤ}
use stonesuite_notify.Base.Text.{◌+++◌, between, is_space}
use stonesuite_notify.Base.Decimal.{parse_int64}
use stonesuite_notify.Base.Utf8.{encode}

-- Five minutes, in nanoseconds.
abbrev pub timestamp_tolerance : ℕ
timestamp_tolerance = 300000000000

abbrev pub second : ℕ
second = 1000000000

pub data Verdict : Type 0 where
  accepted bad_secret invalid_signature : Verdict

-- strings.TrimPrefix of "whsec_", and strings.Cut at the first ",".
abbrev drop_prefix : String → String → String → String
drop_prefix String.[] rest whole = rest
drop_prefix (String.◌∷◌ c p) String.[] whole = whole
drop_prefix (String.◌∷◌ c p) (String.◌∷◌ d s) whole =
    let rest = drop_prefix p s whole in if nat_eq (code c) (code d) then rest else whole

abbrev pub trim_prefix : String → String → String
trim_prefix prefix s = drop_prefix prefix s s

abbrev behind : Char → Option (String × String) → Option (String × String)
behind c none = none
behind c (some (before, after)) = some (String.◌∷◌ c before, after)

unfoldable pub cut_comma : String → Option (String × String)
cut_comma String.[] = none
cut_comma (String.◌∷◌ c s) =
    let rest = cut_comma s in if nat_eq (code c) 44 then some ("", s) else behind c rest

-- time.Unix(seconds, 0): a Time counts seconds from the year 1 in an int64, which wraps.
unfoldable pub unix_second : ℤ → ℤ
unix_second (pos s) = if ltb (s + 62135596800) (2 ^ 63) then pos s else negsuc (2 ^ 64 - 1 - s)
unix_second (negsuc s) = negsuc s

abbrev no_longer : ℕ → ℤ
no_longer d = if ltb d (2 ^ 63) then pos d else pos (2 ^ 63 - 1)

abbrev no_shorter : ℕ → ℤ
no_shorter d = if leb d (2 ^ 63) then negsuc (d - 1) else negsuc (2 ^ 63 - 1)

-- now.Sub(t): a Duration is an int64 of nanoseconds, and a longer one is the longest there is.
unfoldable pub time_since : ℕ → ℤ → ℤ
time_since now (pos s) =
    if leb (s * second) now then no_longer (now - s * second) else no_shorter (s * second - now)
time_since now (negsuc s) = no_longer (now + (s + 1) * second)

-- `if skew < 0 { skew = -skew }`, where the least int64 is its own negation.
abbrev pub absolute : ℤ → ℤ
absolute (pos n) = pos n
absolute (negsuc n) = if nat_eq n (2 ^ 63 - 1) then negsuc n else pos (n + 1)

-- Whether the timestamp passes; `now` is in nanoseconds since 1970.
unfoldable pub in_window : ℕ → ℤ → Bool
unfolding unix_second time_since
in_window now seconds =
    not (ltℤ (pos timestamp_tolerance) (absolute (time_since now (unix_second seconds))))

abbrev pub bytes_equal : List ℕ → List ℕ → Bool
bytes_equal [] [] = true
bytes_equal [] (b ∷ t) = false
bytes_equal (a ∷ s) [] = false
bytes_equal (a ∷ s) (b ∷ t) = nat_eq a b && bytes_equal s t

module _ (mac : List ℕ → List ℕ → List ℕ) (decode64 : String → Option (List ℕ)) where
  abbrev key_of : Option (List ℕ) → Option (List ℕ)
  key_of none = none
  key_of (some []) = none
  key_of (some (b ∷ key)) = some (b ∷ key)

  -- none is ErrBadSecret
  unfoldable pub svix_key : String → Option (List ℕ)
  svix_key secret = key_of (decode64 (trim_prefix "whsec_" secret))

  unfoldable pub svix_mac : List ℕ → String → String → List ℕ → List ℕ
  svix_mac key msg_id timestamp body =
      mac key (encode (msg_id +++ "." +++ timestamp +++ ".") ++ body)

  abbrev header_of : (List ℕ → String) → String → String → List ℕ → Option (List ℕ) → Option String
  header_of encode64 msg_id timestamp body none = none
  header_of encode64 msg_id timestamp body (some key) =
      some ("v1," +++ encode64 (svix_mac key msg_id timestamp body))

  unfoldable pub signature_header :
      (List ℕ → String) → String → String → String → List ℕ → Option String
  unfolding svix_key svix_mac
  signature_header encode64 secret msg_id timestamp body =
      header_of encode64 msg_id timestamp body (svix_key secret)

  abbrev pub decodes_to : List ℕ → Option (List ℕ) → Bool
  decodes_to want none = false
  decodes_to want (some got) = bytes_equal got want

  abbrev pub entry_matches : List ℕ → Option (String × String) → Bool
  entry_matches want none = false
  entry_matches want (some (version, encoded)) =
      version == "v1" && decodes_to want (decode64 encoded)

  -- The loop over the entries of the header.
  unfoldable pub any_entry : List ℕ → List String → Verdict
  unfolding cut_comma
  any_entry want [] = invalid_signature
  any_entry want (candidate ∷ rest) =
      let later = any_entry want rest in
      if entry_matches want (cut_comma candidate) then accepted else later

  abbrev pub verify_at : ℕ → List ℕ → String → String → String → List ℕ → Option ℤ → Verdict
  verify_at now key msg_id timestamp signatures body none = invalid_signature
  verify_at now key msg_id timestamp signatures body (some seconds) =
      if not (in_window now seconds)
      then invalid_signature
      else any_entry (svix_mac key msg_id timestamp body) (fields is_space signatures)

  abbrev pub verify_with : ℕ → String → String → String → List ℕ → Option (List ℕ) → Verdict
  verify_with now msg_id timestamp signatures body none = bad_secret
  verify_with now msg_id timestamp signatures body (some key) =
      if msg_id == ""
      then invalid_signature
      else verify_at now key msg_id timestamp signatures body (parse_int64 timestamp)

  unfoldable pub verify_signature : String → String → String → String → List ℕ → ℕ → Verdict
  unfolding svix_key svix_mac in_window any_entry parse_int64
  verify_signature secret msg_id timestamp signatures body now =
      verify_with now msg_id timestamp signatures body (svix_key secret)
