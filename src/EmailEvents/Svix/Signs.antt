-- ===== src/EmailEvents/Svix/Signs.antt =====
-- What a webhook that passed carried, and what the signer of a webhook produces.
use Prim.Native.Char.{Char}
use text.Mathlib.TextLemmas.{nil-append, cons-append}
use stonesuite_notify.Base.{
  ℕ, suc, ◌≡◌, refl, ap, ◌∙◌, inl, inr, String, Bool, true, false, ◌==◌, eq_iff, Option, none, some,
  List, [], ◌∷◌, nat_eq, nat_eq→eq, fields, pieces, HasNo, arith, Bool-cases, Option-cases, any,
  any-mem,
}
use mathlib.Core.List.{Memᴰ}
use stonesuite_notify.Base.Decimal.{parse_int64}
use stonesuite_notify.Base.Int.{ℤ}
use stonesuite_notify.Base.Text.{◌+++◌, is_space, rune_count}
use stonesuite_notify.EmailEvents.Svix.{
  accepted, in_window, bytes_equal, svix_key, svix_mac, signature_header, cut_comma, any_entry,
  entry_matches, verify_signature,
}

bytes_equal→eq : (a b : List ℕ) → bytes_equal a b ≡ true → a ≡ b
bytes_equal→eq [] [] h = refl
bytes_equal→eq [] (b ∷ t) h = cc
bytes_equal→eq (a ∷ s) [] h = cc
bytes_equal→eq (a ∷ s) (b ∷ t) h = elim (Bool-cases (nat_eq a b)) [
  | inr e ↦ cc (rw e at h)
  | inl e ↦ rw (nat_eq→eq a b e, bytes_equal→eq s t (rw e at h)) refl
]

bytes_equal_refl : (a : List ℕ) → bytes_equal a a ≡ true
bytes_equal_refl [] = refl
bytes_equal_refl (a ∷ s) = ground (arith, bytes_equal_refl s)

module _ (mac : List ℕ → List ℕ → List ℕ) (decode64 : String → Option (List ℕ)) where
  -- What has to be there for a webhook to pass.
  pub record IsSigned (secret msg_id timestamp signatures : String) (body : List ℕ) (now : ℕ)
      : Type 0 where
    pub key : List ℕ
    pub seconds : ℤ
    pub entry : String
    pub encoded : String
    pub has_key : svix_key mac decode64 secret ≡ some key
    pub has_id : (msg_id == "") ≡ false
    pub has_time : parse_int64 timestamp ≡ some seconds
    pub is_now : in_window now seconds ≡ true
    pub has_entry : Memᴰ entry (fields is_space signatures)
    pub of_version : cut_comma entry ≡ some ("v1", encoded)
    pub signs : decode64 encoded ≡ some (svix_mac mac decode64 key msg_id timestamp body)

  any_entry-any :
      (want : List ℕ) (l : List String)
      → any_entry mac decode64 want l ≡ accepted
      → any (λ c. entry_matches mac decode64 want (cut_comma c)) l ≡ true
  unfolding any_entry
  any_entry-any want [] h = cc
  any_entry-any want (c ∷ l) h = elim (Bool-cases (entry_matches mac decode64 want (cut_comma c))) [
    | inl e ↦ rw e refl
    | inr e ↦ rw e (any_entry-any want l (rw e at h))
  ]

  entry_matches-of :
      (want : List ℕ) (o : Option (String × String))
      → entry_matches mac decode64 want o ≡ true
      → (encoded : String) × (o ≡ some ("v1", encoded)) × (decode64 encoded ≡ some want)
  entry_matches-of want none h = cc
  entry_matches-of want (some (version, encoded)) h = elim (Bool-cases (version == "v1")) [
    | inr e ↦ cc (rw e at h)
    | inl e ↦ elim (Option-cases (decode64 encoded)) [
      | inl k ↦ cc (rw (e, k) at h)
      | inr (got, k) ↦ (
        encoded,
        rw ((eq_iff version "v1").0 e) refl,
        k ∙ ap some (bytes_equal→eq got want (rw (e, k) at h)),
      )
    ]
  ]

  -- A webhook that passes has an id and a timestamp that is near enough, and one of the entries of
  -- its header is the version and the encoded signature, made with the secret's key, of this id,
  -- this timestamp and this body.
  pub verify_signature-IsSigned :
      (secret msg_id timestamp signatures : String) (body : List ℕ) (now : ℕ)
      → verify_signature mac decode64 secret msg_id timestamp signatures body now ≡ accepted
      → IsSigned secret msg_id timestamp signatures body now
  unfolding verify_signature
  verify_signature-IsSigned secret msg_id timestamp signatures body now h =
      elim (Option-cases (svix_key mac decode64 secret)) [
        | inl k ↦ cc (rw k at h)
        | inr (key, k) ↦ elim (Bool-cases (msg_id == "")) [
          | inl e ↦ cc (rw (k, e) at h)
          | inr e ↦ elim (Option-cases (parse_int64 timestamp)) [
            | inl p ↦ cc (rw (k, e, p) at h)
            | inr (seconds, p) ↦ elim (Bool-cases (in_window now seconds)) [
              | inr w ↦ cc (rw (k, e, p, w) at h)
              | inl w ↦
                  let want = svix_mac mac decode64 key msg_id timestamp body in
                  let (entry, member, hit) =
                    any-mem (λ c. entry_matches mac decode64 want (cut_comma c))
                      (fields is_space signatures)
                      (any_entry-any want (fields is_space signatures) (rw (k, e, p, w) at h)) in
                  let (encoded, of_version, signs) = entry_matches-of want (cut_comma entry) hit in
                  record {
                    key = key;
                    seconds = seconds;
                    entry = entry;
                    encoded = encoded;
                    has_key = k;
                    has_id = e;
                    has_time = p;
                    is_now = w;
                    has_entry = member;
                    of_version = of_version;
                    signs = signs;
                  }
            ]
          ]
        ]
      ]

pieces_whole : (sep : Char → Bool) (s : String) → HasNo sep s → pieces sep s ≡ (s, [])
pieces_whole sep String.[] h = refl
pieces_whole sep (String.◌∷◌ c s) h = rw (pieces_whole sep s h.1, h.0) refl

cons-nonempty : (c : Char) (s : String) → (String.◌∷◌ c s == "") ≡ false
cons-nonempty c s = elim (Bool-cases (String.◌∷◌ c s == "")) [
  | inr e ↦ e
  | inl e ↦ absurd (
      let none_left : suc (rune_count s) ≡ 0 = ap rune_count ((eq_iff (String.◌∷◌ c s) "").0 e) in
      omega (arith, none_left))
]

fields_whole :
    (sep : Char → Bool) (c : Char) (s : String)
    → HasNo sep (String.◌∷◌ c s)
    → fields sep (String.◌∷◌ c s) ≡ String.◌∷◌ c s ∷ []
fields_whole sep c s h = rw (pieces_whole sep s h.1, h.0, cons-nonempty c s) refl

v1_text : (s : String) → "v1," +++ s ≡ String.◌∷◌ "v" (String.◌∷◌ "1" (String.◌∷◌ "," s))
v1_text s =
    cons-append "v" "1," s
    ∙ ap (String.◌∷◌ "v") (
        cons-append "1" "," s
        ∙ ap (String.◌∷◌ "1") (cons-append "," "" s ∙ ap (String.◌∷◌ ",") (nil-append s)))

cut_comma-v1 : (s : String) → cut_comma ("v1," +++ s) ≡ some ("v1", s)
unfolding cut_comma
cut_comma-v1 s = rw (v1_text s) refl

fields-v1 : (s : String) → HasNo is_space s → fields is_space ("v1," +++ s) ≡ ("v1," +++ s) ∷ []
unfolding is_space
fields-v1 s h =
    rw (v1_text s)
      (fields_whole is_space "v" (String.◌∷◌ "1" (String.◌∷◌ "," s)) (refl, (refl, (refl, h))))

module _ (mac : List ℕ → List ℕ → List ℕ) (decode64 : String → Option (List ℕ)) where
  any_entry-v1 :
      (want : List ℕ) (encoded : String)
      → decode64 encoded ≡ some want
      → any_entry mac decode64 want (("v1," +++ encoded) ∷ []) ≡ accepted
  unfolding any_entry
  any_entry-v1 want encoded h = rw (cut_comma-v1 encoded, h, bytes_equal_refl want) refl

  -- What `SignatureHeader` signs, `VerifySignature` accepts under the same secret, if the id is not
  -- empty and the timestamp is a number near enough to now, for a base64 whose decoding undoes its
  -- encoding, and which writes no white space.
  pub verify_signature-signature_header :
      (encode64 : List ℕ → String) (secret msg_id timestamp : String) (body : List ℕ) (now : ℕ)
      {seconds : ℤ} {header : String}
      → ((b : List ℕ) → decode64 (encode64 b) ≡ some b)
      → ((b : List ℕ) → HasNo is_space (encode64 b))
      → (msg_id == "") ≡ false
      → parse_int64 timestamp ≡ some seconds
      → in_window now seconds ≡ true
      → signature_header mac decode64 encode64 secret msg_id timestamp body ≡ some header
      → verify_signature mac decode64 secret msg_id timestamp header body now ≡ accepted
  unfolding verify_signature signature_header
  verify_signature-signature_header encode64 secret msg_id timestamp body now {seconds} {header}
        round no_space has_id has_time is_now h =
      elim (Option-cases (svix_key mac decode64 secret)) [
        | inl k ↦ cc (rw k at h)
        | inr (key, k) ↦
            let want = svix_mac mac decode64 key msg_id timestamp body in
            let same : "v1," +++ encode64 want ≡ header = some_text (rw k at h) in
            rw (k, has_id, has_time, is_now)
              (rw (← same) (
                rw (fields-v1 (encode64 want) (no_space want))
                  (any_entry-v1 want (encode64 want) (round want))))
      ]
    where
      some_text : {a b : String} → some a ≡ some b → a ≡ b
      some_text {a} e = ap (λ o. elim o [ none ↦ a | some x ↦ x ]) e
