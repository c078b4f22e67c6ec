-- ===== src/Controllers/Create/Checks.antt =====
-- What a request that is accepted cannot carry.
use stonesuite_notify.Base.{
  ℕ, suc, ◌+◌, ◌≤◌, ◌≡◌, ◌≢◌, refl, ap, inl, inr, ◌⊎◌, String, Bool, false, ◌&&◌, ◌||◌, ◌==◌,
  nat_eq, eq_iff, none, some, List, [], ◌∷◌, total, length, ltb, ok, ok-injective, >>=-ok,
  Bool-cases, Option-cases, arith,
}
use mathlib.Core.Path.{subst}
use Prim.Native.Char.{code}
use stonesuite_notify.Base.Text.{trim_space, rune_count}
use stonesuite_notify.Notifications.Attachments.{AttachmentInput, AttachmentFile, EmailOptions}
use stonesuite_notify.Controllers.Create.{
  CreateRequest, WireFile, Std, has_line_break, check_limit, check_reply_to, email_options,
  max_email_reply_to_chars, max_email_from_name_chars, max_email_message_id_chars,
  max_email_references_chars, max_email_attachment_bytes, max_email_attachments, decode_files,
  attachment_of, build_attachment, is_zero, no_files,
}

-- No character of a text is a line feed or a carriage return.
abbrev pub IsOneLine : String → Type 0
IsOneLine String.[] = Unit
IsOneLine (String.◌∷◌ c s) = (code c ≢ 10) × (code c ≢ 13) × IsOneLine s

-- A text that can stand in a header: in one line, and no longer than `max`.
pub record IsHeader (s : String) (max : ℕ) : Type 0 where
  pub one_line : IsOneLine s
  pub short : rune_count s ≤ max

has_line_break-IsOneLine : (s : String) → has_line_break s ≡ false → IsOneLine s
unfolding has_line_break
has_line_break-IsOneLine String.[] h = tt
has_line_break-IsOneLine (String.◌∷◌ c s) h =
    let (cr, lf, rest) = none_of (nat_eq (code c) 13) (nat_eq (code c) 10) (has_line_break s) h in
    (is_not (code c) 10 lf, is_not (code c) 13 cr, has_line_break-IsOneLine s rest)
  where
    none_of : (a b d : Bool) → (a || b || d) ≡ false → (a ≡ false) × (b ≡ false) × (d ≡ false)
    none_of a b d k = ground (arith, k)

    is_not : (n m : ℕ) → nat_eq n m ≡ false → n ≢ m
    is_not n m k e = ground (arith, k, e)

check_limit-IsHeader :
    (name value : String) (max : ℕ) {u : Unit {0}}
    → check_limit name value max ≡ ok u
    → IsHeader value max
unfolding check_limit
check_limit-IsHeader name value max h = elim (Bool-cases (has_line_break value)) [
  | inl e ↦ cc (rw e at h)
  | inr e ↦ elim (Bool-cases (ltb max (rune_count value))) [
    | inl k ↦ cc (rw (e, k) at h)
    | inr k ↦ record { one_line = has_line_break-IsOneLine value e; short = ground (arith, k) }
  ]
]

module _ (std : Std) where
  pub record IsSafe (o : EmailOptions) : Type 0 where
    pub reply_to : IsHeader o.reply_to max_email_reply_to_chars
    pub from_name : IsHeader o.from_name max_email_from_name_chars
    pub in_reply_to : IsHeader o.in_reply_to max_email_message_id_chars
    pub references : IsHeader o.references max_email_references_chars
    pub is_address : (o.reply_to ≡ "") ⊎ ((a : String) × (std.parse_address o.reply_to ≡ some a))

  check_reply_to-ok :
      (o o' : EmailOptions)
      → check_reply_to std o ≡ ok o'
      → (o ≡ o') × ((o.reply_to ≡ "") ⊎ ((a : String) × (std.parse_address o.reply_to ≡ some a)))
  unfolding check_reply_to
  check_reply_to-ok o o' h = elim (Bool-cases (o.reply_to == "")) [
    | inl e ↦ (opts-injective o o' (rw e at h), inl ((eq_iff o.reply_to "").0 e))
    | inr e ↦ elim (Option-cases (std.parse_address o.reply_to)) [
      | inl k ↦ cc (rw (e, k) at h)
      | inr (a, k) ↦ (opts-injective o o' (rw (e, k) at h), inr (a, k))
    ]
  ]
    where
      opts-injective : (a b : EmailOptions) → ok a ≡ ok b → a ≡ b
      opts-injective a b e = ok-injective a b e

  -- The header values of a request that passed the check contain no line feed and no carriage
  -- return, so that they cannot add headers, are within their limits, and the address to reply to, if any, can be parsed.
  pub email_options-IsSafe :
      (r : CreateRequest) {o : EmailOptions} → email_options std r ≡ ok o → IsSafe o
  unfolding email_options
  email_options-IsSafe r {o} h =
      let opts : EmailOptions = record {
        reply_to = trim_space r.email_reply_to;
        from_name = trim_space r.email_from_name;
        in_reply_to = trim_space r.email_in_reply_to;
        references = trim_space r.email_references;
      } in
      let (u1, a, h1) =
        >>=-ok (check_limit "emailReplyTo" opts.reply_to max_email_reply_to_chars) _ h in
      let (u2, b, h2) =
        >>=-ok (check_limit "emailFromName" opts.from_name max_email_from_name_chars) _ h1 in
      let (u3, c, h3) =
        >>=-ok (check_limit "emailInReplyTo" opts.in_reply_to max_email_message_id_chars) _ h2 in
      let (u4, d, h4) =
        >>=-ok (check_limit "emailReferences" opts.references max_email_references_chars) _ h3 in
      let (same, address) = check_reply_to-ok opts o h4 in
      subst IsSafe same (record {
        reply_to = check_limit-IsHeader "emailReplyTo" opts.reply_to _ a;
        from_name = check_limit-IsHeader "emailFromName" opts.from_name _ b;
        in_reply_to = check_limit-IsHeader "emailInReplyTo" opts.in_reply_to _ c;
        references = check_limit-IsHeader "emailReferences" opts.references _ d;
        is_address = address;
      })

abbrev pub file_bytes : List AttachmentFile → ℕ
file_bytes = total (λ f. length f.content)

-- The bytes of all the files of an attachment.
abbrev pub bytes_of : AttachmentInput → ℕ
bytes_of a = length a.content + file_bytes a.more_files

attachment_of-bytes :
    (std : Std) (html : String) (o : EmailOptions) (fs : List AttachmentFile)
    → (bytes_of (attachment_of std html o fs) ≡ file_bytes fs)
      × (length (attachment_of std html o fs).more_files ≤ length fs)
      × ((n : ℕ) → length fs ≤ suc n → length (attachment_of std html o fs).more_files ≤ n)
unfolding attachment_of
attachment_of-bytes std html o [] = (refl, omega arith, λ n h. omega arith)
attachment_of-bytes std html o (f ∷ fs) = (refl, omega arith, λ n h. omega (arith, h))

module _ (std : Std) where
  decode_files-le :
      (i t : ℕ) (as' : List WireFile) {fs : List AttachmentFile}
      → t ≤ max_email_attachment_bytes
      → decode_files std i t as' ≡ ok fs
      → (t + file_bytes fs ≤ max_email_attachment_bytes) × (length fs ≡ length as')
  unfolding decode_files
  decode_files-le i t [] {fs} h k =
      subst (λ l. (t + file_bytes l ≤ max_email_attachment_bytes) × (length l ≡ 0))
        (ok-injective [] fs k) (omega (arith, h), refl)
  decode_files-le i t (a ∷ rest) {fs} h k = elim (Option-cases (std.decode64 a.content_base64)) [
    | inl e ↦ cc (rw e at k)
    | inr (content, e) ↦ elim (Bool-cases (ltb max_email_attachment_bytes (t + length content))) [
      | inl over ↦ cc (rw (e, over) at k)
      | inr fits ↦
          let mine : AttachmentFile = record {
            file_name = a.file_name;
            content_type = a.content_type;
            content = content;
          } in
          let (later, d, last) =
            >>=-ok (decode_files std (suc i) (t + length content) rest) (λ files. ok (mine ∷ files))
              (rw (e, fits) at k) in
          let below : t + length content ≤ max_email_attachment_bytes = ground (arith, fits) in
          let (le, len) = decode_files-le (suc i) (t + length content) rest below d in
          subst
            (λ l. (t + file_bytes l ≤ max_email_attachment_bytes) × (length l ≡ suc (length rest)))
            (ok-injective (mine ∷ later) fs last) (omega (arith, le), ap suc len)
    ]
  ]

  -- The files of a request that passed the check are at most 5, one of them in the attachment
  -- itself, and together at most 25 MB once decoded.
  pub build_attachment-le :
      (r : CreateRequest) (o : EmailOptions) {a : AttachmentInput}
      → build_attachment std r o ≡ ok (some a)
      → (bytes_of a ≤ max_email_attachment_bytes) × (length a.more_files ≤ 4)
  unfolding build_attachment
  build_attachment-le r o {a} h =
      elim (Bool-cases (no_files std r.attachments && r.email_body_html == "" && is_zero std o)) [
        | inl e ↦ cc (rw e at h)
        | inr e ↦ elim (Bool-cases (ltb max_email_attachments (length r.attachments))) [
          | inl many ↦ cc (rw (e, many) at h)
          | inr few ↦
              let (fs, d, last) =
                >>=-ok (decode_files std 0 0 r.attachments)
                  (λ decoded. ok (some (attachment_of std r.email_body_html o decoded)))
                  (rw (e, few) at h) in
              let (le, len) = decode_files-le 0 0 r.attachments (omega arith) d in
              let (bytes, count, count') = attachment_of-bytes std r.email_body_html o fs in
              let at_most : length fs ≤ 5 = ground (arith, few, len) in
              let same : attachment_of std r.email_body_html o fs ≡ a =
                some_eq (ok-injective _ _ last) in
              subst (λ x. (bytes_of x ≤ max_email_attachment_bytes) × (length x.more_files ≤ 4))
                same (omega (arith, bytes, le), count' 4 at_most)
        ]
      ]
    where
      some_eq : {x y : AttachmentInput} → some x ≡ some y → x ≡ y
      some_eq {x} e = ap (λ o. elim o [ none ↦ x | some z ↦ z ]) e
