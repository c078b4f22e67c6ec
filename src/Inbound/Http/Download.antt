-- ===== src/Inbound/Http/Download.antt =====
-- What a downloaded file is, and which failures of the calls are worth another try.
use stonesuite_notify.Base.{
  ℕ, zero, suc, ◌+◌, ◌≤◌, ◌≡◌, refl, sym, ap, ◌∙◌, ◌∷◌, inl, inr, String, false, ◌==◌, eq_iff,
  Option, none, some, List, [], take, length, length-take-le, leb, ltb, nat_eq, ok, Bool-cases,
  Option-cases, Result-cases, cut_suffix, cut_suffix-append, arith,
}
use stonesuite_notify.Base.Int.{ℤ, pos, negsuc}
use stonesuite_notify.Base.Text.{◌+++◌}
use stonesuite_notify.Inbound.Failure.{done, failed}
use stonesuite_notify.Inbound.Http.{
  Net, Url, Request, Response, Reply, response, no_reply, read_limited, read_full, read_file,
  read_all, read_declared, downloaded, requested, download, download_url_error,
  download_host_suffix,
}

read_limited-le : (n : ℕ) (r : Response) → length (read_limited n r).0 ≤ n
unfolding read_limited
read_limited-le n r = elim (Bool-cases (leb n (length r.sent))) [
  | inl e ↦ rw e (length-take-le n r.sent)
  | inr e ↦ rw e (ground (arith, e))
]

not_above : (a b : ℕ) → ltb a b ≡ false → b ≤ a
not_above a b h = ground arith

done-injective : (a b : List ℕ) → done a ≡ done b → a ≡ b
done-injective a b e = ap (λ r. elim r [ done x ↦ x | failed f ↦ a ]) e

module _ (net : Net) (max : ℕ) {got : List ℕ} where
  read_all-le : (p : List ℕ × Option String) → read_all net max p ≡ done got → length got ≤ max
  read_all-le (body, some e) h = cc
  read_all-le (body, none) h = elim (Bool-cases (ltb max (length body))) [
    | inl k ↦ cc (rw k at h)
    | inr k ↦
        let same : body ≡ got = done-injective body got (rw k at h) in
        rw (← same) (ground (arith, k))
  ]

  read_full-le :
      (n : ℕ) (r : Response) → read_declared net (read_full n r) ≡ done got → length got ≤ n
  unfolding read_full
  read_full-le n r h = elim (Bool-cases (leb n (length r.sent))) [
    | inl k ↦
        let same : take n r.sent ≡ got = done-injective _ got (rw k at h) in
        rw (← same) (length-take-le n r.sent)
    | inr k ↦ cc (rw k at h)
  ]

  read_file-le : (l : ℤ) (r : Response) → read_file net max l r ≡ done got → length got ≤ max
  read_file-le (pos zero) r h = read_all-le (read_limited (max + 1) r) h
  read_file-le (negsuc n) r h = read_all-le (read_limited (max + 1) r) h
  read_file-le (pos (suc n)) r h = elim (Bool-cases (ltb max (suc n))) [
    | inl k ↦ cc (rw k at h)
    | inr k ↦ omega (arith, read_full-le (suc n) r (rw k at h), not_above max (suc n) k)
  ]

  downloaded-le : (r : Reply) → downloaded net max r ≡ done got → length got ≤ max
  downloaded-le (no_reply e) h = cc
  downloaded-le (response r) h = elim (Bool-cases (nat_eq r.status 200)) [
    | inl k ↦ read_file-le r.content_length r (rw k at h)
    | inr k ↦ cc (rw k at h)
  ]

take-length {ℓ} : {A : Type ℓ} (xs : List A) → take (length xs) xs ≡ xs
take-length [] = refl
take-length (x ∷ xs) = ap (λ l. x ∷ l) (take-length xs)

read_limited-first : (n : ℕ) (r : Response) → (k : ℕ) × ((read_limited n r).0 ≡ take k r.sent)
unfolding read_limited
read_limited-first n r = elim (Bool-cases (leb n (length r.sent))) [
  | inl e ↦ (n, rw e refl)
  | inr e ↦ (length r.sent, rw e (sym (take-length r.sent)))
]

abbrev pub get_of : String → Request
get_of url = record { method = "GET"; url = url; headers = []; payload = [] }

-- The bytes are the first ones of the body of a response with status 200.
pub record IsReadFrom (got : List ℕ) (r : Reply) : Type 0 where
  pub answer : Response
  pub answers : r ≡ response answer
  pub is_ok : answer.status ≡ 200
  pub count : ℕ
  pub first : got ≡ take count answer.sent

module _ (net : Net) (max : ℕ) {got : List ℕ} where
  read_all-body : (p : List ℕ × Option String) → read_all net max p ≡ done got → got ≡ p.0
  read_all-body (body, some e) h = cc
  read_all-body (body, none) h = elim (Bool-cases (ltb max (length body))) [
    | inl k ↦ cc (rw k at h)
    | inr k ↦ sym (done-injective body got (rw k at h))
  ]

  read_all-first :
      (r : Response)
      → read_all net max (read_limited (max + 1) r) ≡ done got
      → (k : ℕ) × (got ≡ take k r.sent)
  read_all-first r h =
      let (k, e) = read_limited-first (max + 1) r in
      (k, read_all-body (read_limited (max + 1) r) h ∙ e)

  read_full-first :
      (n : ℕ) (r : Response) → read_declared net (read_full n r) ≡ done got → got ≡ take n r.sent
  unfolding read_full
  read_full-first n r h = elim (Bool-cases (leb n (length r.sent))) [
    | inl k ↦ sym (done-injective _ got (rw k at h))
    | inr k ↦ cc (rw k at h)
  ]

  read_file-first :
      (l : ℤ) (r : Response) → read_file net max l r ≡ done got → (k : ℕ) × (got ≡ take k r.sent)
  read_file-first (pos zero) r h = read_all-first r h
  read_file-first (negsuc n) r h = read_all-first r h
  read_file-first (pos (suc n)) r h = elim (Bool-cases (ltb max (suc n))) [
    | inl k ↦ cc (rw k at h)
    | inr k ↦ (suc n, read_full-first (suc n) r (rw k at h))
  ]

  downloaded-IsReadFrom : (r : Reply) → downloaded net max r ≡ done got → IsReadFrom got r
  downloaded-IsReadFrom (no_reply e) h = cc
  downloaded-IsReadFrom (response r) h = elim (Bool-cases (nat_eq r.status 200)) [
    | inr k ↦ cc (rw k at h)
    | inl k ↦
        let (n, e) = read_file-first r.content_length r (rw k at h) in
        record { answer = r; answers = refl; is_ok = ground (arith, k); count = n; first = e }
  ]

module _ (net : Net) where
  -- A link that was found good: https, and on a host of Resend's.
  pub record IsResendLink (url : String) : Type 0 where
    pub link : Url
    pub host : String
    pub parses : net.parse_url url ≡ ok link
    pub is_https : link.scheme ≡ "https"
    pub on_resend : net.to_lower link.hostname ≡ host +++ download_host_suffix

  checked_link :
      (url : String) (u : Url)
      → net.parse_url url ≡ ok u
      → download_url_error net.to_lower net.quote u ≡ none
      → IsResendLink url
  unfolding download_url_error
  checked_link url u e h = elim (Bool-cases (u.scheme == "https")) [
    | inr k ↦ cc (rw k at h)
    | inl k ↦ elim (Option-cases (cut_suffix (net.to_lower u.hostname) download_host_suffix)) [
      | inl c ↦ cc (rw (k, c) at h)
      | inr (host, c) ↦ record {
        link = u;
        host = host;
        parses = e;
        is_https = (eq_iff u.scheme "https").0 k;
        on_resend = cut_suffix-append (net.to_lower u.hostname) download_host_suffix c;
      }
    ]
  ]

  requested-le :
      (url : String) (max : ℕ) {got : List ℕ}
      → requested net url max (net.request_error "GET" url) ≡ done got
      → (length got ≤ max) × IsReadFrom got (net.send (get_of url))
  requested-le url max h = elim (Option-cases (net.request_error "GET" url)) [
    | inl k ↦ (
      downloaded-le net max (net.send (get_of url)) (rw k at h),
      downloaded-IsReadFrom net max (net.send (get_of url)) (rw k at h),
    )
    | inr (e, k) ↦ cc (rw k at h)
  ]

  -- A download succeeds only for a link that is https and on a host of Resend's. What it gives are
  -- the first bytes of the body of the HTTP client's answer to a GET of that link, which has status
  -- 200, and at most `max` of them, whatever length the answer declares. Nothing is said of where
  -- redirects lead the client.
  pub download-IsResendLink :
      (url : String) (max : ℕ) {got : List ℕ}
      → download net url max ≡ done got
      → IsResendLink url × (length got ≤ max) × IsReadFrom got (net.send (get_of url))
  unfolding download
  download-IsResendLink url max h = elim (Result-cases (net.parse_url url)) [
    | inr (e, k) ↦ cc (rw k at h)
    | inl (u, k) ↦ elim (Option-cases (download_url_error net.to_lower net.quote u)) [
      | inr (e, c) ↦ cc (rw (k, c) at h)
      | inl c ↦
          let (le, from) = requested-le url max (rw (k, c) at h) in
          (checked_link url u k c, le, from)
    ]
  ]
