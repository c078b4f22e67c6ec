-- ===== src/Inbound/Http.antt =====
-- inbound/resend.go: the calls of Resend's API. The network, and what the standard library does with
-- URLs, JSON and keys, are parameters.
pub mod Backend
pub mod Download
pub mod Signed
use stonesuite_notify.Base.{
  ℕ, zero, suc, ◌+◌, ◌*◌, String, Bool, true, false, not, ◌&&◌, ◌||◌, ◌==◌, Option, none, some,
  List, [], ◌∷◌, ◌++◌, take, length, leb, ltb, nat_eq, if◌then◌else◌, Result, ok, err, cut_suffix,
}
use stonesuite_notify.Base.Int.{ℤ, pos, ltℤ}
use stonesuite_notify.Base.Text.{◌+++◌}
use stonesuite_notify.Base.Utf8.{encode}
use stonesuite_notify.Inbound.Failure.{
  Failure, Answer, done, failed, permanent, retryable, file_too_large, status_error,
}
use stonesuite_notify.Inbound.Mail.{Received, ReceivedAttachment, Mail}
use stonesuite_notify.Inbound.Process.{ForwardResult}

abbrev pub fetch_body_limit : ℕ
fetch_body_limit = 8 * 1024 * 1024

abbrev pub error_body_limit : ℕ
error_body_limit = 4 * 1024

abbrev pub resend_receiving_url : String
resend_receiving_url = "https://api.resend.com/emails/receiving/"

abbrev pub download_host_suffix : String
download_host_suffix = ".resend.com"

pub record Request : Type 0 where
  pub method : String
  pub url : String
  pub headers : List (String × String)
  pub payload : List ℕ

-- A response whose body is `sent`, and then ends, or breaks off with an error.
pub record Response : Type 0 where
  pub status : ℕ
  pub content_length : ℤ
  pub sent : List ℕ
  pub breaks : Option String

pub data Reply : Type 0 where
  response : Response → Reply
  no_reply : String → Reply

pub record Url : Type 0 where
  pub scheme : String
  pub hostname : String
  pub path : String

-- `unmarshal` gives the value that was filled in, and the error if there was one.
pub record Net : Type 0 where
  pub send : Request → Reply
  pub request_error : String → String → Option String
  pub parse_url : String → Result Url
  pub join_path : String → List String → Result String
  pub path_escape : String → String
  pub to_lower : String → String
  pub quote : String → String
  pub decimal : ℕ → String
  pub text_of : List ℕ → String
  pub mac_hex : String → List ℕ → String
  pub unmarshal_received : List ℕ → Received × Option String
  pub unmarshal_files : List ℕ → List ReceivedAttachment × Option String
  pub unmarshal_result : List ℕ → ForwardResult × Option String
  pub marshal_mail : Mail → Result (List ℕ)

abbrev pub transient : String → Failure
transient message = record { cause = retryable; message = message }

abbrev pub final : String → Failure
final message = record { cause = permanent; message = message }

-- io.ReadAll(io.LimitReader(body, n)): the bytes, and the error that ended them before the limit.
unfoldable pub read_limited : ℕ → Response → List ℕ × Option String
read_limited n r = if leb n (length r.sent) then (take n r.sent, none) else (r.sent, r.breaks)

-- What io.ReadFull reports of a body that is too short: the error that broke it off, or its end.
abbrev short_error : List ℕ → Option String → String
short_error sent (some e) = e
short_error [] none = "EOF"
short_error (b ∷ sent) none = "unexpected EOF"

-- io.ReadFull into a buffer of `n` bytes.
unfoldable pub read_full : ℕ → Response → Result (List ℕ)
read_full n r =
    if leb n (length r.sent) then ok (take n r.sent) else err (short_error r.sent r.breaks)

-- `defaultDownloadURLCheck`: the error, if the link is refused.
-- `quote` is `%q`.
unfoldable pub download_url_error : (String → String) → (String → String) → Url → Option String
download_url_error to_lower quote u =
    if not (u.scheme == "https")
    then some ("download link is not https (" +++ u.scheme +++ ")")
    else elim (cut_suffix (to_lower u.hostname) download_host_suffix) [
      | some host ↦ none
      | none ↦ some ("download link host " +++ quote u.hostname +++ " is not a .resend.com host")
    ]

module _ (net : Net) (api_key base_url : String) where
  abbrev base : String
  base = if base_url == "" then resend_receiving_url else base_url

  abbrev read_ok : String → List ℕ × Option String → Answer (List ℕ)
  read_ok what (body, none) = done body
  read_ok what (body, some e) = failed (transient ("read " +++ what +++ ": " +++ e))

  abbrev got : String → Reply → Answer (List ℕ)
  got what (no_reply e) = failed (transient (what +++ ": " +++ e))
  got what (response r) =
      if not (nat_eq r.status 200)
      then failed
          (status_error net.decimal what r.status (net.text_of (read_limited error_body_limit r).0))
      else read_ok what (read_limited fetch_body_limit r)

  abbrev request_to : String → Request
  request_to path = record {
    method = "GET";
    url = base +++ path;
    headers = ("Authorization", "Bearer " +++ api_key) ∷ [];
    payload = [];
  }

  abbrev sent_get : String → String → Option String → Answer (List ℕ)
  sent_get path what (some e) = failed (final ("build " +++ what +++ " request: " +++ e))
  sent_get path what none = got what (net.send (request_to path))

  unfoldable pub get : String → String → Answer (List ℕ)
  unfolding status_error read_limited
  get path what = sent_get path what (net.request_error "GET" (base +++ path))

  abbrev decoded {ℓ} : {A : Type ℓ} → String → A × Option String → Answer A
  decoded what (a, none) = done a
  decoded what (a, some e) = failed (final (what +++ ": " +++ e))

  abbrev fetched : String → Answer (List ℕ) → Answer Received
  fetched id (failed f) = failed f
  fetched id (done body) = decoded ("decode received email " +++ id) (net.unmarshal_received body)

  unfoldable pub fetch_mail : String → Answer Received
  unfolding get
  fetch_mail id = fetched id (get (net.path_escape id) ("resend receiving " +++ id))

  abbrev files_listed : String → Answer (List ℕ) → Answer (List ReceivedAttachment)
  files_listed id (failed f) = failed f
  files_listed id (done body) =
      decoded ("decode received attachments " +++ id) (net.unmarshal_files body)

  unfoldable pub list_files : String → Answer (List ReceivedAttachment)
  unfolding get
  list_files id =
      files_listed id
        (get (net.path_escape id +++ "/attachments") ("resend receiving attachments " +++ id))

module _ (net : Net) where
  abbrev pub read_all : ℕ → List ℕ × Option String → Answer (List ℕ)
  read_all max (body, some e) = failed (transient ("read received attachment: " +++ e))
  read_all max (body, none) =
      if ltb max (length body)
      then failed (record {
        cause = file_too_large;
        message = "received attachment is larger than the limit";
      })
      else done body

  abbrev pub read_declared : Result (List ℕ) → Answer (List ℕ)
  read_declared (ok body) = done body
  read_declared (err e) = failed (transient ("read received attachment: " +++ e))

  -- A length that is not declared is negative.
  abbrev pub read_file : ℕ → ℤ → Response → Answer (List ℕ)
  read_file max (pos (suc n)) r =
      if ltb max (suc n)
      then failed (record {
        cause = file_too_large;
        message = "received attachment is larger than the limit";
      })
      else read_declared (read_full (suc n) r)
  read_file max _ r = read_all max (read_limited (max + 1) r)

  abbrev pub downloaded : ℕ → Reply → Answer (List ℕ)
  downloaded max (no_reply e) = failed (transient ("download received attachment: " +++ e))
  downloaded max (response r) =
      if not (nat_eq r.status 200)
      then failed (
          status_error net.decimal "download received attachment" r.status
            (net.text_of (read_limited error_body_limit r).0))
      else read_file max r.content_length r

  abbrev pub requested : String → ℕ → Option String → Answer (List ℕ)
  requested url max (some e) = failed (final ("build download request: " +++ e))
  requested url max none =
      downloaded max (net.send (record { method = "GET"; url = url; headers = []; payload = [] }))

  abbrev pub checked : String → ℕ → Option String → Answer (List ℕ)
  checked url max (some e) = failed (final e)
  checked url max none = requested url max (net.request_error "GET" url)

  abbrev pub parsed_link : String → ℕ → Result Url → Answer (List ℕ)
  parsed_link url max (err e) = failed (final ("parse download link: " +++ e))
  parsed_link url max (ok u) = checked url max (download_url_error net.to_lower net.quote u)

  -- `Download`, with the default check of the link.
  unfoldable pub download : String → ℕ → Answer (List ℕ)
  unfolding download_url_error status_error read_limited read_full
  download url max = parsed_link url max (net.parse_url url)
