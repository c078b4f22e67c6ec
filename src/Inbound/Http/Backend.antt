-- ===== src/Inbound/Http/Backend.antt =====
-- inbound/forward.go: the signed calls of the backend.
use stonesuite_notify.Base.{
  ℕ, ◌*◌, String, ◌&&◌, ◌==◌, Option, none, some, List, [], ◌∷◌, ◌++◌, leb, ltb, if◌then◌else◌,
  Result, ok, err,
}
use stonesuite_notify.Base.Text.{◌+++◌}
use stonesuite_notify.Base.Utf8.{encode}
use stonesuite_notify.Inbound.Failure.{Answer, done, failed, status_error}
use stonesuite_notify.Inbound.Mail.{Mail}
use stonesuite_notify.Inbound.Process.{ForwardResult}
use stonesuite_notify.Inbound.Http.{
  Request, Reply, response, no_reply, Url, Net, transient, final, read_limited,
}

abbrev pub response_body_limit : ℕ
response_body_limit = 64 * 1024

abbrev pub backend_inbound_path : String
backend_inbound_path = "/api/internal/email/inbound"

-- What `sign` feeds to the HMAC.
unfoldable pub signed_text : String → String → String → List ℕ → List ℕ
signed_text method path ts body =
    encode method ++ 0x20 ∷ (encode path ++ 0x0a ∷ (encode ts ++ 0x0a ∷ body))

-- `ts` is the time of the call, in seconds, as it is printed.
module _ (net : Net) (backend_url secret ts : String) where
  unfoldable pub sign : String → String → List ℕ → String
  unfolding signed_text
  sign method path body = net.mac_hex secret (signed_text method path ts body)

  abbrev done_by : String → Reply → Answer (List ℕ)
  done_by what (no_reply e) = failed (transient (what +++ ": " +++ e))
  done_by what (response r) =
      let body = (read_limited response_body_limit r).0 in
      if leb 200 r.status && ltb r.status 300
      then done body
      else failed (status_error net.decimal what r.status (net.text_of body))

  abbrev pub signed_request : String → String → String → List ℕ → Url → Request
  signed_request method endpoint content_type payload u = record {
    method = method;
    url = endpoint;
    headers =
        ("Content-Type", content_type)
        ∷ ("X-Automation-Timestamp", ts)
        ∷ ("X-Automation-Signature", sign method u.path payload)
        ∷ [];
    payload = payload;
  }

  abbrev do_built :
      String → String → String → List ℕ → String → Url → Option String → Answer (List ℕ)
  do_built method endpoint content_type payload what u (some e) =
      failed (final ("build " +++ what +++ " request: " +++ e))
  do_built method endpoint content_type payload what u none =
      done_by what (net.send (signed_request method endpoint content_type payload u))

  abbrev do_parsed : String → String → String → List ℕ → String → Result Url → Answer (List ℕ)
  do_parsed method endpoint content_type payload what (err e) =
      failed (final ("parse " +++ what +++ " url: " +++ e))
  do_parsed method endpoint content_type payload what (ok u) =
      do_built method endpoint content_type payload what u (net.request_error method endpoint)

  unfoldable pub do_call : String → String → String → List ℕ → String → Answer (List ℕ)
  unfolding sign status_error read_limited
  do_call method endpoint content_type payload what =
      do_parsed method endpoint content_type payload what (net.parse_url endpoint)

  abbrev forwarded_as : Answer (List ℕ) → Answer ForwardResult
  forwarded_as (failed f) = failed f
  forwarded_as (done body) = done (net.unmarshal_result body).0

  abbrev forward_payload : String → Result (List ℕ) → Answer ForwardResult
  forward_payload endpoint (err e) = failed (final ("encode forwarded mail: " +++ e))
  forward_payload endpoint (ok payload) =
      forwarded_as (do_call "POST" endpoint "application/json" payload "backend inbound")

  abbrev forward_to : Mail → Result String → Answer ForwardResult
  forward_to m (err e) = failed (final ("build backend inbound url: " +++ e))
  forward_to m (ok endpoint) = forward_payload endpoint (net.marshal_mail m)

  -- `Forward`: an answer that cannot be decoded is as good as one that asks for no files.
  unfoldable pub forward_mail : Mail → Answer ForwardResult
  unfolding do_call
  forward_mail m = forward_to m (net.join_path backend_url (backend_inbound_path ∷ []))

  abbrev uploaded : Answer (List ℕ) → Answer (Unit {0})
  uploaded (failed f) = failed f
  uploaded (done body) = done tt

  abbrev upload_to : String → List ℕ → Result String → Answer (Unit {0})
  upload_to content_type content (err e) = failed (final ("build backend attachment url: " +++ e))
  upload_to content_type content (ok endpoint) = uploaded (
      do_call "PUT" endpoint
        (if content_type == "" then "application/octet-stream" else content_type) content
        "backend inbound attachment")

  unfoldable pub upload_attachment : String → String → String → List ℕ → Answer (Unit {0})
  unfolding do_call
  upload_attachment ref attachment_id content_type content = upload_to content_type content (
      net.join_path backend_url (
        backend_inbound_path
        ∷ net.path_escape ref
        ∷ "attachments"
        ∷ net.path_escape attachment_id
        ∷ []))
