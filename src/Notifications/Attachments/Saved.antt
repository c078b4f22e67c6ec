-- ===== src/Notifications/Attachments/Saved.antt =====
-- What is saved with a notification's email is read back.
use stonesuite_notify.Base.{
  ℕ, suc, ◌<◌, ◌≡◌, refl, sym, ap, ◌∙◌, inl, inr, String, true, false, not, ◌&&◌, ◌==◌, Option,
  none, some, List, [], ◌∷◌, ◌++◌, map, arith, Bool-cases, eq_refl, any, select, find, order_by,
  insert_by, find-upsert, set_or_new, Result, ok, err, ◌>>=◌, ok-injective,
}
use stonesuite_notify.Base.Json.{
  Fields, member, omit_empty, text_field, member-omit_empty_other, text_field-omit_empty,
}
use stonesuite_notify.Notifications.{NotificationRow}
use stonesuite_notify.Notifications.Attachments.{
  AttachmentFile, EmailOptions, AttachmentInput, AttachmentRow, FileRow, Files, encode_options,
  decode_options, is_attachment_of, is_file_of, attachment_row, replaced_attachment, file_rows,
  save_attachment, scan_file, load_attachment, get_attachment, scan_attachment,
}

-- The header overrides survive their JSON column, which leaves out the empty ones.
pub decode_options-encode_options : (o : EmailOptions) → decode_options (encode_options o) ≡ ok o
unfolding decode_options encode_options
decode_options-encode_options o =
    rw (reads_reply_to, reads_from_name, reads_in_reply_to, reads_references)
  where
    fields₄ : Fields
    fields₄ = omit_empty "references" o.references Fields.end

    fields₃ : Fields
    fields₃ = omit_empty "inReplyTo" o.in_reply_to fields₄

    fields₂ : Fields
    fields₂ = omit_empty "fromName" o.from_name fields₃

    fields₁ : Fields
    fields₁ = omit_empty "replyTo" o.reply_to fields₂

    skip :
        (k j v : String) (rest : Fields)
        → (j == k) ≡ false
        → text_field (member k (omit_empty j v rest)) ≡ text_field (member k rest)
    skip k j v rest h = ap text_field (member-omit_empty_other k j v rest h)

    reads_reply_to : text_field (member "replyTo" fields₁) ≡ ok o.reply_to
    reads_reply_to = text_field-omit_empty "replyTo" o.reply_to fields₂ (
        skip "replyTo" "fromName" o.from_name fields₃ refl
        ∙ skip "replyTo" "inReplyTo" o.in_reply_to fields₄ refl
        ∙ skip "replyTo" "references" o.references Fields.end refl
        ∙ nothing)
      where
        nothing : text_field (member "replyTo" Fields.end) ≡ ok ""
        nothing = unfold text_field in refl

    reads_from_name : text_field (member "fromName" fields₁) ≡ ok o.from_name
    reads_from_name =
        skip "fromName" "replyTo" o.reply_to fields₂ refl
        ∙ text_field-omit_empty "fromName" o.from_name fields₃ (
            skip "fromName" "inReplyTo" o.in_reply_to fields₄ refl
            ∙ skip "fromName" "references" o.references Fields.end refl
            ∙ unfold text_field in refl)

    reads_in_reply_to : text_field (member "inReplyTo" fields₁) ≡ ok o.in_reply_to
    reads_in_reply_to =
        skip "inReplyTo" "replyTo" o.reply_to fields₂ refl
        ∙ skip "inReplyTo" "fromName" o.from_name fields₃ refl
        ∙ text_field-omit_empty "inReplyTo" o.in_reply_to fields₄
            (skip "inReplyTo" "references" o.references Fields.end refl ∙ unfold text_field in refl)

    reads_references : text_field (member "references" fields₁) ≡ ok o.references
    reads_references =
        skip "references" "replyTo" o.reply_to fields₂ refl
        ∙ skip "references" "fromName" o.from_name fields₃ refl
        ∙ skip "references" "inReplyTo" o.in_reply_to fields₄ refl
        ∙ text_field-omit_empty "references" o.references Fields.end (unfold text_field in refl)

-- What is in the rows that the loop inserts, and in which order.
select-file_rows :
    (id : String) (i : ℕ) (fs : List AttachmentFile)
    → select (is_file_of id) (file_rows id i fs) ≡ file_rows id i fs
unfolding file_rows
select-file_rows id i [] = refl
select-file_rows id i (f ∷ fs) = rw (eq_refl id, select-file_rows id (suc i) fs)

abbrev place : FileRow → ℕ
place f = f.position

insert_by-file_rows :
    (id : String) (i : ℕ) (f : FileRow) (fs : List AttachmentFile)
    → f.position < i
    → insert_by place f (file_rows id i fs) ≡ f ∷ file_rows id i fs
unfolding file_rows
insert_by-file_rows id i f [] h = refl
insert_by-file_rows id i f (g ∷ gs) h = ground arith

order_by-file_rows :
    (id : String) (i : ℕ) (fs : List AttachmentFile)
    → order_by place (file_rows id i fs) ≡ file_rows id i fs
unfolding file_rows
order_by-file_rows id i [] = refl
order_by-file_rows id i (f ∷ fs) =
    rw (order_by-file_rows id (suc i) fs) (insert_by-file_rows id (suc i) _ fs (omega arith))

map-file_rows :
    (id : String) (i : ℕ) (fs : List AttachmentFile) → map scan_file (file_rows id i fs) ≡ fs
unfolding file_rows scan_file
map-file_rows id i [] = refl
map-file_rows id i (f ∷ fs) = ap (λ gs. f ∷ gs) (map-file_rows id (suc i) fs)

-- The rows of a notification whose earlier rows were deleted are those inserted since.
select-replaced :
    (id : String) (table new : List FileRow)
    → select (is_file_of id) (select (λ r. not (is_file_of id r)) table ++ new)
      ≡ select (is_file_of id) new
select-replaced id [] new = refl
select-replaced id (r ∷ table) new = elim (Bool-cases (is_file_of id r)) [
  | inl e ↦ rw e (select-replaced id table new)
  | inr e ↦ rw e (rw e (select-replaced id table new))
]

-- What `SaveAttachment` commits for a notification of a tenant, `GetAttachment` returns: the first
-- file, the further files in their order, the HTML and the header overrides, whatever was saved
-- before.
pub get_attachment-save_attachment :
    (t id : String) (a : AttachmentInput) (ns : List NotificationRow) (db db' : Files)
    → any (λ n. n.id == id && n.tenant_id == t) ns ≡ true
    → save_attachment none id a db ≡ ok db'
    → get_attachment true t id ns db' ≡ ok (some a)
unfolding save_attachment get_attachment load_attachment scan_file replaced_attachment
    attachment_row
get_attachment-save_attachment t id a ns db db' known h =
    rw (sym (ok-injective _ db' h), known)
      (ap (load_attachment id (ok_or db (save_attachment none id a db))) (
          find-upsert (is_attachment_of id) (replaced_attachment a) (attachment_row id a)
            (λ r. refl) db.attachments (eq_refl id))
        ∙ loads (find (is_attachment_of id) db.attachments))
  where
    ok_or : Files → Result Files → Files
    ok_or d (ok x) = x
    ok_or d (err _) = d

    read_files :
        map scan_file
          (order_by place (select (is_file_of id) (ok_or db (save_attachment none id a db)).files))
        ≡ a.more_files
    read_files =
        ap (λ rows. map scan_file (order_by place rows))
          (select-replaced id db.files (file_rows id 0 a.more_files)
            ∙ select-file_rows id 0 a.more_files)
        ∙ ap (map scan_file) (order_by-file_rows id 0 a.more_files)
        ∙ map-file_rows id 0 a.more_files

    load_row :
        (r : AttachmentRow)
        → attachment_row r.notification_id a ≡ r
        → load_attachment id (ok_or db (save_attachment none id a db)) (some r) ≡ ok (some a)
    load_row r same =
        ap (λ x. load_attachment id (ok_or db (save_attachment none id a db)) (some x)) (sym same)
        ∙ ap
            (λ o. o >>= λ options. ok (
              some (
                scan_attachment (attachment_row r.notification_id a)
                  (select (is_file_of id) (ok_or db (save_attachment none id a db)).files)
                  options)))
            (decode_options-encode_options a.email_options)
        ∙ ap (λ fs. ok (some (record a { more_files = fs }))) read_files

    loads :
        (o : Option AttachmentRow)
        → load_attachment id
            (ok_or db (save_attachment none id a db))
            (some (set_or_new (replaced_attachment a) (attachment_row id a) o))
          ≡ ok (some a)
    loads none = load_row (attachment_row id a) refl
    loads (some r) = load_row (replaced_attachment a r) refl
