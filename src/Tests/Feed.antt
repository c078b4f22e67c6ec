-- ===== src/Tests/Feed.antt =====
-- Tests of the notification feed and of the attachments: one user's two notifications.
use stonesuite_notify.Base.{
  ◌≤◌, ◌≡◌, refl, true, false, List, [], ◌∷◌, length, All, ok, err, none, some, Result,
}
use stonesuite_notify.Base.Int.{pos}
use stonesuite_notify.Notifications.{
  NotificationRow, Notification, scan_notification, non_nil_resources, max_page_size, in_feed,
  newer, list_for_user, count_for_user, unread_count, counts_as_unread, normalize_paging,
}
use stonesuite_notify.Notifications.Feed.{IsShown, list_for_user-IsShown}
use stonesuite_notify.Notifications.Attachments.{
  AttachmentInput, Files, no_options, save_attachment, get_attachment,
}
use stonesuite_notify.Notifications.Attachments.Saved.{get_attachment-save_attachment}

abbrev approved : NotificationRow
approved = record {
  id = "n1";
  tenant_id = "t1";
  recipient_user_id = some "u1";
  recipient_email = "";
  actor_user_id = none;
  event_type = "invoice.approved";
  resource = "invoice";
  resource_id = "i1";
  title = "Approved";
  body = "";
  link = "";
  status_link = "";
  status_resource = "";
  visible_in_app = true;
  read_at = none;
  created_at = 1;
}

abbrev table : List NotificationRow
table =
    approved
    ∷ record approved { id = "n2"; created_at = 2 }
    ∷ record approved { id = "n3"; tenant_id = "t2" }
    ∷ []

abbrev shown : List Notification
shown =
    scan_notification (record approved { id = "n2"; created_at = 2 })
    ∷ scan_notification approved
    ∷ []

lists_newest_first : list_for_user true "t1" "u1" none false (pos 0) (pos 0) table ≡ ok shown
unfolding list_for_user in_feed normalize_paging newer
lists_newest_first = refl

counts_two : count_for_user true "t1" "u1" none false table ≡ ok 2
unfolding count_for_user in_feed
counts_two = refl

two_unread : unread_count true "t1" "u1" none table ≡ ok 2
unfolding unread_count counts_as_unread
two_unread = refl

list_for_user-IsShown_example :
    All (IsShown "t1" "u1" (non_nil_resources none)) shown × (length shown ≤ max_page_size)
list_for_user-IsShown_example =
    list_for_user-IsShown "t1" "u1" none false (pos 0) (pos 0) table lists_newest_first

abbrev two_files : AttachmentInput
two_files = record {
  file_name = "a.pdf";
  content_type = "application/pdf";
  content = 37 ∷ 80 ∷ [];
  more_files = record { file_name = "b.txt"; content_type = "text/plain"; content = 104 ∷ [] } ∷ [];
  email_body_html = "<p>hello</p>";
  email_options = record no_options { reply_to = "r@example.com" };
}

abbrev saved : Result Files
saved = save_attachment none "n1" two_files (record { attachments = []; files = [] })

abbrev files_of : Result Files → Files
files_of (ok fs) = fs
files_of (err _) = record { attachments = []; files = [] }

is_saved : saved ≡ ok (files_of saved)
unfolding save_attachment
is_saved = refl

get_attachment-save_attachment_example :
    get_attachment true "t1" "n1" table (files_of saved) ≡ ok (some two_files)
get_attachment-save_attachment_example =
    get_attachment-save_attachment "t1" "n1" two_files table
      (record { attachments = []; files = [] }) (files_of saved) refl is_saved
