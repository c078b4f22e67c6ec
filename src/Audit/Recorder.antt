-- ===== src/Audit/Recorder.antt =====
-- audit/recorder.go: entries that are written in the background, and the wait for them.
pub mod Flushed
use stonesuite_notify.Base.{ℕ, ◌≡◌, String, Bool, List, [], ◌∷◌, ◌++◌, Result, ok, err}
use stonesuite_notify.Audit.{Entry, EntryRow, record_entry}

-- The table, the entries whose goroutines have not ended (the wait group counts them), and, for
-- the history of both, what `Record` was called with and which failures were logged.
pub record Recorder : Type 0 where
  pub table : List EntryRow
  pub in_flight : List Entry
  pub handed : List Entry
  pub logged : List Entry

abbrev pub new_recorder : List EntryRow → Recorder
new_recorder table = record { table = table; in_flight = []; handed = []; logged = [] }

-- `Record` starts the write and returns.
unfoldable pub record_async : Entry → Recorder → Recorder
record_async e r = record r { in_flight = r.in_flight ++ e ∷ []; handed = r.handed ++ e ∷ [] }

abbrev pub written_or_logged : Entry → Result (List EntryRow) → Recorder → Recorder
written_or_logged e (ok table) r = record r { table = table }
written_or_logged e (err x) r = record r { logged = r.logged ++ e ∷ [] }

-- The goroutine of `e`, which stands between `before` and `behind`, writes and ends.
unfoldable pub write_ends :
    List Entry → Entry → List Entry → Bool → String → ℕ → Recorder → Recorder
unfolding record_entry
write_ends before e behind up id now r =
    written_or_logged e (record_entry up id now e r.table)
      (record r { in_flight = before ++ behind })

-- Whatever order the goroutines end in.
pub data Run (table : List EntryRow) : Recorder → Type 0 where
  started : Run table (new_recorder table)
  called : {r : Recorder} (e : Entry) → Run table r → Run table (record_async e r)
  ended :
      {r : Recorder} (before : List Entry) (e : Entry) (behind : List Entry) (up : Bool)
      (id : String) (now : ℕ)
      → Run table r
      → r.in_flight ≡ before ++ e ∷ behind
      → Run table (write_ends before e behind up id now r)

-- `Wait` returns when the wait group's counter is 0.
abbrev pub WaitReturns : Recorder → Type 0
WaitReturns r = r.in_flight ≡ []
