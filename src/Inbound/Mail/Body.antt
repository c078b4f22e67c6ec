-- ===== src/Inbound/Mail/Body.antt =====
-- inbound/inbound.go: the cut of a mail's body to at most so many bytes.
pub mod Whole
use stonesuite_notify.Base.{ℕ, zero, suc, List, take, length, leb, if◌then◌else◌}
use stonesuite_notify.Base.Utf8.{rune_start, byte_at}

-- The loop of `truncateBytes`, from the index that it starts at.
unfoldable pub back_up : List ℕ → ℕ → ℕ
unfolding rune_start
back_up s zero = zero
back_up s (suc cut) =
    let rest = back_up s cut in if rune_start (byte_at s (suc cut)) then suc cut else rest

unfoldable pub truncate_bytes : List ℕ → ℕ → List ℕ
unfolding back_up
truncate_bytes s max = if leb (length s) max then s else take (back_up s max) s
