-- ===== src/Inbound/Failure.antt =====
-- inbound/inbound.go and workers/inbound_attachments.go: the errors of the inbound package, with the
-- text that `Error` gives and with what `errors.Is` and `errors.As` find behind it.
use stonesuite_notify.Base.{
  ℕ, ◌≡◌, refl, inl, inr, ◌⊎◌, String, Bool, true, false, ◌||◌, [], ◌∷◌, leb, nat_eq, if◌then◌else◌,
  any,
}
use stonesuite_notify.Base.Text.{◌+++◌, trim_space}

-- What an error wraps: nothing that the package asks for, a *RetryableError, or one of the two
-- errors that mean that a file cannot be had.
pub data Cause : Type 0 where
  permanent retryable file_too_large attachment_gone : Cause

pub record Failure : Type 0 where
  pub cause : Cause
  pub message : String

-- Go's `(value, error)` pairs of this package.
pub data Answer {ℓ} (A : Type ℓ) : Type ℓ where
  done : A → Answer A
  failed : Failure → Answer A

unfoldable pub is_retryable : Failure → Bool
is_retryable f = elim f.cause [ retryable ↦ true | _ ↦ false ]

-- fmt.Errorf("what: %w", err)
abbrev pub wrap : String → Failure → Failure
wrap what f = record { cause = f.cause; message = what +++ ": " +++ f.message }

abbrev pub make_retryable : Failure → Failure
make_retryable f = record f { cause = retryable }

unfoldable pub retryable_status : ℕ → Bool
retryable_status status =
    any (λ s. nat_eq s status) (401 ∷ 403 ∷ 404 ∷ 408 ∷ 429 ∷ []) || leb 500 status

-- `decimal` is the number as `%d` prints it; the body is the part of the answer that was read.
unfoldable pub status_error : (ℕ → String) → String → ℕ → String → Failure
unfolding retryable_status
status_error decimal what status body = record {
  cause = if retryable_status status then retryable else permanent;
  message = what +++ " returned " +++ decimal status +++ ": " +++ trim_space body;
}

pub Answer-cases {ℓ} :
    {A : Type ℓ} (r : Answer A) → ((a : A) × (r ≡ done a)) ⊎ ((f : Failure) × (r ≡ failed f))
Answer-cases (done a) = inl (a, refl)
Answer-cases (failed f) = inr (f, refl)
