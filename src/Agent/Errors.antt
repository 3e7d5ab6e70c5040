-- ===== src/Agent/Errors.antt =====
-- The errors of the agent as its handlers classify them: cmds/dutagent/states.go.
use dutctl.Base.{◌≡◌, ◌≢◌, String, Bool, true, false, Option, none, some, arith, if◌then◌else◌}
use dutctl.Dut.{LookupError}
use dutctl.Locker

-- The status codes of the connect library that are used.
pub data Code : Type 0 where
  canceled deadline_exceeded invalid_argument not_found aborted internal : Code
  failed_precondition unauthenticated permission_denied already_exists unavailable : Code

-- What the chain of an error ends in.
pub data Cause : Type 0 where
  ctx_canceled ctx_deadline bad_file_transfer unresolved_args no_identity anonymous_caller : Cause
  not_a_command unknown_keyword incompatible_versions unregistered_device missing_address : Cause
  no_devices unnamed_device : Cause
  registered_device : String → Cause
  lookup_error : LookupError → Cause
  lock_error : Locker.Error → Cause
  opaque_error : String → Cause

-- An error: its cause, and the code if a connect error stands in the chain.
pub record Err : Type 0 where
  pub cause : Cause
  pub code : Option Code

-- `connect.NewError` around an error.
abbrev pub with_code : Code → Cause → Err
with_code c x = record { cause = x; code = some c }

-- `errors.Is(err, context.DeadlineExceeded)`, and the same or `context.Canceled`.
abbrev pub is_deadline : Err → Bool
is_deadline e = elim e.cause [ ctx_deadline ↦ true | _ ↦ false ]

abbrev pub is_ctx : Err → Bool
is_ctx e = elim e.cause [ ctx_deadline ↦ true | ctx_canceled ↦ true | _ ↦ false ]

-- `cancelCode`
unfoldable pub cancel_code : Err → Code
cancel_code e = if is_deadline e then deadline_exceeded else canceled

is_cancel_code : Option Code → Bool
is_cancel_code (some canceled) = true
is_cancel_code (some deadline_exceeded) = true
is_cancel_code _ = false

-- `receiveError`
unfoldable pub receive_error : Err → Err
unfolding cancel_code is_cancel_code
receive_error e =
    if is_ctx e
    then with_code (cancel_code e) e.cause
    else if is_cancel_code e.code
    then e
    else with_code aborted e.cause

-- `moduleError`: `%v` keeps the text of another error and drops its chain.
unfoldable pub module_error : Err → Err
unfolding cancel_code
module_error e =
    if is_ctx e
    then with_code (cancel_code e) e.cause
    else with_code aborted (opaque_error "module failed")

is_bad_transfer : Err → Bool
is_bad_transfer e = elim e.cause [ bad_file_transfer ↦ true | _ ↦ false ]

-- `brokerError`
unfoldable pub broker_error : Err → Err
unfolding is_bad_transfer
broker_error e =
    if is_bad_transfer e
    then with_code invalid_argument e.cause
    else elim e.code [ some c ↦ e | none ↦ with_code internal e.cause ]

-- The end of the Run handler: an error that is no connect error gets a code.
unfoldable pub final_error : Err → Err
unfolding cancel_code
final_error e = elim e.code [
  | some c ↦ e
  | none ↦ if is_ctx e then with_code (cancel_code e) e.cause else with_code internal e.cause
]

-- Every classified error has a code, and one that comes from the context has a cancellation code,
-- whichever channel it arrives on, unless the broker had already given it another.
pub classified_codes :
    (e : Err)
    → ((receive_error e).code ≢ none)
      × ((module_error e).code ≢ none)
      × ((broker_error e).code ≢ none)
      × ((final_error e).code ≢ none)
      × (is_ctx e ≡ true
          → ((receive_error e).code ≡ some (cancel_code e))
            × ((module_error e).code ≡ some (cancel_code e))
            × (e.code ≡ none → (final_error e).code ≡ some (cancel_code e)))
unfolding receive_error module_error broker_error final_error
classified_codes e = (
  λ h. ground arith,
  λ h. ground arith,
  λ h. ground arith,
  λ h. ground arith,
  λ h. (ground arith, ground arith, λ n. ground arith),
)
