-- ===== src/Resilience/Exceptions.antt =====
-- Exceptions as `categorize_exception` of src/utils/error_handler.py sees them: the names of the
-- classes in the method resolution order, and the two attributes that it reads.
use algo_engine.Prelude.{
  Bool, ◌&&◌, Option, none, some, List, [], ◌∷◌, ◌++◌, String, if◌then◌else◌, any,
}
use algo_engine.Prelude.Eq.{string_eq, elem}
use algo_engine.Prelude.Int.{ℤ, pos, leb_ℤ, ltb_ℤ, eqb_ℤ}

pub data ErrorCategory : Type 0 where
  transient permanent circuit_breaker : ErrorCategory

-- An attribute that is there: its truth value, and `int` of it where that does not raise.
pub record Attribute : Type 0 where
  pub truthy : Bool
  pub as_int : Option ℤ

pub record Exception : Type 0 where
  pub mro : List String
  pub status_code : Option Attribute
  pub status : Option Attribute

abbrev pub transient_exceptions : List String
transient_exceptions =
    "TimeoutError" ∷ "ConnectionError" ∷ "ConnectionRefusedError" ∷ "ConnectionResetError"
    ∷ "BrokenPipeError" ∷ "OSError" ∷ []

abbrev pub permanent_exceptions : List String
permanent_exceptions =
    "ValueError" ∷ "TypeError" ∷ "KeyError" ∷ "AttributeError" ∷ "NotImplementedError" ∷ []

abbrev pub http_transient_statuses : List ℤ
http_transient_statuses = pos 408 ∷ pos 429 ∷ pos 500 ∷ pos 502 ∷ pos 503 ∷ pos 504 ∷ []

-- `isinstance(exc, classes)`
unfoldable pub isinstance : Exception → List String → Bool
isinstance exc classes = any (λ c. elem c classes) exc.mro

-- `getattr(exc, "status_code", None) or getattr(exc, "status", None)`
status_of : Exception → Option Attribute
status_of exc = elim exc.status_code [
  | none ↦ exc.status
  | some a ↦ if a.truthy then some a else exc.status
]

is_client_error : ℤ → Bool
is_client_error code = leb_ℤ (pos 400) code && ltb_ℤ code (pos 500)

-- The verdict on a status code: `int` may refuse the attribute.
category_of_code : Option ℤ → ErrorCategory
unfolding is_client_error
category_of_code none = transient
category_of_code (some code) =
    if any (eqb_ℤ code) http_transient_statuses
    then transient
    else if is_client_error code
    then permanent
    else transient

category_of_status : Option Attribute → ErrorCategory
unfolding category_of_code
category_of_status none = transient
category_of_status (some a) = category_of_code a.as_int

unfoldable pub categorize_exception : Exception → List String → ErrorCategory
unfolding isinstance status_of category_of_status
categorize_exception exc extra_transient =
    if isinstance exc (transient_exceptions ++ extra_transient)
    then transient
    else if isinstance exc permanent_exceptions
    then permanent
    else category_of_status (status_of exc)
