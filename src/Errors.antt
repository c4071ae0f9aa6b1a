-- ===== src/Errors.antt =====
-- Error types and exceptions: include/rtc/errors/error_type.hpp and exceptions.hpp. An exception
-- is its type, its message and its details, which are empty where the source gives none.
use realtime_chat.Common.{ℕ, String, ◌≡◌, refl, arith, Bytes, codes}

pub data ErrorType : Type 0 where
  validation authentication authorization not_found conflict payload_too_large : ErrorType
  unsupported_media rate_limited database configuration internal : ErrorType

unfoldable pub http_status_for : ErrorType → ℕ
http_status_for validation = 400
http_status_for authentication = 401
http_status_for authorization = 403
http_status_for not_found = 404
http_status_for conflict = 409
http_status_for payload_too_large = 413
http_status_for unsupported_media = 415
http_status_for rate_limited = 429
http_status_for database = 500
http_status_for configuration = 500
http_status_for internal = 500

unfoldable pub code_for : ErrorType → Bytes
code_for validation = codes "validation_error"
code_for authentication = codes "authentication_error"
code_for authorization = codes "authorization_error"
code_for not_found = codes "not_found"
code_for conflict = codes "conflict"
code_for payload_too_large = codes "payload_too_large"
code_for unsupported_media = codes "unsupported_media_type"
code_for rate_limited = codes "rate_limited"
code_for database = codes "database_error"
code_for configuration = codes "configuration_error"
code_for internal = codes "internal_error"

pub record AppException : Type 0 where
  pub type : ErrorType
  pub message : String
  pub details : Bytes

abbrev pub exception : ErrorType → String → Bytes → AppException
exception type message details = record { type = type; message = message; details = details }

pub data Result {ℓ} (A : Type ℓ) : Type ℓ where
  ok : A → Result A
  err : AppException → Result A

abbrev pub throw {ℓ} : {A : Type ℓ} → ErrorType → String → Bytes → Result A
throw type message details = err (exception type message details)

-- The code tells the error types apart, also those that share the status 500.
pub code_for-injective : (a b : ErrorType) → code_for a ≡ code_for b → a ≡ b
unfolding code_for
code_for-injective validation validation h = refl
code_for-injective _ _ h = ground arith
