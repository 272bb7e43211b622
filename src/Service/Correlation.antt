-- ===== src/Service/Correlation.antt =====
-- `CorrelationMiddleware` of src/common/correlation.middleware.ts. A fresh UUID is an argument.
pub mod Laws
use Prim.Native.String
use Prim.Native.Char.{Char, code}
use async_webhook_ingestion.Prelude.{
  ℕ, zero, suc, ◌+◌, String, Bool, true, false, ◌&&◌, ◌||◌, Option, none, some, leb, eqb,
  if◌then◌else◌,
}
use async_webhook_ingestion.Boundary.{HeaderValue, one, many}

abbrev pub correlation_header : String
correlation_header = "x-correlation-id"

-- `[\w.:-]`
abbrev pub is_id_char : Char → Bool
is_id_char c =
    (leb 48 (code c) && leb (code c) 57)
    || ((leb 65 (code c) && leb (code c) 90)
        || ((leb 97 (code c) && leb (code c) 122)
            || (eqb (code c) 95 || (eqb (code c) 46 || (eqb (code c) 58 || eqb (code c) 45)))))

-- Whether the text has at most `room` characters, each of the class.
abbrev pub fits : (room : ℕ) → String → Bool
fits room String.[] = true
fits zero (String.◌∷◌ c s) = false
fits (suc room) (String.◌∷◌ c s) = is_id_char c && fits room s

-- `VALID_CORRELATION_ID.test(text)`
unfoldable pub is_valid_correlation_id : String → Bool
is_valid_correlation_id String.[] = false
is_valid_correlation_id (String.◌∷◌ c s) = is_id_char c && fits 127 s

-- `typeof incoming === 'string'`: a header that is sent once.
abbrev chosen : Option HeaderValue → (uuid : String) → String
chosen none uuid = uuid
chosen (some (one text)) uuid = if is_valid_correlation_id text then text else uuid
chosen (some (many texts)) uuid = uuid

-- The id that `use` sets on the response and runs the request with.
unfoldable pub use_correlation_id : Option HeaderValue → (uuid : String) → String
use_correlation_id incoming uuid = chosen incoming uuid
