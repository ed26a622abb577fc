-- ===== src/Http.antt =====
-- What surrounds every request: the request id of backend/src/common/middleware, the filter of
-- backend/src/common/filters, and of backend/src/app-setup.ts the reply to a body that cannot be
-- read and the test of an origin.
pub mod Filter
mod Tests
use Prim.Native.Char.{Char, code}
use bankproject.Base.{
  ℕ, String, Bool, true, false, ◌&&◌, ◌||◌, Option, none, some, List, [], ◌∷◌, ◌==◌, leb, str_eq,
  any_where, filter_where, map, length, if◌then◌else◌,
}
use bankproject.Text.{trim, is_truthy}
use bankproject.Text.Split.{split}

-- `[A-Za-z0-9._:-]`
abbrev pub is_id_char : ℕ → Bool
is_id_char c =
    (leb b'A' c && leb c b'Z')
    || (leb b'a' c && leb c b'z')
    || (leb b'0' c && leb c b'9')
    || c == b'.'
    || c == b'_'
    || c == b':'
    || c == b'-'

abbrev pub all_chars : (ℕ → Bool) → String → Bool
all_chars p String.[] = true
all_chars p (String.◌∷◌ c s) = p (code c) && all_chars p s

abbrev pub chars : String → ℕ
chars String.[] = 0
chars (String.◌∷◌ c s) = bankproject.Base.suc (chars s)

-- `requestIdPattern.test(s)`
abbrev pub is_request_id : String → Bool
is_request_id s = leb 1 (chars s) && leb (chars s) 100 && all_chars is_id_char s

-- The id of a request: the one that it brings, if that is well formed, or a new one.
unfoldable pub request_id : Option String → String → String
request_id none uuid = uuid
request_id (some supplied) uuid = if is_request_id (trim supplied) then trim supplied else uuid

-- The field `message` of an exception's response.
pub data Message : Type 0 where
  one_text : String → Message
  -- an array; an item that is no text is none
  many_texts : List (Option String) → Message
  no_text : Message

-- `exception.getResponse()`
pub data Response : Type 0 where
  plain_response : String → Response
  object_response : Option Message → Response

pub data Exception : Type 0 where
  http_exception : (status : ℕ) → Response → Exception
  -- any other value that is thrown, with what it says
  other_exception : String → Exception

-- The `message` of the reply.
pub data ReplyMessage : Type 0 where
  text_message : String → ReplyMessage
  texts_message : List String → ReplyMessage

pub record ErrorReply : Type 0 where
  pub status_code : ℕ
  pub request_id : String
  pub message : ReplyMessage

abbrev pub status_of : Exception → ℕ
status_of (http_exception status response) = status
status_of (other_exception s) = 500

-- The items of an array, if all are texts.
abbrev pub all_texts : List (Option String) → Option (List String)
all_texts [] = some []
all_texts (none ∷ rest) = none
all_texts (some s ∷ rest) = elim (all_texts rest) [ none ↦ none | some ss ↦ some (s ∷ ss) ]

abbrev pub texts_or_failed : Option (List String) → ReplyMessage
texts_or_failed none = text_message "Request failed"
texts_or_failed (some ss) = texts_message ss

-- `getClientMessage`
unfoldable pub client_message : Exception → ReplyMessage
client_message (http_exception status (plain_response s)) = text_message s
client_message (http_exception status (object_response none)) = text_message "Request failed"
client_message (http_exception status (object_response (some (one_text s)))) = text_message s
client_message (http_exception status (object_response (some (many_texts items)))) =
    texts_or_failed (all_texts items)
client_message (http_exception status (object_response (some no_text))) =
    text_message "Request failed"
client_message (other_exception s) = text_message "Request failed"

-- `catch` of the filter: what the client is told.
unfoldable pub catch_exception : String → Exception → ErrorReply
unfolding client_message
catch_exception id e = record {
  status_code = status_of e;
  request_id = id;
  message =
      if leb 500 (status_of e) then text_message "Internal server error" else client_message e;
}

-- The reply to a body that the parsers refuse, with the status that they set, if any.
unfoldable pub malformed : String → Option ℕ → ErrorReply
malformed id none = record {
  status_code = 400;
  request_id = id;
  message = text_message "Malformed request payload";
}
malformed id (some status) =
    if status == 413
    then record {
      status_code = 413;
      request_id = id;
      message = text_message "Request payload is too large";
    }
    else record {
      status_code = 400;
      request_id = id;
      message = text_message "Malformed request payload";
    }

abbrev pub default_origins : List String
default_origins =
    "http://localhost:5173" ∷ "http://localhost:5174" ∷ "http://127.0.0.1:5173"
    ∷ "http://127.0.0.1:5174" ∷ []

-- `s.split(',')`, each part trimmed, without the empty ones.
unfoldable pub listed_origins : String → List String
listed_origins s = filter_where is_truthy (map trim (split b',' s))

abbrev pub or_default : List String → List String
or_default [] = default_origins
or_default (o ∷ os) = o ∷ os

-- `getCorsOrigins` of the set-up: the origins of `CORS_ORIGINS`, or those of development.
unfoldable pub allowed_origins : Option String → List String
unfolding listed_origins
allowed_origins none = default_origins
allowed_origins (some s) = or_default (listed_origins s)

-- Whether a request from an origin is let through: one without an origin is.
unfoldable pub allows_origin : Option String → Option String → Bool
unfolding allowed_origins
allows_origin configured none = true
allows_origin configured (some origin) =
    if is_truthy origin then any_where (str_eq origin) (allowed_origins configured) else true
