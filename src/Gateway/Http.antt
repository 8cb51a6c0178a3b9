-- ===== src/Gateway/Http.antt =====
-- The messages of Boost.Beast, as the gateway reads and writes them. Beast itself is not part of the
-- repository: what it makes of the bytes on the wire stands in the fields of a request.
use prompt_cache_storage.Prelude.{
  ℕ, ◌+◌, Bool, ◌&&◌, Option, none, some, List, [], ◌∷◌, Bytes, beq, leb, if◌then◌else◌, map,
}

pub record Request : Type 0 where
  -- `method_string()`; `method()` is the verb of exactly that name
  pub method : Bytes
  pub target : Bytes
  pub version : ℕ
  -- `keep_alive()`, which Beast reads off the version and the field Connection
  pub keep_alive : Bool
  pub headers : List (Bytes × Bytes)
  pub body : Bytes

pub record Response : Type 0 where
  pub status : ℕ
  pub version : ℕ
  -- the argument of `keep_alive(…)`
  pub keep_alive : Bool
  -- the argument of `content_length(…)`
  pub content_length : ℕ
  pub headers : List (Bytes × Bytes)
  pub body : Bytes

-- `std::tolower` in the C locale.
pub lower : ℕ → ℕ
lower c = if leb b'A' c && leb c b'Z' then c + 32 else c

unfoldable pub to_lower : Bytes → Bytes
unfolding lower
to_lower s = map lower s

-- The first field of a name; names are compared without regard to case.
unfoldable pub find_field : Bytes → List (Bytes × Bytes) → Option Bytes
unfolding to_lower
find_field name [] = none
find_field name ((k, v) ∷ fields) =
    let rest = find_field name fields in if beq (to_lower k) (to_lower name) then some v else rest

-- `req.find(name)` with the value.
unfoldable pub header_value : Request → Bytes → Option Bytes
unfolding find_field
header_value req name = find_field name req.headers

-- Whether `method()` is the verb of that name.
unfoldable pub is_method : Request → Bytes → Bool
is_method req name = beq req.method name
