-- ===== src/Authority/Platform.antt =====
-- What the authority takes from Python's standard library: text tests, digests and identifiers.
use hubinet_ops.Prelude.{ℕ, String, Bool, Option, List}
use Prim.Native.Char.{Char}
use hubinet_ops.Authority.Tables.{Detail}

pub record Platform : Type 0 where
  -- `uuid.UUID(value)`: its `int` and its canonical text; `none` where it raises
  pub parse_uuid : String → Option (ℕ × String)
  -- `re.compile(pattern).fullmatch(value)`
  pub fullmatch : String → String → Bool
  -- `str.strip`, `str.lower`, and a prefix `value[:n]`
  pub strip : String → String
  pub lower : String → String
  pub prefix : ℕ → String → String
  -- `value.startswith(prefix)` and `value.endswith(suffix)`
  pub starts_with : String → String → Bool
  pub ends_with : String → String → Bool
  -- `str.isspace` and `unicodedata.category`, of one character
  pub is_space : Char → Bool
  pub category : Char → String
  -- `hashlib.sha256(...).hexdigest()` over a domain and the canonical JSON of some objects
  pub sha256_hex : String → List (List (String × Detail)) → String
  -- `str(uuid.UUID(bytes=sha256(...).digest()[:16], version=5))` over the same material
  pub sha256_uuid : String → List (List (String × Detail)) → String
  -- `len(json.dumps(details, ensure_ascii=True, sort_keys=True, separators=(",", ":")))`
  pub json_length : List (String × Detail) → ℕ
