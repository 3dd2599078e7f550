-- ===== src/Lease/ClientName.antt =====
-- `ParseClient` and `validClientName` of internal/api/client.go.
pub mod RoundTrip
use Prim.Native.Char.{code}
use Prim.Native.String
use eyedebugger.Prelude.{
  ℕ, String, len, Bool, true, false, not, ◌&&◌, ◌||◌, Option, none, some, List, [], ◌∷◌, ltb, leb,
  ◌==◌, str_eq, if◌then◌else◌,
}
use eyedebugger.Api.{Client, kind_agent, kind_human}

abbrev pub max_client_name : ℕ
max_client_name = 64

-- The rune is a letter, a digit or one of . _ @ + -
is_name_char : ℕ → Bool
is_name_char r =
    (leb b'a' r && leb r b'z')
    || (leb b'A' r && leb r b'Z')
    || (leb b'0' r && leb r b'9')
    || (r == 46)
    || (r == b'_')
    || (r == 64)
    || (r == 43)
    || (r == 45)

all_name_chars : String → Bool
unfolding is_name_char
all_name_chars String.[] = true
all_name_chars (String.◌∷◌ c s) = is_name_char (code c) && all_name_chars s

unfoldable pub valid_client_name : String → Bool
unfolding all_name_chars
valid_client_name name =
    not (str_eq name "") && not (ltb max_client_name (len name)) && all_name_chars name

-- `strings.Cut(s, ":")`: what stands before and after the first colon, and whether there is one.
unfoldable pub cut_colon : String → String × String × Bool
cut_colon String.[] = ("", "", false)
cut_colon (String.◌∷◌ c s) =
    let (before, behind, found) = cut_colon s in
    if code c == 58 then ("", s, true) else (String.◌∷◌ c before, behind, found)

-- `ParseClient`: none is the INVALID_REQUEST.
unfoldable pub parse_client : String → Option Client
unfolding valid_client_name cut_colon
parse_client s =
    let (kind, name, has_name) = cut_colon s in
    let client : Client = record { id = s; kind = kind; name = name } in
    if str_eq s ""
    then some (record { id = kind_agent; kind = kind_agent; name = "" })
    else if (str_eq kind kind_agent || str_eq kind kind_human)
        && (not has_name || valid_client_name name)
    then some client
    else none
