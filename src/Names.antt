-- ===== src/Names.antt =====
-- internal/container/validate.go and `CheckGroup` of internal/api/container.go: the checks of the
-- names that reach an invocation of the container engine, on their bytes.
pub mod Arguments
mod Tests
use eyedebugger.Prelude.{
  ℕ, Bool, true, false, not, ◌&&◌, ◌||◌, Option, none, some, List, [], ◌∷◌, ◌==◌, ltb, leb, length,
  if◌then◌else◌,
}
use eyedebugger.Api.{ℤ, pos, negsuc}

abbrev pub max_ref_len : ℕ
max_ref_len = 128

abbrev pub max_full_id_len : ℕ
max_full_id_len = 64

abbrev pub min_short_id_len : ℕ
min_short_id_len = 12

abbrev pub max_context_len : ℕ
max_context_len = 128

abbrev pub max_host_len : ℕ
max_host_len = 1024

abbrev pub max_service_len : ℕ
max_service_len = 63

abbrev pub max_group_len : ℕ
max_group_len = 63

abbrev pub minus : ℕ
minus = 45

-- `isAlnum`.
pub is_alnum : ℕ → Bool
is_alnum b = (leb 48 b && leb b 57) || (leb 97 b && leb b 122) || (leb 65 b && leb b 90)

-- `isNameChar`.
pub is_name_char : ℕ → Bool
unfolding is_alnum
is_name_char b = is_alnum b || b == 95 || b == 46 || b == minus

-- `isHex`.
pub is_hex : ℕ → Bool
is_hex b = (leb 48 b && leb b 57) || (leb 97 b && leb b 102)

-- A loop that asks for a test of every byte.
pub every_byte : (ℕ → Bool) → List ℕ → Bool
every_byte p [] = true
every_byte p (b ∷ bs) = p b && every_byte p bs

-- `isHexID`.
pub is_hex_id : List ℕ → Bool
unfolding is_hex every_byte
is_hex_id s =
    not (ltb (length s) min_short_id_len || ltb max_full_id_len (length s)) && every_byte is_hex s

-- `grammar`.
pub grammar : List ℕ → (ℕ → Bool) → (ℕ → Bool) → Bool
unfolding every_byte
grammar [] p rest = false
grammar (b ∷ bs) p rest = p b && every_byte rest bs

-- `ValidateRef`.
pub valid_ref : List ℕ → Bool
unfolding is_hex_id grammar is_alnum is_name_char
valid_ref ref = is_hex_id ref || (leb (length ref) max_ref_len && grammar ref is_alnum is_name_char)

-- `ValidateContext`.
pub valid_context : List ℕ → Bool
unfolding grammar is_alnum is_name_char
valid_context s =
    leb (length s) max_context_len && grammar s is_alnum (λ b. is_name_char b || b == 43)

-- `ValidateService`.
pub valid_service : List ℕ → Bool
unfolding grammar is_alnum is_name_char
valid_service s = leb (length s) max_service_len && grammar s is_alnum is_name_char

-- `strings.Contains` of "://".
pub has_scheme : List ℕ → Bool
has_scheme [] = false
has_scheme (b ∷ []) = false
has_scheme (b ∷ c ∷ []) = false
has_scheme (b ∷ c ∷ d ∷ ds) =
    let later = has_scheme (c ∷ d ∷ ds) in (b == 58 && c == 47 && d == 47) || later

pub starts_minus : List ℕ → Bool
starts_minus [] = false
starts_minus (b ∷ bs) = b == minus

-- A byte past the space that is not the delete character.
pub is_graphic : ℕ → Bool
is_graphic b = ltb 32 b && not (b == 127)

-- `ValidateHost`.
pub valid_host : List ℕ → Bool
unfolding has_scheme starts_minus every_byte is_graphic
valid_host s =
    leb (length s) max_host_len && has_scheme s && not (starts_minus s) && every_byte is_graphic s

-- `isLowerAlnum`.
pub is_lower_alnum : ℕ → Bool
is_lower_alnum b = (leb 97 b && leb b 122) || (leb 48 b && leb b 57)

pub is_group_char : ℕ → Bool
unfolding is_lower_alnum
is_group_char b = is_lower_alnum b || b == 95 || b == minus

-- `CheckGroup`.
pub valid_group : List ℕ → Bool
unfolding every_byte is_lower_alnum is_group_char
valid_group [] = false
valid_group (b ∷ bs) =
    leb (length (b ∷ bs)) max_group_len && is_lower_alnum b && every_byte is_group_char (b ∷ bs)

-- `api.ContainerSpec`, what the check reads of it.
pub record ContainerSpec : Type 0 where
  pub ref : List ℕ
  pub host : List ℕ
  pub context : List ℕ
  pub service : List ℕ
  pub project : List ℕ
  pub pid : ℤ

-- What of a spec is refused.
pub data Refused : Type 0 where
  bad_ref : Refused
  bad_host : Refused
  bad_context : Refused
  bad_service : Refused
  bad_project : Refused
  bad_pid : Refused

pub is_given : List ℕ → Bool
is_given [] = false
is_given (b ∷ bs) = true

abbrev pub is_negative : ℤ → Bool
is_negative (pos n) = false
is_negative (negsuc n) = true

-- `ValidateSpec`.
pub validate_spec : ContainerSpec → Option Refused
unfolding valid_ref valid_host valid_context valid_service valid_group is_given
validate_spec s =
    if not (valid_ref s.ref)
    then some bad_ref
    else if is_given s.host && not (valid_host s.host)
    then some bad_host
    else if is_given s.context && not (valid_context s.context)
    then some bad_context
    else if is_given s.service && not (valid_service s.service)
    then some bad_service
    else if is_given s.project && not (valid_group s.project)
    then some bad_project
    else if is_negative s.pid
    then some bad_pid
    else none

-- `ValidateLaunchSpec`: a launch names no process.
pub validate_launch_spec : ContainerSpec → Option Refused
unfolding validate_spec
validate_launch_spec s = validate_spec (record s { pid = pos 0 })
