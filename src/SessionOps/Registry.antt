-- ===== src/SessionOps/Registry.antt =====
-- internal/sessionops/sessionops.go: the files of one Session in the registry, as they are read. The
-- version of a file is always SchemaVersion. SHA-256 and the times of the clock are arguments; a time is
-- checked by its form.
pub mod Writes
pub mod Tracker
pub mod Answers
pub mod Recovery
pub mod Retention
pub mod Finalize
pub mod Public
pub mod Hex
pub mod Safe
use ai_config_selector.SessionOps.Ids.{valid_id}
use ai_config_selector.Prelude.{
  ℕ, zero, suc, ◌+◌, ◌*◌, ◌/◌, ◌%◌, ◌-◌, Bool, true, false, ◌&&◌, ◌||◌, not, leb, ltb, ◌==◌,
  if◌then◌else◌, List, [], ◌∷◌, Option, none, some, length,
}
use ai_config_selector.Prelude.Bytes.{Bytes, codes, bytes_eq, has_prefix, seen, contains_byte}

pub data State : Type 0 where
  active settling retryable unproven removable removed unknown corrupt : State

abbrev pub is_removed : State → Bool
is_removed removed = true
is_removed _ = false

abbrev pub is_active : State → Bool
is_active active = true
is_active _ = false

pub record Record : Type 0 where
  pub id : Bytes
  pub revision : ℕ
  pub state : State
  pub target : Bytes
  pub created_at : Bytes
  pub updated_at : Bytes
  pub removed_at : Bytes
  pub root_token : Bytes
  pub generation : ℕ
  pub completion_root : Bytes
  pub completion_challenge_hash : Bytes

pub record Capability : Type 0 where
  pub id : Bytes
  pub root_name : Bytes
  pub root_token : Bytes
  pub generation : ℕ
  pub challenge : Bytes
  pub removed : Bool

pub record RootBinding : Type 0 where
  pub id : Bytes
  pub root_name : Bytes
  pub root_token : Bytes

-- A file of the registry: readStrict refuses one that is damaged.
pub data File (A : Type 0) : Type 0 where
  missing damaged : File A
  holds : A → File A

-- What a read reports: `exists` and `err`.
pub data Reading (A : Type 0) : Type 0 where
  absent unreadable : Reading A
  present : A → Reading A

-- The registry as it bears on one Session, and whether its directory is there.
pub record Store : Type 0 where
  pub record_file : File Record
  pub capability_file : File Capability
  pub binding_file : File RootBinding
  pub root : Bool

abbrev pub valid_target : Bytes → Bool
valid_target target =
    seen
      (codes "shell"
        ∷ codes "devin"
        ∷ codes "codex"
        ∷ codes "codex-auth"
        ∷ codes "command"
        ∷ codes "grok"
        ∷ [])
      target

-- The value of a digit of hex.DecodeString, of either case.
abbrev pub hex_value : ℕ → Option ℕ
hex_value c =
    if leb b'0' c && leb c b'9'
    then some (c - 48)
    else if leb b'a' c && leb c b'f'
    then some (c - 87)
    else if leb b'A' c && leb c b'F'
    then some (c - 55)
    else none

abbrev with_byte : Option ℕ → Option ℕ → Option Bytes → Option Bytes
with_byte (some h) (some l) (some rest) = some ((16 * h + l) ∷ rest)
with_byte _ _ _ = none

-- hex.DecodeString
unfoldable pub decode_hex : Bytes → Option Bytes
decode_hex [] = some []
decode_hex (a ∷ []) = none
decode_hex (a ∷ b ∷ rest) = with_byte (hex_value a) (hex_value b) (decode_hex rest)

abbrev pub hex_digit : ℕ → ℕ
hex_digit n = if ltb n 10 then 48 + n else 87 + n

-- hex.EncodeToString
unfoldable pub encode_hex : Bytes → Bytes
encode_hex [] = []
encode_hex (b ∷ bs) = hex_digit (b / 16) ∷ hex_digit (b % 16) ∷ encode_hex bs

abbrev pub is_decoded : Option Bytes → Bool
is_decoded none = false
is_decoded (some bs) = true

abbrev pub decodes_to : ℕ → Option Bytes → Bool
decodes_to n none = false
decodes_to n (some bs) = length bs == n

abbrev pub hashed : (Bytes → Bytes) → Option Bytes → Bytes
hashed sha256 none = []
hashed sha256 (some bs) = if length bs == 32 then encode_hex (sha256 bs) else []

abbrev pub completion_challenge_hash : (Bytes → Bytes) → Bytes → Bytes
completion_challenge_hash sha256 challenge = hashed sha256 (decode_hex challenge)

-- launch.RecoveryProofChallengeSize
abbrev pub challenge_size : ℕ
challenge_size = 32

-- A name "session-…" that filepath.Base leaves as it is: one without a slash.
abbrev pub is_root_name : Bytes → Bool
is_root_name name = has_prefix name (codes "session-") && not (contains_byte b'/' name)

abbrev pub valid_completion_binding : Record → Bool
valid_completion_binding rec =
    is_removed rec.state
    && (is_root_name rec.completion_root
        && ((length rec.completion_challenge_hash == 64)
            && is_decoded (decode_hex rec.completion_challenge_hash)))

abbrev pub valid_binding : Record → Capability → Bool
valid_binding rec cap =
    bytes_eq rec.id cap.id
    && (bytes_eq rec.root_token cap.root_token && (rec.generation == cap.generation))

abbrev pub checked : {A : Type 0} → (A → Bool) → File A → Reading A
checked valid missing = absent
checked valid damaged = unreadable
checked valid (holds value) = if valid value then present value else unreadable

-- Two decimal digits.
abbrev is_pair : ℕ → ℕ → Bool
is_pair a b = (leb b'0' a && leb a b'9') && (leb b'0' b && leb b b'9')

abbrev pair_value : ℕ → ℕ → ℕ
pair_value a b = 10 * (a - 48) + (b - 48)

abbrev is_leap : ℕ → Bool
is_leap year = (year % 4 == 0) && (not (year % 100 == 0) || (year % 400 == 0))

abbrev days_in : ℕ → ℕ → ℕ
days_in year month =
    if month == 2
    then if is_leap year then 29 else 28
    else if (month == 4) || ((month == 6) || ((month == 9) || (month == 11)))
    then 30
    else 31

abbrev is_date : ℕ → ℕ → ℕ → Bool
is_date year month day =
    (leb 1 month && leb month 12) && (leb 1 day && leb day (days_in year month))

abbrev is_clock : ℕ → ℕ → ℕ → Bool
is_clock hour minute second = leb hour 23 && (leb minute 59 && leb second 59)

-- A time that time.Parse accepts by RFC 3339 and formatTime writes in the same way: in UTC, to the second.
unfoldable pub valid_timestamp : Bytes → Bool
valid_timestamp
      (y1 ∷ y2 ∷ y3 ∷ y4 ∷ s1 ∷ m1 ∷ m2 ∷ s2 ∷ d1 ∷ d2 ∷ s3 ∷ h1 ∷ h2 ∷ s4 ∷ i1 ∷ i2 ∷ s5 ∷ e1 ∷ e2
        ∷ s6 ∷ []) =
    bytes_eq (s1 ∷ s2 ∷ s3 ∷ s4 ∷ s5 ∷ s6 ∷ []) (codes "--T::Z")
    && ((is_pair y1 y2 && (is_pair y3 y4 && is_pair m1 m2))
        && ((is_pair d1 d2 && (is_pair h1 h2 && (is_pair i1 i2 && is_pair e1 e2)))
            && (is_date (100 * pair_value y1 y2 + pair_value y3 y4) (pair_value m1 m2)
                  (pair_value d1 d2)
                && is_clock (pair_value h1 h2) (pair_value i1 i2) (pair_value e1 e2))))
valid_timestamp _ = false

module _ (id : Bytes) where
  abbrev pub completion_empty : Record → Bool
  completion_empty value =
      bytes_eq value.completion_root [] && bytes_eq value.completion_challenge_hash []

  -- The tests of readRecord. Every state of the type is valid.
  abbrev pub valid_record : Record → Bool
  valid_record value =
      bytes_eq value.id id
      && (not (value.revision == 0)
          && (valid_target value.target
              && (valid_timestamp value.created_at
                  && (valid_timestamp value.updated_at
                      && ((length value.root_token == 64)
                          && (not (value.generation == 0)
                              && (completion_empty value || valid_completion_binding value)))))))

  abbrev pub read_record : Store → Reading Record
  read_record store = checked valid_record store.record_file

  abbrev pub valid_capability : Capability → Bool
  valid_capability value =
      bytes_eq value.id id
      && (is_root_name value.root_name
          && ((length value.root_token == 64)
              && (not (value.generation == 0)
                  && decodes_to challenge_size (decode_hex value.challenge))))

  abbrev pub read_capability : Store → Reading Capability
  read_capability store = checked valid_capability store.capability_file

  -- The tests of readRootBinding on the file of the root name `root_name`.
  abbrev pub valid_root_binding : Bytes → RootBinding → Bool
  valid_root_binding root_name value =
      valid_id value.id && (bytes_eq value.root_name root_name && (length value.root_token == 64))

  abbrev pub read_root_binding : Bytes → Store → Reading RootBinding
  read_root_binding root_name store =
      if is_root_name root_name
      then checked (valid_root_binding root_name) store.binding_file
      else unreadable
