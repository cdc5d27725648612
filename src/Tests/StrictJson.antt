-- ===== src/Tests/StrictJson.antt =====
-- internal/strictjson on the texts of its tests.
use ai_config_selector.Prelude.{
  Bool, true, false, refl, ◌≡◌, ◌≢◌, ◌↔◌, ℕ, List, [], ◌∷◌, Result, ok, err,
}
use ai_config_selector.Prelude.Bytes.{Bytes, codes, bytes_eq, seen}
use ai_config_selector.Text.{valid_string, valid_from, next, lead}
use ai_config_selector.StrictJson.Unicode.{
  digit_value, hex4, low_follows, escape_width, scan_escapes, valid_unicode,
}
use ai_config_selector.StrictJson.Scan.{
  Event, text, scalar, open_object, open_array, close, broken, Limits, ScanError, bad_syntax,
  limit_exceeded, duplicate_key, rejected_key, exhausted, value, members, items, scan,
}
use ai_config_selector.StrictJson.Scan.Accepts.{IsDocument, scan_iff}
use ai_config_selector.StrictJson.Scan.Ends.{scan_ends}
use ai_config_selector.StrictJson.Unicode.Grammar.{IsEscaped}
use ai_config_selector.StrictJson.Unicode.Accepts.{valid_unicode_iff}

run_unicode : Bytes → Bool
unfolding digit_value hex4 low_follows escape_width scan_escapes valid_unicode valid_string
    valid_from next lead
run_unicode input = valid_unicode input

pair_accepted : valid_unicode (codes "\"\\uD800\\udC00\"") ≡ true
unfolding run_unicode
pair_accepted = refl

escaped_backslash_accepted : valid_unicode (codes "\"\\\\ud800\"") ≡ true
unfolding run_unicode
escaped_backslash_accepted = refl

lone_high_refused : valid_unicode (codes "\"\\ud800\"") ≡ false
unfolding run_unicode
lone_high_refused = refl

lone_low_refused : valid_unicode (codes "\"\\udc00\"") ≡ false
unfolding run_unicode
lone_low_refused = refl

escaped_half_refused : valid_unicode (codes "\"\\uD800\\\\uDC00\"") ≡ false
unfolding run_unicode
escaped_half_refused = refl

short_refused : valid_unicode (codes "\"\\u123\"") ≡ false
unfolding run_unicode
short_refused = refl

valid_unicode_iff_example :
    (valid_unicode (codes "\"\\uD800\\udC00\"") ≡ true)
    ↔ ((valid_string (codes "\"\\uD800\\udC00\"") ≡ true) × IsEscaped (codes "\"\\uD800\\udC00\""))
valid_unicode_iff_example = valid_unicode_iff (codes "\"\\uD800\\udC00\"")

-- Limits on the nesting, the tokens, the members and the items, and no limit on the strings.
abbrev bounded : ℕ → ℕ → ℕ → ℕ → Limits
bounded depth tokens count width = record {
  max_depth = depth;
  max_tokens = tokens;
  max_members = count;
  max_array = width;
  max_string_bytes = 0;
}

abbrev no_key : Bytes → Bool
no_key name = false

abbrev pair_of_members : List Event
pair_of_members =
    (open_object
      ∷ text (codes "x")
      ∷ scalar
      ∷ text (codes "y")
      ∷ open_array
      ∷ scalar
      ∷ close
      ∷ close
      ∷ [])

run_scan : Limits → (Bytes → Bool) → List Event → Result ScanError (Unit {0})
unfolding value members items scan
run_scan limits reject_key events = scan limits reject_key events

one_scalar : scan (bounded 0 0 0 0) no_key (scalar ∷ []) ≡ ok tt
unfolding run_scan bytes_eq seen
one_scalar = refl

empty_container : scan (bounded 0 0 0 0) no_key (open_object ∷ close ∷ []) ≡ ok tt
unfolding run_scan bytes_eq seen
empty_container = refl

too_deep : scan (bounded 0 0 0 0) no_key (open_array ∷ scalar ∷ close ∷ []) ≡ err limit_exceeded
unfolding run_scan bytes_eq seen
too_deep = refl

nested_boundary : scan (bounded 1 0 0 0) no_key (open_array ∷ scalar ∷ close ∷ []) ≡ ok tt
unfolding run_scan bytes_eq seen
nested_boundary = refl

duplicate_refused :
    scan
      (bounded 1 0 0 0)
      no_key
      (open_object ∷ text (codes "x") ∷ scalar ∷ text (codes "x") ∷ scalar ∷ close ∷ [])
    ≡ err duplicate_key
unfolding run_scan bytes_eq seen
duplicate_refused = refl

two_documents :
    scan (bounded 1 0 0 0) no_key (open_object ∷ close ∷ open_object ∷ close ∷ []) ≡ err bad_syntax
unfolding run_scan bytes_eq seen
two_documents = refl

truncated : scan (bounded 1 0 0 0) no_key (open_array ∷ []) ≡ err bad_syntax
unfolding run_scan bytes_eq seen
truncated = refl

malformed_close : scan (bounded 1 0 0 0) no_key (open_array ∷ broken true ∷ []) ≡ err bad_syntax
unfolding run_scan bytes_eq seen
malformed_close = refl

key_rejected :
    scan
      (bounded 1 0 0 0)
      (bytes_eq (codes "x"))
      (open_object ∷ text (codes "x") ∷ scalar ∷ close ∷ [])
    ≡ err rejected_key
unfolding run_scan bytes_eq seen
key_rejected = refl

members_before_duplicate :
    scan
      (bounded 1 0 1 0)
      no_key
      (open_object ∷ text (codes "x") ∷ scalar ∷ text (codes "x") ∷ scalar ∷ close ∷ [])
    ≡ err limit_exceeded
unfolding run_scan bytes_eq seen
members_before_duplicate = refl

tokens_include_keys :
    scan (bounded 1 2 0 0) no_key (open_object ∷ text (codes "x") ∷ scalar ∷ close ∷ [])
    ≡ err limit_exceeded
unfolding run_scan bytes_eq seen
tokens_include_keys = refl

tokens_exclude_close :
    scan (bounded 1 3 0 0) no_key (open_object ∷ text (codes "x") ∷ scalar ∷ close ∷ []) ≡ ok tt
unfolding run_scan bytes_eq seen
tokens_exclude_close = refl

array_before_value :
    scan (bounded 1 0 0 1) no_key (open_array ∷ scalar ∷ broken false ∷ []) ≡ err limit_exceeded
unfolding run_scan bytes_eq seen
array_before_value = refl

array_boundary : scan (bounded 1 0 0 1) no_key (open_array ∷ scalar ∷ close ∷ []) ≡ ok tt
unfolding run_scan bytes_eq seen
array_boundary = refl

two_members : scan (bounded 2 6 2 1) no_key pair_of_members ≡ ok tt
unfolding run_scan bytes_eq seen
two_members = refl

scan_iff_example :
    (scan (bounded 2 6 2 1) no_key pair_of_members ≡ ok tt)
    ↔ IsDocument (bounded 2 6 2 1) no_key pair_of_members
scan_iff_example = scan_iff (bounded 2 6 2 1) no_key pair_of_members

scan_ends_example : scan (bounded 2 6 2 1) no_key pair_of_members ≢ err exhausted
scan_ends_example = scan_ends (bounded 2 6 2 1) no_key pair_of_members
