-- ===== src/StrictJson/Scan.antt =====
-- internal/strictjson/scan.go: Scan and its scanner. The json.Decoder is the list of what its calls of
-- Token return. It returns a closing delimiter only where one fits, so that one constructor stands for
-- both, and after an error it returns nothing more. Limits are not negative.
pub mod Tree
pub mod Checks
pub mod Steps
pub mod Sound
pub mod Complete
pub mod Accepts
pub mod Ends
use ai_config_selector.Prelude.{
  ℕ, zero, suc, ◌*◌, Bool, true, ◌&&◌, ◌||◌, ltb, List, [], ◌∷◌, Result, ok, err, ◌>>=◌, ◌>>◌,
  refuse_if, length,
}
use ai_config_selector.Prelude.Bytes.{Bytes, seen}

pub data Event : Type 0 where
  -- a string, by its decoded bytes
  text : Bytes → Event
  -- a number, a Boolean or null
  scalar : Event
  open_object : Event
  open_array : Event
  close : Event
  -- an error, and whether a closing bracket stands there, at which More is false
  broken : Bool → Event

pub record Limits : Type 0 where
  pub max_depth : ℕ
  pub max_tokens : ℕ
  pub max_members : ℕ
  pub max_array : ℕ
  pub max_string_bytes : ℕ

pub data ScanError : Type 0 where
  bad_syntax duplicate_key limit_exceeded rejected_key : ScanError
  -- the scan has run out of fuel
  exhausted : ScanError

-- A maximum of zero is none.
abbrev pub exceeds : ℕ → ℕ → Bool
exceeds value maximum = ltb 0 maximum && ltb maximum value

-- The number of tokens counted so far, and the tokens that are left.
abbrev pub Scanned : Type 0
Scanned = Result ScanError (ℕ × List Event)

module _ (limits : Limits) (reject_key : Bytes → Bool) where
  -- The tests on the depth and on the number of tokens, with the one just read.
  abbrev pub admitted : ℕ → ℕ → Result ScanError (Unit {0})
  admitted depth tokens =
      refuse_if (ltb limits.max_depth depth) limit_exceeded
      >> refuse_if (exceeds tokens limits.max_tokens) limit_exceeded

  -- The tests on a key of an object, in which it is the member number `count`.
  abbrev pub admitted_key : List Bytes → ℕ → ℕ → Bytes → Result ScanError (Unit {0})
  admitted_key met count tokens name =
      refuse_if
        (exceeds tokens limits.max_tokens
          || (exceeds (length name) limits.max_string_bytes || exceeds count limits.max_members))
        limit_exceeded
      >> (refuse_if (seen met name) duplicate_key >> refuse_if (reject_key name) rejected_key)

  -- scanner.value, and its loops over the members of an object and the items of an array, up to and with
  -- the closing delimiter.
  unfoldable mutual
    pub value : ℕ → ℕ → ℕ → List Event → Scanned
    value zero depth tokens events = err exhausted
    value (suc fuel) depth tokens [] =
        refuse_if (ltb limits.max_depth depth) limit_exceeded >> err bad_syntax
    value (suc fuel) depth tokens (broken closing ∷ events) =
        refuse_if (ltb limits.max_depth depth) limit_exceeded >> err bad_syntax
    value (suc fuel) depth tokens (close ∷ events) = admitted depth (suc tokens) >> err bad_syntax
    value (suc fuel) depth tokens (scalar ∷ events) =
        admitted depth (suc tokens) >> ok (suc tokens, events)
    value (suc fuel) depth tokens (text t ∷ events) =
        admitted depth (suc tokens)
        >> (refuse_if (exceeds (length t) limits.max_string_bytes) limit_exceeded
            >> ok (suc tokens, events))
    value (suc fuel) depth tokens (open_object ∷ events) =
        let rest = members fuel depth [] 0 (suc tokens) events in
        admitted depth (suc tokens) >> rest
    value (suc fuel) depth tokens (open_array ∷ events) =
        let rest = items fuel depth 0 (suc tokens) events in admitted depth (suc tokens) >> rest

    pub members : ℕ → ℕ → List Bytes → ℕ → ℕ → List Event → Scanned
    members zero depth met count tokens events = err exhausted
    members (suc fuel) depth met count tokens (close ∷ events) = ok (tokens, events)
    members (suc fuel) depth met count tokens (text name ∷ events) =
        let rest = value fuel (suc depth) (suc tokens) events >>= λ r.
        members fuel depth (name ∷ met) (suc count) r.0 r.1 in
        admitted_key met (suc count) (suc tokens) name >> rest
    members (suc fuel) depth met count tokens events = err bad_syntax

    pub items : ℕ → ℕ → ℕ → ℕ → List Event → Scanned
    items zero depth count tokens events = err exhausted
    items (suc fuel) depth count tokens [] = err bad_syntax
    items (suc fuel) depth count tokens (close ∷ events) = ok (tokens, events)
    items (suc fuel) depth count tokens (broken true ∷ events) = err bad_syntax
    items (suc fuel) depth count tokens events =
        let rest =
          value fuel (suc depth) tokens events >>= λ r. items fuel depth (suc count) r.0 r.1 in
        refuse_if (exceeds (suc count) limits.max_array) limit_exceeded >> rest

  -- The last call of Token has to report the end of the input.
  abbrev pub at_end : ℕ × List Event → Result ScanError (Unit {0})
  at_end (tokens, []) = ok tt
  at_end (tokens, event ∷ events) = err bad_syntax

  unfoldable pub scan : List Event → Result ScanError (Unit {0})
  scan events = let fuel = suc (2 * length events) in value fuel 0 0 events >>= at_end
