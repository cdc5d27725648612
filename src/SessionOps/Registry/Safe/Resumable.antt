-- ===== src/SessionOps/Registry/Safe/Resumable.antt =====
-- internal/sessionops/sessionops.go: what a removal that stopped between its writes leaves, and that its
-- last record is read again.
use ai_config_selector.SessionOps.Ids.{valid_id}
use ai_config_selector.SessionOps.Registry.{
  is_removed, Record, Capability, RootBinding, File, missing, damaged, holds, Store, is_root_name,
  decode_hex, decodes_to, is_decoded, hashed, valid_completion_binding, valid_timestamp,
  valid_record, valid_capability, valid_root_binding, checked, present, read_record,
  read_capability, read_root_binding, valid_binding,
}
use ai_config_selector.SessionOps.Registry.Hex.{decode_hex-encode_hex, length-encode_hex}
use ai_config_selector.SessionOps.Registry.Tracker.{mark_removed, set_completion_binding}
use ai_config_selector.SessionOps.Registry.Recovery.{completed, binding_disagrees}
use ai_config_selector.SessionOps.Registry.Safe.{IsMissing}
use ai_config_selector.Prelude.{
  ◌<◌, Bool, true, false, not, ◌≡◌, ◌⊎◌, inl, inr, refl, sym, ◌∙◌, subst, All, Option, none, some,
  length, arith, Bool-cases, &&_intro, &&_elim, ◌==◌, ==_iff,
}
use ai_config_selector.Prelude.Bytes.{Bytes, bytes_eq, bytes_eq_iff, bytes_eq→eq}

-- SHA-256 as its caller relies on it: 32 bytes.
abbrev pub IsDigest : (Bytes → Bytes) → Type 0
IsDigest sha256 = (bs : Bytes) → (length (sha256 bs) ≡ 32) × All (λ b. b < 256) (sha256 bs)

-- The binding of the root is that of the record and its capability, or is gone with the Session.
abbrev pub IsBound : Record → Capability → File RootBinding → Type 0
IsBound rec cap missing = is_removed rec.state ≡ true
IsBound rec cap damaged = ⊥
IsBound rec cap (holds b) =
    (b.id ≡ rec.id) × (b.root_name ≡ cap.root_name) × (b.root_token ≡ rec.root_token)

-- The capability records the removal, and the rest is still there.
pub record IsInterrupted (id : Bytes) (rec : Record) (cap : Capability) (store : Store)
    : Type 0 where
  pub record_file : store.record_file ≡ holds rec
  pub capability_file : store.capability_file ≡ holds cap
  pub readable : valid_record id rec ≡ true
  pub capable : valid_capability id cap ≡ true
  pub same_token : rec.root_token ≡ cap.root_token
  pub same_generation : rec.generation ≡ cap.generation
  pub marked : cap.removed ≡ true
  pub bound : IsBound rec cap store.binding_file

-- Only the last record is there, with what it keeps of the capability.
pub record IsSettled (id : Bytes) (rec : Record) (store : Store) : Type 0 where
  pub record_file : store.record_file ≡ holds rec
  pub readable : valid_record id rec ≡ true
  pub completed : valid_completion_binding rec ≡ true
  pub capability_file : store.capability_file ≡ missing
  pub binding_file : IsMissing store.binding_file

-- The root has been removed, and the capability or the last record say so.
pub record IsResumable (id : Bytes) (store : Store) : Type 0 where
  pub root : store.root ≡ false
  pub files :
      ((rec : Record) × (cap : Capability) × IsInterrupted id rec cap store)
      ⊎ ((rec : Record) × IsSettled id rec store)

checked-holds :
    {A : Type 0} (valid : A → Bool) (f : File A) (x : A)
    → f ≡ holds x
    → valid x ≡ true
    → checked valid f ≡ present x
checked-holds valid f x e v = rw (e, v) refl

hash_kept :
    (sha256 : Bytes → Bytes)
    → IsDigest sha256
    → (decoded : Option Bytes) → decodes_to 32 decoded ≡ true
    → (length (hashed sha256 decoded) ≡ 64)
      × (is_decoded (decode_hex (hashed sha256 decoded)) ≡ true)
hash_kept sha256 d none h = absurd (cc h)
hash_kept sha256 d (some bs) h = rw h (
  omega (arith, length-encode_hex (sha256 bs), (d bs).0),
  rw (decode_hex-encode_hex (sha256 bs) (d bs).1) refl,
)

module _ (sha256 : Bytes → Bytes) (digest : IsDigest sha256) (now id : Bytes)
    (time : valid_timestamp now ≡ true) where
  set-completed :
      (rec : Record) (cap : Capability)
      → is_removed rec.state ≡ true
      → valid_capability id cap ≡ true
      → valid_completion_binding (set_completion_binding sha256 cap rec) ≡ true
  set-completed rec cap r v =
      let (a, v₁) = &&_elim (bytes_eq cap.id id) _ v in
      let (n, v₂) = &&_elim (is_root_name cap.root_name) _ v₁ in
      let (l, v₃) = &&_elim (length cap.root_token == 64) _ v₂ in
      let (g, c) = &&_elim (not (cap.generation == 0)) _ v₃ in
      let (k, e) = hash_kept sha256 digest (decode_hex cap.challenge) c in
      &&_intro _ _ r (&&_intro _ _ n (&&_intro _ _ ((==_iff _ 64).1 k) e))

  set-readable :
      (rec : Record) (cap : Capability)
      → valid_record id rec ≡ true
      → valid_completion_binding (set_completion_binding sha256 cap rec) ≡ true
      → valid_record id (set_completion_binding sha256 cap rec) ≡ true
  set-readable rec cap v c = ground arith

  mark_removed-readable :
      (rec : Record)
      → valid_record id rec ≡ true
      → is_removed rec.state ≡ false
      → valid_record id (mark_removed now rec) ≡ true
  mark_removed-readable rec v u = ground arith

  -- The last record, by whether the record is removed already.
  completed_cases :
      (P : Record → Type 0) (rec : Record) (cap : Capability)
      → (is_removed rec.state ≡ true → P (set_completion_binding sha256 cap rec))
      → (is_removed rec.state ≡ false
          → P (set_completion_binding sha256 cap (mark_removed now rec)))
      → P (completed sha256 now rec cap)
  completed_cases P rec cap a b = elim (Bool-cases (is_removed rec.state)) [
    | inl e ↦ rw e (a e)
    | inr e ↦ rw e (b e)
  ]

  pub completed-completed :
      (rec : Record) (cap : Capability)
      → valid_capability id cap ≡ true
      → valid_completion_binding (completed sha256 now rec cap) ≡ true
  completed-completed rec cap v =
      completed_cases (λ r. valid_completion_binding r ≡ true) rec cap
        (λ e. set-completed rec cap e v) (λ e. set-completed (mark_removed now rec) cap refl v)

  pub completed-readable :
      (rec : Record) (cap : Capability)
      → valid_record id rec ≡ true
      → valid_capability id cap ≡ true
      → valid_record id (completed sha256 now rec cap) ≡ true
  completed-readable rec cap r v =
      completed_cases (λ r. valid_record id r ≡ true) rec cap
        (λ e. set-readable rec cap r (set-completed rec cap e v))
        (λ e.
          set-readable (mark_removed now rec) cap (mark_removed-readable rec r e)
            (set-completed (mark_removed now rec) cap refl v))

  pub completed-is_removed :
      (rec : Record) (cap : Capability) → is_removed (completed sha256 now rec cap).state ≡ true
  completed-is_removed rec cap =
      completed_cases (λ r. is_removed r.state ≡ true) rec cap (λ e. e) (λ e. refl)

  -- The last record, put in place of the record, leaves what was interrupted so.
  pub completed-IsInterrupted :
      (rec : Record) (cap : Capability) (store : Store)
      → IsInterrupted id rec cap store
      → IsInterrupted id
          (completed sha256 now rec cap)
          cap
          (record store { record_file = holds (completed sha256 now rec cap) })
  completed-IsInterrupted rec cap store h = record {
    record_file = refl;
    capability_file = h.capability_file;
    readable = completed-readable rec cap h.readable h.capable;
    capable = h.capable;
    same_token =
        completed_cases (λ r. r.root_token ≡ cap.root_token) rec cap (λ e. h.same_token)
          (λ e. h.same_token);
    same_generation =
        completed_cases (λ r. r.generation ≡ cap.generation) rec cap (λ e. h.same_generation)
          (λ e. h.same_generation);
    marked = h.marked;
    bound = still store.binding_file h.bound;
  }
    where
      still :
          (f : File RootBinding) → IsBound rec cap f → IsBound (completed sha256 now rec cap) cap f
      still missing b = completed-is_removed rec cap
      still damaged b = b
      still (holds k) (i, n, t) =
          completed_cases
            (λ r. (k.id ≡ r.id) × (k.root_name ≡ cap.root_name) × (k.root_token ≡ r.root_token)) rec
            cap (λ e. (i, n, t)) (λ e. (i, n, t))

-- The tests of Recover on what was interrupted.
module _ (id : Bytes) (named : valid_id id ≡ true) (rec : Record) (cap : Capability) (store : Store)
    (h : IsInterrupted id rec cap store) where
  pub interrupted-record : read_record id store ≡ present rec
  interrupted-record =
      checked-holds (valid_record id) store.record_file rec h.record_file h.readable

  pub interrupted-capability : read_capability id store ≡ present cap
  interrupted-capability =
      checked-holds (valid_capability id) store.capability_file cap h.capability_file h.capable

  record_id : rec.id ≡ id
  record_id = bytes_eq→eq rec.id id (&&_elim (bytes_eq rec.id id) _ h.readable).0

  pub interrupted-paired : valid_binding rec cap ≡ true
  interrupted-paired =
      let c = bytes_eq→eq cap.id id (&&_elim (bytes_eq cap.id id) _ h.capable).0 in
      &&_intro _ _ ((bytes_eq_iff rec.id cap.id).1 (record_id ∙ sym c)) (
        &&_intro _ _ ((bytes_eq_iff rec.root_token cap.root_token).1 h.same_token)
          ((==_iff rec.generation cap.generation).1 h.same_generation))

  root_named : is_root_name cap.root_name ≡ true
  root_named =
      let (a, v) = &&_elim (bytes_eq cap.id id) _ h.capable in
      (&&_elim (is_root_name cap.root_name) _ v).0

  token_length : (length rec.root_token == 64) ≡ true
  token_length = let v = h.readable in ground arith

  pub interrupted-agreed :
      binding_disagrees rec cap (read_root_binding rec.id cap.root_name store) ≡ false
  interrupted-agreed = rw root_named (agreed store.binding_file h.bound)
    where
      agreed :
          (f : File RootBinding)
          → IsBound rec cap f
          → binding_disagrees rec cap (checked (valid_root_binding rec.id cap.root_name) f) ≡ false
      agreed missing b = rw (b, h.marked) refl
      agreed damaged b = absurd b
      agreed (holds k) (i, n, t) =
          let v : valid_root_binding rec.id cap.root_name k ≡ true =
            &&_intro _ _ (subst (λ x. valid_id x ≡ true) (sym (i ∙ record_id)) named) (
              &&_intro _ _ ((bytes_eq_iff k.root_name cap.root_name).1 n)
                (subst (λ x. (length x == 64) ≡ true) (sym t) token_length)) in
          let e : binding_disagrees rec cap (present k) ≡ false =
            rw ((bytes_eq_iff k.id rec.id).1 i) (
              rw ((bytes_eq_iff k.root_name cap.root_name).1 n)
                (rw ((bytes_eq_iff k.root_token rec.root_token).1 t) refl)) in
          rw v e

pub settled-record :
    (id : Bytes) (rec : Record) (store : Store)
    → IsSettled id rec store
    → read_record id store ≡ present rec
settled-record id rec store h =
    checked-holds (valid_record id) store.record_file rec h.record_file h.readable
