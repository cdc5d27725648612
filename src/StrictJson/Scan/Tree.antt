-- ===== src/StrictJson/Scan/Tree.antt =====
-- internal/strictjson/scan.go: the JSON values that Scan is to accept, described by themselves.
use ai_config_selector.StrictJson.Scan.{Event, text, scalar, open_object, open_array, close, Limits}
use ai_config_selector.Prelude.{ℕ, suc, ◌+◌, ◌≤◌, ◌≡◌, ◌≢◌, ◌⊎◌, false, List, ◌∷◌, length, Bool}
use ai_config_selector.Prelude.Bytes.{Bytes}

mutual
  pub data Json : Type 0 where
    string : Bytes → Json
    atom : Json
    object : Members → Json
    array : Items → Json

  pub data Members : Type 0 where
    no_members : Members
    member : Bytes → Json → Members → Members

  pub data Items : Type 0 where
    no_items : Items
    item : Json → Items → Items

-- The tokens of a value, and then `rest`.
unfoldable mutual
  pub emit : Json → List Event → List Event
  emit (string t) rest = text t ∷ rest
  emit atom rest = scalar ∷ rest
  emit (object ms) rest = open_object ∷ emit_members ms (close ∷ rest)
  emit (array is) rest = open_array ∷ emit_items is (close ∷ rest)

  pub emit_members : Members → List Event → List Event
  emit_members no_members rest = rest
  emit_members (member name v ms) rest = text name ∷ emit v (emit_members ms rest)

  pub emit_items : Items → List Event → List Event
  emit_items no_items rest = rest
  emit_items (item v is) rest = emit v (emit_items is rest)

-- The number of values and keys.
unfoldable mutual
  pub tokens : Json → ℕ
  tokens (string t) = 1
  tokens atom = 1
  tokens (object ms) = suc (tokens_of_members ms)
  tokens (array is) = suc (tokens_of_items is)

  pub tokens_of_members : Members → ℕ
  tokens_of_members no_members = 0
  tokens_of_members (member name v ms) = suc (tokens v + tokens_of_members ms)

  pub tokens_of_items : Items → ℕ
  tokens_of_items no_items = 0
  tokens_of_items (item v is) = tokens v + tokens_of_items is

unfoldable pub count_members : Members → ℕ
count_members no_members = 0
count_members (member name v ms) = suc (count_members ms)

unfoldable pub count_items : Items → ℕ
count_items no_items = 0
count_items (item v is) = suc (count_items is)

-- A maximum of zero allows everything.
abbrev pub Within : ℕ → ℕ → Type 0
Within n maximum = (maximum ≡ 0) ⊎ (n ≤ maximum)

-- No member has the name.
abbrev pub Unnamed : Bytes → Members → Type 0
Unnamed name no_members = Unit
Unnamed name (member other v ms) = (name ≢ other) × Unnamed name ms

module _ (limits : Limits) (reject_key : Bytes → Bool) where
  -- A value at the depth `depth` keeps the limits on nesting, texts, members and items, its objects have
  -- distinct names, and none of them is rejected.
  unfoldable mutual
    pub Conforms : ℕ → Json → Type 0
    Conforms depth (string t) =
        (depth ≤ limits.max_depth) × Within (length t) limits.max_string_bytes
    Conforms depth atom = depth ≤ limits.max_depth
    Conforms depth (object ms) =
        (depth ≤ limits.max_depth)
        × Within (count_members ms) limits.max_members
        × MembersConform depth ms
    Conforms depth (array is) =
        (depth ≤ limits.max_depth)
        × Within (count_items is) limits.max_array
        × ItemsConform depth is

    pub MembersConform : ℕ → Members → Type 0
    MembersConform depth no_members = Unit
    MembersConform depth (member name v ms) =
        Within (length name) limits.max_string_bytes
        × (reject_key name ≡ false)
        × Unnamed name ms
        × Conforms (suc depth) v
        × MembersConform depth ms

    pub ItemsConform : ℕ → Items → Type 0
    ItemsConform depth no_items = Unit
    ItemsConform depth (item v is) = Conforms (suc depth) v × ItemsConform depth is
