-- ===== src/Launch/Runtime.antt =====
-- internal/launch/sandbox.go: RuntimeAuthority, its default and normalizeRuntimeAuthority.
pub mod Normal
use ai_config_selector.Prelude.{
  Bool, true, false, not, ◌&&◌, ◌==◌, ◌≡◌, ◌↔◌, arith, if◌then◌else◌, List, [], ◌∷◌, Result, ok,
  ◌>>=◌, ◌>>◌, refuse_if, map_err,
}
use ai_config_selector.Prelude.Bytes.{Bytes, codes}
use ai_config_selector.Prelude.Int.{ℤ, pos}
use ai_config_selector.Intent.Network.{NetworkError, canonical}
use native.Mathlib.Decide.{ℕ_discrete}

pub record RuntimeAuthority : Type 0 where
  pub version : ℤ
  pub process_mode : Bytes
  pub system_read_mode : Bytes
  pub metadata_mode : Bytes
  pub session_access : Bytes
  pub network_mode : Bytes
  pub loopback_ports : List ℤ
  pub codex_login_callback : Bool
  pub terminal_mode : Bytes
  pub device_mode : Bytes
  pub fixed_path : Bytes
  pub synthetic_environment_names : List Bytes
  pub inherited_environment_names : List Bytes
  pub sysctl_names : List Bytes
  pub mach_services : List Bytes

-- RuntimeAuthority{}
abbrev pub no_authority : RuntimeAuthority
no_authority = record {
  version = pos 0;
  process_mode = [];
  system_read_mode = [];
  metadata_mode = [];
  session_access = [];
  network_mode = [];
  loopback_ports = [];
  codex_login_callback = false;
  terminal_mode = [];
  device_mode = [];
  fixed_path = [];
  synthetic_environment_names = [];
  inherited_environment_names = [];
  sysctl_names = [];
  mach_services = [];
}

abbrev pub safe_process_path : Bytes
safe_process_path = codes "/usr/local/bin:/usr/bin:/bin"

unfoldable pub default_runtime_authority : RuntimeAuthority
default_runtime_authority = record no_authority {
  version = pos 1;
  process_mode = codes "same-sandbox-descendants";
  system_read_mode = codes "bounded-macos-runtime";
  metadata_mode = codes "executable-and-session-ancestors";
  session_access = codes "private-read-write";
  network_mode = codes "local-ip-socket-bind-no-listen-coarse-outbound-ip-macos-dns";
  terminal_mode = codes "attached-pty-signals-resize";
  device_mode = codes "inherited-and-owned-pty-random-null-fd";
  fixed_path = safe_process_path;
  synthetic_environment_names =
      codes "HOME"
      ∷ codes "XDG_CONFIG_HOME"
      ∷ codes "XDG_DATA_HOME"
      ∷ codes "XDG_CACHE_HOME"
      ∷ codes "XDG_STATE_HOME"
      ∷ codes "TMPDIR"
      ∷ [];
  inherited_environment_names =
      codes "TERM" ∷ codes "COLORTERM" ∷ codes "LANG" ∷ codes "LC_ALL" ∷ codes "LC_CTYPE" ∷ [];
  sysctl_names = codes "hw.pagesize" ∷ codes "hw.pagesize_compat" ∷ codes "hw.ncpu" ∷ [];
  mach_services = codes "com.apple.SecurityServer" ∷ codes "com.apple.trustd.agent" ∷ [];
}

-- reflect.DeepEqual, which also tells a nil slice from an empty one: an empty list stands for nil, as
-- the copies that normalizeRuntimeAuthority makes of the ports are.
int_discrete : Discrete ℤ
int_discrete = hlevel ℕ_discrete

authority_discrete : Discrete RuntimeAuthority
authority_discrete = hlevel (ℕ_discrete, int_discrete)

unfoldable pub deep_equal : RuntimeAuthority → RuntimeAuthority → Bool
unfolding int_discrete authority_discrete ℕ_discrete
deep_equal v w = elim (authority_discrete v w) [ yes e ↦ true | no n ↦ false ]

pub deep_equal_iff : (v w : RuntimeAuthority) → (deep_equal v w ≡ true) ↔ (v ≡ w)
unfolding deep_equal
deep_equal_iff v w = ground arith

pub data RuntimeError : Type 0 where
  unsupported_authority : RuntimeError
  bad_ports : NetworkError → RuntimeError
  bad_callback : RuntimeError

-- The one port of the login callback.
abbrev pub is_callback_port : List ℤ → Bool
is_callback_port (pos p ∷ []) = p == 1455
is_callback_port _ = false

abbrev pub allowed_authority : List ℤ → Bool → RuntimeAuthority
allowed_authority ports callback = record default_runtime_authority {
  loopback_ports = ports;
  codex_login_callback = callback;
}

abbrev pub is_zero : ℤ → Bool
is_zero (pos n) = n == 0
is_zero _ = false

-- What follows the check of the ports.
unfoldable pub narrow : RuntimeAuthority → List ℤ → Result RuntimeError RuntimeAuthority
unfolding deep_equal
narrow value ports = do
  refuse_if (value.codex_login_callback && not (is_callback_port ports)) bad_callback
  let narrowed = record value { loopback_ports = ports }
  refuse_if (not (deep_equal narrowed (allowed_authority ports value.codex_login_callback)))
      unsupported_authority
  ok narrowed

unfoldable pub normalize_runtime_authority : RuntimeAuthority → Result RuntimeError RuntimeAuthority
unfolding deep_equal narrow
normalize_runtime_authority value =
    if is_zero value.version
    then (refuse_if (not (deep_equal value no_authority)) unsupported_authority
        >> ok default_runtime_authority)
    else (map_err bad_ports (canonical value.loopback_ports) >>= narrow value)
