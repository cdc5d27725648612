-- ===== src/Authority/Sandbox.antt =====
-- internal/authority/plan.go: runtimeFacts, the facts of the sandbox itself.
use ai_config_selector.Authority.Facts.{FactSource, FactValue, Fact, Facts}
use ai_config_selector.Authority.Intents.{no_value}
use ai_config_selector.Launch.Runtime.{RuntimeAuthority}
use ai_config_selector.Prelude.{
  ℕ, zero, suc, ◌+◌, ◌/◌, ◌%◌, Bool, ◌==◌, if◌then◌else◌, List, [], ◌∷◌, ◌++◌, map,
}
use ai_config_selector.Prelude.Bytes.{Bytes, codes}
use ai_config_selector.Prelude.Int.{ℤ, pos, negsuc}
use ai_config_selector.Intent.Mcp.{sort_strings}

abbrev native_sandbox : ℤ → FactSource
native_sandbox version = record {
  kind = codes "acs";
  id = codes "native-sandbox";
  version = version;
}

-- A fact of the kind "acs_runtime".
abbrev runtime_fact : ℤ → Bytes → Bytes → FactValue → Fact
runtime_fact version id kind value = record {
  id = codes "runtime." ++ id;
  kind = kind;
  value = value;
  reason = codes "acs_runtime";
  source = native_sandbox version;
}

abbrev mode_of : Bytes → FactValue
mode_of mode = record no_value { mode = mode }

abbrev names_of : List Bytes → FactValue
names_of names = record no_value { names = names }

abbrev refused_fact : Bytes → Bytes → Bytes → Bytes → Fact
refused_fact source id kind mode = record {
  id = codes "unsupported." ++ id;
  kind = kind;
  value = mode_of mode;
  reason = codes "not_supported";
  source = record { kind = codes "acs"; id = source; version = pos 0 };
}

abbrev codex_callback_scope : Bool → Bytes
codex_callback_scope enabled = if enabled then codes "codex-login-localhost-1455-inbound" else []

-- strconv.Itoa with `fuel` digits at most; twenty are enough for every 64-bit integer.
unfoldable pub digits : ℕ → ℕ → Bytes → Bytes
digits zero n behind = behind
digits (suc fuel) n behind =
    let rest = digits fuel (n / 10) ((b'0' + n % 10) ∷ behind) in
    if n / 10 == 0 then (b'0' + n % 10) ∷ behind else rest

abbrev pub itoa : ℤ → Bytes
itoa (pos n) = digits 20 n []
itoa (negsuc n) = b'-' ∷ digits 20 (suc n) []

abbrev loopback_port_names : List ℤ → List Bytes
loopback_port_names ports = sort_strings (map itoa ports)

abbrev session_destinations : List Bytes
session_destinations =
    codes "session-home"
    ∷ codes "session-temporary"
    ∷ codes "session-home/.config"
    ∷ codes "session-home/.local/share"
    ∷ codes "session-home/.cache"
    ∷ codes "session-home/.local/state"
    ∷ []

module _ (runtime : RuntimeAuthority) where
  abbrev fact : Bytes → Bytes → FactValue → Fact
  fact = runtime_fact runtime.version

  abbrev session_fact : Fact
  session_fact = record {
    id = codes "runtime.session";
    kind = codes "filesystem";
    value = record no_value { access = runtime.session_access };
    reason = codes "intrinsic_session";
    source = record { kind = codes "acs"; id = codes "session"; version = runtime.version };
  }

  abbrev environment_facts : List Fact
  environment_facts =
      fact (codes "environment") (codes "environment") (record no_value {
        mode = codes "conditional-inheritance-values-omitted";
        names = sort_strings runtime.inherited_environment_names;
      })
      ∷ fact (codes "environment.fixed-path") (codes "environment")
          (record no_value { mode = runtime.fixed_path; names = codes "PATH" ∷ [] })
      ∷ fact (codes "environment.synthetic") (codes "environment") (record no_value {
        mode = codes "session-relative-values-omitted";
        names = sort_strings runtime.synthetic_environment_names;
      })
      ∷ []

  abbrev network_facts : List Fact
  network_facts =
      fact (codes "network") (codes "network") (mode_of runtime.network_mode)
      ∷ fact (codes "network.loopback") (codes "network") (record no_value {
        mode = codes "denied-except-listed-ports-macos";
        names = loopback_port_names runtime.loopback_ports;
        scope = codex_callback_scope runtime.codex_login_callback;
      })
      ∷ []

  abbrev system_facts : List Fact
  system_facts =
      fact (codes "process") (codes "process") (mode_of runtime.process_mode)
      ∷ session_fact
      ∷ fact (codes "sysctls") (codes "sysctl") (names_of (sort_strings runtime.sysctl_names))
      ∷ fact (codes "system-read") (codes "filesystem")
          (record no_value { access = codes "read"; mode = runtime.system_read_mode })
      ∷ fact (codes "terminal") (codes "terminal") (mode_of runtime.terminal_mode)
      ∷ []

  unfoldable pub runtime_effective : List Fact
  runtime_effective =
      fact (codes "executable-visibility") (codes "executable-visibility")
        (mode_of (codes "non-exclusive-intrinsic-readable"))
      ∷ fact (codes "devices") (codes "device") (mode_of runtime.device_mode)
      ∷ (environment_facts
          ++ (fact (codes "mach-services") (codes "mach-service")
                (names_of (sort_strings runtime.mach_services))
              ∷ fact (codes "metadata") (codes "filesystem-metadata")
                  (mode_of runtime.metadata_mode)
              ∷ (network_facts ++ system_facts)))

  abbrev refused_facts : List Fact
  refused_facts =
      refused_fact (codes "native-sandbox") (codes "exclusive-execution-filtering")
        (codes "executable") (codes "non-exclusive-visibility-only")
      ∷ refused_fact (codes "native-sandbox") (codes "arbitrary-host-paths") (codes "filesystem")
          (codes "arbitrary-grants")
      ∷ refused_fact (codes "native-sandbox") (codes "host-environment") (codes "environment")
          (codes "arbitrary-values")
      ∷ refused_fact (codes "native-sandbox") (codes "network-destinations") (codes "network")
          (codes "general-destination-filtering")
      ∷ refused_fact (codes "native-sandbox") (codes "sandbox-bypass") (codes "isolation")
          (codes "bypass")
      ∷ refused_fact (codes "recipes") (codes "target-pass-through") (codes "target-control")
          (codes "arbitrary-options")
      ∷ refused_fact (codes "native-sandbox") (codes "raw-policy") (codes "isolation")
          (codes "caller-supplied")
      ∷ []

  unfoldable pub runtime_facts : Facts
  unfolding runtime_effective
  runtime_facts = record {
    requested = [];
    target_added =
        record {
          id = codes "runtime.session-destinations";
          kind = codes "session-destination";
          value = names_of session_destinations;
          reason = codes "intrinsic_session";
          source = record { kind = codes "acs"; id = codes "session"; version = runtime.version };
        }
        ∷ [];
    effective = runtime_effective;
    unsupported = refused_facts;
  }
