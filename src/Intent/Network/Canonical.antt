-- ===== src/Intent/Network/Canonical.antt =====
-- Canonical of internal/networkintent/network.go: it accepts exactly the sets of ports.
use ai_config_selector.Prelude.{
  ℕ, ◌≤◌, false, ◌||◌, ◌≡◌, ◌≢◌, ◌↔◌, refl, ap, List, [], ◌∷◌, Option, none, some, Result, ok, ltb,
  length, All, arith, refuse_if-parts, >>=-parts, ok-injective, Bool-cases, inl, inr, subst,
}
use mathlib.Core.List.{Permᴰ}
use mathlib.Core.List.Permᴰ
use ai_config_selector.Prelude.Int.{ℤ, pos, negsuc, ltb_ℤ, ltb_ℤ_total, int_order}
use ai_config_selector.Prelude.Distinct.{Distinct, All-perm, Distinct-perm}
use ai_config_selector.Prelude.Sort.{
  sort_by, sort_by-perm, sort_by-IsAscending, sort_by-IsSorted, IsSorted, IsSorted-Distinct,
  IsSorted-unique, Unrepeated, IsSorted-of_Unrepeated, Unrepeated-of_Distinct,
}
use ai_config_selector.Intent.Network.{
  NetworkError, too_many_ports, port_out_of_range, duplicate_port, check_ports, canonical,
  max_loopback_ports, repeats, int_eq,
}

abbrev pub key : ℤ → ℤ
key p = p

pub IsPort : ℤ → Type 0
IsPort (pos n) = (1 ≤ n) × (n ≤ 65535)
IsPort (negsuc n) = ⊥

IsPort-of_test : (p : ℤ) → (ltb_ℤ p (pos 1) || ltb_ℤ (pos 65535) p) ≡ false → IsPort p
unfolding IsPort
IsPort-of_test (pos n) h = ground arith
IsPort-of_test (negsuc n) h = cc

test_of_IsPort : (p : ℤ) → IsPort p → (ltb_ℤ p (pos 1) || ltb_ℤ (pos 65535) p) ≡ false
unfolding IsPort
test_of_IsPort (pos n) h = ground arith
test_of_IsPort (negsuc n) h = absurd h

int_eq-false : (a b : ℤ) → int_eq a b ≡ false → a ≢ b
int_eq-false a b h e = ground arith

int_eq_of_ne : (a b : ℤ) → a ≢ b → int_eq a b ≡ false
int_eq_of_ne a b h = elim (Bool-cases (int_eq a b)) [
  | inr e ↦ e
  | inl e ↦ absurd (h (ltb_ℤ_total a b (ground arith) (ground arith)))
]

-- What the loop establishes behind the port that it has seen last.
abbrev After : Option ℤ → List ℤ → Type 0
After none ps = Unrepeated key ps
After (some q) ps = Unrepeated key (q ∷ ps)

After-cons :
    (q : Option ℤ) (p : ℤ) (ps : List ℤ)
    → repeats q p ≡ false
    → Unrepeated key (p ∷ ps)
    → After q (p ∷ ps)
After-cons none p ps h u = u
After-cons (some q) p ps h u = (int_eq-false q p h, u)

After-uncons :
    (q : Option ℤ) (p : ℤ) (ps : List ℤ)
    → After q (p ∷ ps)
    → (repeats q p ≡ false) × Unrepeated key (p ∷ ps)
After-uncons none p ps u = (refl, u)
After-uncons (some q) p ps u = (int_eq_of_ne q p u.0, u.1)

After-nil : (q : Option ℤ) → After q []
After-nil none = tt
After-nil (some q) = tt

check_ports-After :
    (q : Option ℤ) (ps : List ℤ) → check_ports q ps ≡ ok tt → All IsPort ps × After q ps
unfolding check_ports
check_ports-After q [] h = (tt, After-nil q)
check_ports-After q (p ∷ ps) h =
    let (a, k) = refuse_if-parts (ltb_ℤ p (pos 1) || ltb_ℤ (pos 65535) p) port_out_of_range _ h in
    let (b, l) = refuse_if-parts (repeats q p) duplicate_port (check_ports (some p) ps) k in
    let (ports, u) = check_ports-After (some p) ps l in
    ((IsPort-of_test p a, ports), After-cons q p ps b u)

check_ports_of_After :
    (q : Option ℤ) (ps : List ℤ) → All IsPort ps → After q ps → check_ports q ps ≡ ok tt
unfolding check_ports
check_ports_of_After q [] a u = refl
check_ports_of_After q (p ∷ ps) a u =
    let (b, v) = After-uncons q p ps u in
    rw (test_of_IsPort p a.0, b) (check_ports_of_After (some p) ps a.1 v)

-- A selection of ports that is accepted, and what is returned for it.
pub record IsPortSet (ps cs : List ℤ) : Type 0 where
  pub few : length ps ≤ max_loopback_ports
  pub ports : All IsPort ps
  pub distinct : Distinct key ps
  pub same : Permᴰ ps cs
  pub sorted : IsSorted key cs

unit_result : (m : Result NetworkError (Unit {0})) (u : Unit {0}) → m ≡ ok u → m ≡ ok tt
unit_result m tt h = h

canonical-IsPortSet : (ps cs : List ℤ) → canonical ps ≡ ok cs → IsPortSet ps cs
unfolding canonical
canonical-IsPortSet ps cs h =
    let (t, k) = refuse_if-parts (ltb max_loopback_ports (length ps)) too_many_ports _ h in
    let s = sort_by key ps in
    let (u, c, l) = >>=-parts (check_ports none s) (λ _. ok s) k in
    let (ports, unrepeated) = check_ports-After none s (unit_result (check_ports none s) u c) in
    let sorted = IsSorted-of_Unrepeated key s (sort_by-IsAscending key ps) unrepeated in
    let p = sort_by-perm key ps in
    subst (IsPortSet ps) (ok-injective l) (record {
      few = ground arith;
      ports = All-perm IsPort p ports;
      distinct = Distinct-perm key p (IsSorted-Distinct key s sorted);
      same = Permᴰ.symm p;
      sorted = sorted;
    })

canonical_of_IsPortSet : (ps cs : List ℤ) → IsPortSet ps cs → canonical ps ≡ ok cs
unfolding canonical
canonical_of_IsPortSet ps cs h =
    let p = sort_by-perm key ps in
    let sorted = sort_by-IsSorted key ps h.distinct in
    let e : sort_by key ps ≡ cs = IsSorted-unique key (Permᴰ.trans p h.same) sorted h.sorted in
    let back = Permᴰ.symm p in
    rw
      (
        fits (length ps) h.few,
        check_ports_of_After none (sort_by key ps) (All-perm IsPort back h.ports) (
            Unrepeated-of_Distinct key (sort_by key ps)
              (IsSorted-Distinct key (sort_by key ps) sorted)),
      )
      (ap ok e)
  where
    fits : (n : ℕ) → n ≤ max_loopback_ports → ltb max_loopback_ports n ≡ false
    fits n h = ground arith

-- Canonical returns `cs` for the loopback ports `ps` exactly if there are at most 64 of them, each
-- is from 1 to 65535, no two are the same, and `cs` is their reordering into strictly ascending
-- order.
pub canonical_ports_iff : (ps cs : List ℤ) → (canonical ps ≡ ok cs) ↔ IsPortSet ps cs
canonical_ports_iff ps cs = (canonical-IsPortSet ps cs, canonical_of_IsPortSet ps cs)
