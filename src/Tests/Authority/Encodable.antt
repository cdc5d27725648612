-- ===== src/Tests/Authority/Encodable.antt =====
-- A test by which the facts of a concrete Plan are seen to be encodable.
use ai_config_selector.Authority.Facts.{FactValue, Fact, Facts}
use ai_config_selector.Authority.Encoding.{canonical_fact_encoding}
use ai_config_selector.Authority.Encoding.Splits.{IsInt, OptionIs}
use ai_config_selector.Authority.Encoding.Sections.{HidesNothing}
use ai_config_selector.Authority.Explain.Reorder.{IsEncodable, AllEncodable}
use ai_config_selector.Authority.Recipe.{is_empty}
use ai_config_selector.Prelude.{
  ◌^◌, ◌≡◌, Bool, true, ◌&&◌, ◌||◌, ltb, Option, none, some, List, [], ◌∷◌, All, length, &&_elim,
  arith,
}
use ai_config_selector.Prelude.Int.{ℤ, pos, negsuc}

is_int : ℤ → Bool
is_int (pos n) = ltb n (2 ^ 63)
is_int (negsuc n) = ltb n (2 ^ 63)

is_count : Option ℤ → Bool
is_count none = true
is_count (some n) = is_int n

hides_nothing : FactValue → Bool
hides_nothing v =
    v.mcp_present
    || (is_empty v.mcp_arguments
        && (is_empty v.mcp_environment_references && is_empty v.mcp_disabled_tools))

unfoldable pub is_encodable : Fact → Bool
unfolding is_int is_count hides_nothing
is_encodable f =
    (is_int f.source.version && is_count f.value.count)
    && (hides_nothing f.value && ltb (length (canonical_fact_encoding f)) (2 ^ 64))

unfoldable pub all_encodable : List Fact → Bool
all_encodable [] = true
all_encodable (f ∷ fs) = is_encodable f && all_encodable fs

unfoldable pub facts_are_encodable : Facts → Bool
facts_are_encodable facts =
    (all_encodable facts.requested && all_encodable facts.target_added)
    && (all_encodable facts.effective && all_encodable facts.unsupported)

IsInt_of_test : (n : ℤ) → is_int n ≡ true → IsInt n
unfolding is_int
IsInt_of_test (pos n) h = ground arith
IsInt_of_test (negsuc n) h = ground arith

count_of_test : (n : Option ℤ) → is_count n ≡ true → OptionIs IsInt n
unfolding is_count
count_of_test none h = tt
count_of_test (some n) h = IsInt_of_test n h

HidesNothing_of_test : (v : FactValue) → hides_nothing v ≡ true → HidesNothing v
unfolding hides_nothing
HidesNothing_of_test v h p = (ground arith, ground arith, ground arith)

IsEncodable-of_test : (f : Fact) → is_encodable f ≡ true → IsEncodable f
unfolding is_encodable
IsEncodable-of_test f h =
    let (numbers, rest) =
      &&_elim (is_int f.source.version && is_count f.value.count) (hides_nothing f.value && _) h in
    let (version, count) = &&_elim (is_int f.source.version) (is_count f.value.count) numbers in
    let (hidden, short) = &&_elim (hides_nothing f.value) _ rest in
    (
      record {
        version = IsInt_of_test f.source.version version;
        value = record {
          count = count_of_test f.value.count count;
          hides_nothing = HidesNothing_of_test f.value hidden;
        };
      },
      ground arith,
    )

All_of_test : (fs : List Fact) → all_encodable fs ≡ true → All IsEncodable fs
unfolding all_encodable
All_of_test [] h = tt
All_of_test (f ∷ fs) h =
    let (first, rest) = &&_elim (is_encodable f) (all_encodable fs) h in
    (IsEncodable-of_test f first, All_of_test fs rest)

pub AllEncodable-of_test : (facts : Facts) → facts_are_encodable facts ≡ true → AllEncodable facts
unfolding facts_are_encodable
AllEncodable-of_test facts h =
    let (front, back) =
      &&_elim (all_encodable facts.requested && all_encodable facts.target_added)
        (all_encodable facts.effective && all_encodable facts.unsupported) h in
    let (a, b) = &&_elim (all_encodable facts.requested) (all_encodable facts.target_added) front in
    let (c, d) = &&_elim (all_encodable facts.effective) (all_encodable facts.unsupported) back in
    record {
      requested = All_of_test facts.requested a;
      target_added = All_of_test facts.target_added b;
      effective = All_of_test facts.effective c;
      unsupported = All_of_test facts.unsupported d;
    }
