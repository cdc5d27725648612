-- ===== src/StrictJson/Scan/Accepts.antt =====
-- internal/strictjson/scan.go: what Scan accepts, and that it ends.
use ai_config_selector.StrictJson.Scan.{Event, Limits, value, at_end, scan}
use ai_config_selector.StrictJson.Scan.Tree.{Json, emit, tokens, Within, Conforms}
use ai_config_selector.StrictJson.Scan.Sound.{sound}
use ai_config_selector.StrictJson.Scan.Complete.{need_whole, reads}
use ai_config_selector.Prelude.{
  ℕ, suc, ◌*◌, ◌≡◌, ◌↔◌, refl, ap, ◌∙◌, Bool, List, [], ◌∷◌, ok, ◌>>=◌, >>=-parts, length, subst,
  arith,
}
use ai_config_selector.Prelude.Bytes.{Bytes}

module _ (limits : Limits) (reject_key : Bytes → Bool) where
  -- The tokens of one value that keeps the limits, and nothing behind it.
  pub record IsDocument (events : List Event) : Type 0 where
    pub document : Json
    pub whole : events ≡ emit document []
    pub conforms : Conforms limits reject_key 0 document
    pub within : Within (tokens document) limits.max_tokens

  ended : (r : ℕ × List Event) → at_end limits reject_key r ≡ ok tt → r.1 ≡ []
  ended (n, []) h = refl
  ended (n, e ∷ es) h = cc

  scan-IsDocument :
      (events : List Event) → scan limits reject_key events ≡ ok tt → IsDocument events
  unfolding scan
  scan-IsDocument events h =
      let fuel = suc (2 * length events) in
      let (r, first, end) = >>=-parts (value limits reject_key fuel 0 0 events) _ h in
      let v = (sound limits reject_key fuel).0 0 0 events r.0 r.1 first in
      record {
        document = v.read;
        whole = v.emitted ∙ ap (emit v.read) (ended r end);
        conforms = v.conforms;
        within = subst (λ n. Within n limits.max_tokens) (omega (arith, v.counted)) v.within;
      }

  scan_of_IsDocument :
      (events : List Event) → IsDocument events → scan limits reject_key events ≡ ok tt
  unfolding scan
  scan_of_IsDocument events d = rw (d.whole) (
      ap (λ r. r >>= at_end limits reject_key)
        (reads limits reject_key d.document _ 0 0 [] d.conforms
          (subst (λ n. Within n limits.max_tokens) (omega arith) d.within) (need_whole d.document)))

-- Scan accepts exactly the token sequences of one JSON value whose nesting, tokens, members, items and
-- decoded strings keep the limits, where every object has distinct keys and no key is rejected, with
-- nothing behind the value.
pub scan_iff :
    (limits : Limits) (reject_key : Bytes → Bool) (events : List Event)
    → (scan limits reject_key events ≡ ok tt) ↔ IsDocument limits reject_key events
scan_iff limits reject_key events =
    (scan-IsDocument limits reject_key events, scan_of_IsDocument limits reject_key events)
