-- ===== src/LogFileParser/Progress.antt =====
-- parse/LogFileParser.java: the loop ends on every input, well formed or not.
use logful_api.Base.{
  ℕ, zero, suc, ◌≡◌, ◌<◌, ◌≢◌, Bool, true, List, [], Option, none, some, arith, length, refl,
}
use logful_api.ByteUtil.{Bytes}
use logful_api.StringUtil.{Text}
use logful_api.LogFileParser.{
  Flow, next, halt, thrown, Reader, Event, Decryption, Parsed, parsed, out_of_fuel, emit,
  parse_line, parse_loop, parse,
}
use logful_api.LogFileParser.Behaves.{Took, Behaves, parse_line-Behaves}

emit-ne-out_of_fuel : (e : Option Event) (p : Parsed) → p ≢ out_of_fuel → emit e p ≢ out_of_fuel
emit-ne-out_of_fuel none p h = h
emit-ne-out_of_fuel (some e) (parsed es b) h = λ q. cc
emit-ne-out_of_fuel (some e) out_of_fuel h = h

module _ (line : Reader (Option Event)) where
  -- One round, on the result of its line.
  pub parse_loop-next :
      (fuel : ℕ) (s : Bytes) {e : Option Event} {rest : Bytes}
      → line s ≡ next (e, rest)
      → parse_loop line (suc fuel) s ≡ emit e (parse_loop line fuel rest)
  unfolding parse_loop
  parse_loop-next fuel s h = rw (h, parse_loop)

  pub parse_loop-halt :
      (fuel : ℕ) (s : Bytes) {b : Bool}
      → line s ≡ halt b
      → parse_loop line (suc fuel) s ≡ parsed [] b
  unfolding parse_loop
  parse_loop-halt fuel s h = rw (h, parse_loop)

  pub parse_loop-thrown :
      (fuel : ℕ) (s : Bytes) → line s ≡ thrown → parse_loop line (suc fuel) s ≡ parsed [] true
  unfolding parse_loop
  parse_loop-thrown fuel s h = rw (h, parse_loop)

  parse_loop-ne-out_of_fuel :
      Behaves 2 line
      → (fuel : ℕ) (s : Bytes) → length s < fuel
      → parse_loop line fuel s ≢ out_of_fuel
  parse_loop-ne-out_of_fuel behaves zero s h = absurd (omega arith)
  parse_loop-ne-out_of_fuel behaves (suc fuel) s h =
      go (line s) refl (behaves.took s) (parse_loop-ne-out_of_fuel behaves fuel)
    where
      go :
          (r : Flow (Option Event × Bytes))
          → line s ≡ r
          → Took 2 s r
          → ((rest : Bytes) → length rest < fuel → parse_loop line fuel rest ≢ out_of_fuel)
          → parse_loop line (suc fuel) s ≢ out_of_fuel
      go (next (e, rest)) q t ih =
          rw (parse_loop-next fuel s q) (emit-ne-out_of_fuel e _ (ih rest (omega arith)))
      go (halt b) q t ih = rw (parse_loop-halt fuel s q) (λ p. cc)
      go thrown q t ih = rw (parse_loop-thrown fuel s q) (λ p. cc)

Parsed-result : (p : Parsed) → p ≢ out_of_fuel → (es : List Event) × (b : Bool) × (p ≡ parsed es b)
Parsed-result (parsed es b) h = (es, b, refl)
Parsed-result out_of_fuel h = absurd (h refl)

-- On every input the parser's loop ends: the listener gets a list of events and a result.
pub parse_total :
    (crypto : Decryption) (app_id : Text) (compatible : Bool) (security : Option Bytes) (s : Bytes)
    → (es : List Event) × (b : Bool) × (parse crypto app_id compatible security s ≡ parsed es b)
unfolding parse
parse_total crypto app_id compatible security s =
    let line = parse_line crypto app_id compatible security in
    Parsed-result _ (
      parse_loop-ne-out_of_fuel line (parse_line-Behaves crypto app_id compatible security)
        (suc (length s)) s (omega arith))
