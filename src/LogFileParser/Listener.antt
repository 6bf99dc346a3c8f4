-- ===== src/LogFileParser/Listener.antt =====
-- parse/LogFileParser.java: the loop with a listener whose `output` changes a state and may throw.
use logful_api.Base.{
  ℕ, zero, suc, ◌≡◌, refl, Bool, true, false, List, [], ◌∷◌, Option, none, some, length,
}
use logful_api.ByteUtil.{Bytes}
use logful_api.StringUtil.{Text}
use logful_api.LogFileParser.{
  Decryption, Event, Flow, next, halt, thrown, Reader, Parsed, parsed, out_of_fuel, emit,
  parse_line, parse_loop, parse,
}

-- A call of `output`: the state after it, and whether it returns.
abbrev pub Output : Type 0 → Type 0
Output S = Event → S → S × Bool

module _ {S : Type 0} (output : Output S) where
  -- What follows a call of `output`. An exception leaves the loop with `successful` still true.
  abbrev on_return : (S → Option (S × Bool)) → S × Bool → Option (S × Bool)
  on_return k (st, true) = k st
  on_return k (st, false) = some (st, true)

  -- The loop; what comes out is the state and what `result` is called with.
  unfoldable pub parse_loop_to : Reader (Option Event) → ℕ → Bytes → S → Option (S × Bool)
  parse_loop_to line zero s st = none
  parse_loop_to line (suc fuel) s st = elim (line s) [
    | next (e, rest) ↦ elim e [
      | none ↦ parse_loop_to line fuel rest st
      | some f ↦ on_return (parse_loop_to line fuel rest) (output f st)
    ]
    | halt successful ↦ some (st, successful)
    | thrown ↦ some (st, true)
  ]

  unfoldable pub parse_to : Decryption → Text → Bool → Option Bytes → Bytes → S → Option (S × Bool)
  unfolding parse_loop_to
  parse_to crypto app_id compatible security s st =
      parse_loop_to (parse_line crypto app_id compatible security) (suc (length s)) s st

  -- The events one after another, up to the first on which the listener throws.
  abbrev pub or_stop : (S → S × Bool) → S × Bool → S × Bool
  or_stop k (st, true) = k st
  or_stop k (st, false) = (st, true)

  unfoldable pub deliver : List Event → Bool → S → S × Bool
  deliver [] b st = (st, b)
  deliver (e ∷ es) b st = or_stop (deliver es b) (output e st)

  on_return-some :
      (k : S → Option (S × Bool)) (k' : S → S × Bool) (r : S × Bool)
      → ((st : S) → k st ≡ some (k' st))
      → on_return k r ≡ some (or_stop k' r)
  on_return-some k k' (st, true) h = h st
  on_return-some k k' (st, false) h = refl

  -- The result is that of the calls that the parser makes.
  abbrev Delivers : Parsed → S → Option (S × Bool) → Type 0
  Delivers (parsed es b) st r = r ≡ some (deliver es b st)
  Delivers out_of_fuel st r = Unit

  emit-Delivers :
      (e : Event) (p : Parsed) (st : S) (k : S → Option (S × Bool))
      → ((st : S) → Delivers p st (k st))
      → Delivers (emit (some e) p) st (on_return k (output e st))
  unfolding deliver
  emit-Delivers e (parsed es b) st k h = on_return-some k (deliver es b) (output e st) h
  emit-Delivers e out_of_fuel st k h = tt

  parse_loop-Delivers :
      (line : Reader (Option Event)) (fuel : ℕ) (s : Bytes) (st : S)
      → Delivers (parse_loop line fuel s) st (parse_loop_to line fuel s st)
  unfolding parse_loop parse_loop_to deliver
  parse_loop-Delivers line zero s st = tt
  parse_loop-Delivers line (suc fuel) s st = go (line s) refl (parse_loop-Delivers line fuel)
    where
      go :
          (r : Flow (Option Event × Bytes))
          → line s ≡ r
          → ((s : Bytes) (st : S)
              → Delivers (parse_loop line fuel s) st (parse_loop_to line fuel s st))
          → Delivers (parse_loop line (suc fuel) s) st (parse_loop_to line (suc fuel) s st)
      go (next (none, rest)) q ih = rw (parse_loop, parse_loop_to, q) (ih rest st)
      go (next (some e, rest)) q ih =
          rw (parse_loop, parse_loop_to, q)
            (emit-Delivers e (parse_loop line fuel rest) st (parse_loop_to line fuel rest)
              (ih rest))
      go (halt c) q ih = rw (parse_loop, parse_loop_to, q) refl
      go thrown q ih = rw (parse_loop, parse_loop_to, q) refl

  -- A file of which `parse` makes the calls `es` and `b`: with a listener that may throw the calls
  -- are the same, up to the first that throws, and `result` is then called with true.
  pub parse_to-parse :
      (crypto : Decryption) (app_id : Text) (compatible : Bool) (security : Option Bytes)
      (s : Bytes) (st : S) {es : List Event} {b : Bool}
      → parse crypto app_id compatible security s ≡ parsed es b
      → parse_to crypto app_id compatible security s st ≡ some (deliver es b st)
  unfolding parse parse_to
  parse_to-parse crypto app_id compatible security s st h =
      rw h at
        (parse_loop-Delivers (parse_line crypto app_id compatible security) (suc (length s)) s st)
