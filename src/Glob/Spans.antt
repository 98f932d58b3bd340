-- ===== src/Glob/Spans.antt =====
-- src/util/glob.c: the loop over a span of characters, which ends below the greatest one.
use cstone.Prelude.{
  ℕ, zero, suc, ◌+◌, ◌≤◌, ◌<◌, ◌≡◌, refl, sym, ap, ◌∙◌, Bool, true, false, ◌&&◌, ◌||◌, Option, none,
  some, leb, ◌==◌, Bool-cases, inl, inr, arith, u8, dec_lt, leb→le,
}
use cstone.Glob.{add_to_set, span_loop}

-- A span that ends at the greatest character never ends, whatever the fuel.
pub span_hangs :
    (fuel ch end_ch : ℕ) (set : ℕ → Bool)
    → 255 ≤ end_ch
    → ch ≤ end_ch
    → span_loop fuel ch end_ch set ≡ none
unfolding span_loop
span_hangs zero ch end_ch set top p = refl
span_hangs (suc fuel) ch end_ch set top p =
    let more : leb ch end_ch ≡ true = ground (arith, p) in
    rw more (span_hangs fuel (u8 (ch + 1)) end_ch (add_to_set ch set) top (omega (arith, top)))

unfoldable pub in_span : ℕ → ℕ → ℕ → Bool
in_span first end_ch ch = leb first ch && leb ch end_ch

-- What a result has in the place of a character.
at_char : ℕ → Option (ℕ → Bool) → Bool
at_char ch none = false
at_char ch (some set) = set ch

span_more :
    (first end_ch ch : ℕ) (b : Bool)
    → first ≤ end_ch
    → (in_span (first + 1) end_ch ch || (ch == first || b)) ≡ (in_span first end_ch ch || b)
unfolding in_span
span_more first end_ch ch true within = ground arith
span_more first end_ch ch false within = ground arith

none≢some : {A : Type 0} {a : A} → none ≡ some a → ⊥
none≢some e = ground (arith, e)

-- A span that ends adds the characters from its start to its end.
pub span_members :
    (fuel first end_ch : ℕ) (set set' : ℕ → Bool)
    → span_loop fuel first end_ch set ≡ some set'
    → (ch : ℕ) → set' ch ≡ (in_span first end_ch ch || set ch)
unfolding span_loop in_span add_to_set at_char
span_members zero first end_ch set set' e ch = absurd (none≢some e)
span_members (suc fuel) first end_ch set set' e ch = elim (Bool-cases (leb first end_ch)) [
  | inr stop ↦
      let q : span_loop (suc fuel) first end_ch set ≡ some set = rw stop refl in
      let outside : in_span first end_ch ch ≡ false = ground (arith, stop) in
      ap (at_char ch) (sym e ∙ q) ∙ rw outside refl
  | inl go ↦
      let within : first ≤ end_ch = leb→le first end_ch go in
      elim (dec_lt end_ch 255) [
        | no top ↦ absurd (
            none≢some
              (sym (span_hangs (suc fuel) first end_ch set (omega (arith, top)) within) ∙ e))
        | yes below ↦
            let next : u8 (first + 1) ≡ first + 1 = omega (arith, within, below) in
            let q : span_loop (suc fuel) first end_ch set
                ≡ span_loop fuel (first + 1) end_ch (add_to_set first set) =
              rw (go, next) refl in
            span_members fuel (first + 1) end_ch (add_to_set first set) set' (sym q ∙ e) ch
            ∙ span_more first end_ch ch (set ch) within
      ]
]

pub span_ends :
    (fuel first end_ch : ℕ) (set : ℕ → Bool)
    → end_ch < 255
    → end_ch + 2 ≤ first + fuel
    → 0 < fuel
    → (set' : (ℕ → Bool)) × (span_loop fuel first end_ch set ≡ some set')
unfolding span_loop
span_ends zero first end_ch set top enough some_fuel = absurd (omega (arith, some_fuel))
span_ends (suc fuel) first end_ch set top enough some_fuel = elim (dec_lt end_ch first) [
  | yes over ↦ let stop : leb first end_ch ≡ false = ground (arith, over) in rw stop (set, refl)
  | no within ↦
      let more : leb first end_ch ≡ true = ground (arith, within) in
      let next : u8 (first + 1) ≡ first + 1 = omega (arith, within, top) in
      rw (more, next)
        (span_ends fuel (first + 1) end_ch (add_to_set first set) top (omega (arith, enough))
          (omega (arith, enough, within)))
]
