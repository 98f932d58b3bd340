-- ===== src/IntMath/Log.antt =====
-- The logarithms are the ones rounded down.
use cstone.Prelude.{
  ℕ, zero, suc, ◌+◌, ◌-◌, ◌*◌, ◌/◌, ◌^◌, ◌≤◌, ◌<◌, ◌≡◌, ◌≢◌, refl, ap, ◌∙◌, Bool, true, false, ◌&&◌,
  some, ltb, leb, ◌==◌, if◌then◌else◌, get_or, u32, arith, all_below, all_below_sound, dec_lt,
}
use native.Mathlib.Nat.{
  div-lt_self, le-div_iff_mul-le, div-lt_iff_lt-mul, one-mul, pow-suc, pow-zero,
}
use cstone.IntMath.{clz, log10_est, pow10, ilog10, ilog_loop, ilog_b}
use cstone.IntMath.Leading.{clz_bounds}

-- What the two tables promise for `c` leading zeros.
entry : ℕ → Bool
entry c =
    let e = get_or log10_est c 0 in
    (leb e 9 && get_or pow10 e 0 == 10 ^ e)
    && (leb (10 ^ (e - 1)) (2 ^ (31 - c)) && leb (2 ^ (32 - c)) (10 ^ suc e))

entry-IsRight :
    (c : ℕ)
    → c < 32
    → let e = get_or log10_est c 0 in
      (e ≤ 9)
      × (get_or pow10 e 0 ≡ 10 ^ e)
      × (10 ^ (e - 1) ≤ 2 ^ (31 - c))
      × (2 ^ (32 - c) ≤ 10 ^ suc e)
entry-IsRight c p = unfold entry in ground (arith, all_below_sound 32 entry c checked p)
  where
    checked : all_below 32 entry ≡ true
    checked = unfold all_below entry log10_est pow10 in refl

-- For a value that is not 0, `ilog10` is the logarithm rounded down.
pub ilog10-floor : (n : ℕ) → n < 2 ^ 32 → n ≢ 0 → (10 ^ ilog10 n ≤ n) × (n < 10 ^ suc (ilog10 n))
unfolding ilog10
ilog10-floor n p nz =
    let (inside, least, most) = clz_bounds n p nz in
    let (small, power, under, over) = entry-IsRight (clz n) inside in
    floor_of (get_or log10_est (clz n) 0) small power (omega (arith, under, least))
      (omega (arith, most, over))
  where
    floor_of :
        (e : ℕ)
        → e ≤ 9
        → get_or pow10 e 0 ≡ 10 ^ e
        → 10 ^ (e - 1) ≤ n
        → n < 10 ^ suc e
        → let log = (if ltb n (get_or pow10 e 0) then u32 (e + (2 ^ 32 - 1)) else e) in
          (10 ^ log ≤ n) × (n < 10 ^ suc log)
    floor_of e small power under over = elim (dec_lt n (10 ^ e)) [
      | no enough ↦
          let keep : ltb n (10 ^ e) ≡ false = ground (arith, enough) in
          rw (power, keep) (omega (arith, enough), over)
      | yes less ↦
          let correct : ltb n (10 ^ e) ≡ true = ground (arith, less) in
          let some_log : e ≢ 0 = λ z. absurd (omega (arith, nz, less, ap (λ (t : ℕ). 10 ^ t) z)) in
          let one_less : u32 (e + (2 ^ 32 - 1)) ≡ e - 1 = omega (arith, small, some_log) in
          let next : suc (e - 1) ≡ e = omega (arith, some_log) in
          rw (power, correct, one_less, next) (under, less)
    ]

ilog_step :
    (fuel residual base log : ℕ)
    → 1 < base
    → base < 2 ^ 32
    → base - 1 < residual
    → ilog_loop (suc fuel) residual base log ≡ ilog_loop fuel (residual / base) base (log + 1)
unfolding ilog_loop
ilog_step fuel residual base log b w large =
    let wrapped : u32 (base + (2 ^ 32 - 1)) ≡ base - 1 = omega (arith, b, w) in
    let go_on : ltb (base - 1) residual ≡ true = ground (arith, large) in rw (wrapped, go_on)

ilog_loop-floor :
    (fuel residual base log : ℕ)
    → 1 < base
    → base < 2 ^ 32
    → residual < fuel
    → 0 < residual
    → (k : ℕ) × (ilog_loop fuel residual base log ≡ some (log + k))
      × (base ^ k ≤ residual)
      × (residual < base ^ suc k)
unfolding ilog_loop
ilog_loop-floor zero residual base log b w p q = absurd (omega (arith, p))
ilog_loop-floor (suc fuel) residual base log b w p q =
    let wrapped : u32 (base + (2 ^ 32 - 1)) ≡ base - 1 = omega (arith, b, w) in
    elim (dec_lt (base - 1) residual) [
      | no small ↦
          let stop : ltb (base - 1) residual ≡ false = ground (arith, small) in
          let z : log ≡ log + 0 = omega arith in
          let none_yet : base ^ 0 ≡ 1 = pow-zero base in
          let one : base ^ suc 0 ≡ base ^ 0 * base = pow-suc base 0 in
          (
            0,
            rw (wrapped, stop) (ap some z),
            omega (arith, none_yet, q),
            omega (arith, small, one, b, ap (λ (t : ℕ). t * base) none_yet, one-mul base),
          )
      | yes large ↦
          let shrinks : residual / base < residual = div-lt_self q b in
          let left : 0 < residual / base =
            (le-div_iff_mul-le {k = base} {x = 1} {y = residual} (omega (arith, b))).1
              (omega (arith, one-mul base, large)) in
          let (k, e, least, most) =
            ilog_loop-floor fuel (residual / base) base (log + 1) b w (omega (arith, p, shrinks))
              left in
          let sum : log + 1 + k ≡ log + suc k = omega arith in
          (
            suc k,
            ilog_step fuel residual base log b w large ∙ e ∙ ap some sum,
            omega (
              arith,
              (le-div_iff_mul-le {k = base} {x = base ^ k} {y = residual} (omega (arith, b))).0
                  least,
              pow-suc base k,
            ),
            omega (
              arith,
              (div-lt_iff_lt-mul {k = base} {x = residual} {y = base ^ suc k} (omega (arith, b))).0
                  most,
              pow-suc base (suc k),
            ),
          )
    ]

-- For a base of at least 2 and a value that is not 0, `ilog_b` returns within one round more than the
-- value the logarithm rounded down.
pub ilog_b-floor :
    (n base : ℕ)
    → 1 < base
    → base < 2 ^ 32
    → 0 < n
    → (k : ℕ) × (ilog_b (suc n) n base ≡ some k) × (base ^ k ≤ n) × (n < base ^ suc k)
unfolding ilog_b
ilog_b-floor n base b w p =
    let (k, e, least, most) = ilog_loop-floor (suc n) n base 0 b w (omega arith) p in
    let z : 0 + k ≡ k = omega arith in (k, e ∙ ap some z, least, most)
