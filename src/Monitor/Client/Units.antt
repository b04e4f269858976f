-- ===== src/Monitor/Client/Units.antt =====
-- The unit that FormatBytes of internal/monitor/client.go picks.
use go_xport.Common.{
  ℕ, zero, suc, ◌+◌, ◌*◌, ◌/◌, ◌^◌, ◌<◌, ◌≤◌, ◌≡◌, ap, ◌∙◌, ltb, lt→ltb, le→ltb, ltb→lt, Bool-cases,
  inl, inr, arith,
}
use native.Mathlib.Nat.{pow-suc, mul_assoc}
use go_xport.Monitor.Client.{scale, in_units, format_bytes}

-- The loop has gone `rounds` times and stopped at a number below 1024.
record Scaled (k n div exp : ℕ) (o : ℕ × ℕ) : Type 0 where
  rounds : ℕ
  within : rounds ≤ k
  div_is : o.0 ≡ div * 1024 ^ rounds
  exp_is : o.1 ≡ exp + rounds
  low : 1024 ^ rounds ≤ n
  high : n < 1024 ^ rounds * 1024

scale-Scaled :
    (k fuel n div exp : ℕ)
    → k ≤ fuel
    → 1 ≤ n
    → n < 1024 ^ suc k
    → Scaled k n div exp (scale (suc fuel) n div exp)
unfolding scale
scale-Scaled zero fuel n div exp enough some_n small = rw (lt→ltb n 1024 small) (record {
  rounds = 0;
  within = omega arith;
  div_is = omega arith;
  exp_is = omega arith;
  low = some_n;
  high = small;
})
scale-Scaled (suc k) zero n div exp enough some_n small = absurd (omega arith)
scale-Scaled (suc k) (suc fuel) n div exp enough some_n small = elim (Bool-cases (ltb n 1024)) [
  | inl e ↦ rw e (record {
    rounds = 0;
    within = omega arith;
    div_is = omega arith;
    exp_is = omega arith;
    low = some_n;
    high = ltb→lt n 1024 e;
  })
  | inr e ↦
      let large : 1024 ≤ n = ground arith in
      let r =
        scale-Scaled k fuel (n / 1024) (div * 1024) (suc exp) (omega arith) (omega arith)
          (omega (arith, pow-suc 1024 (suc k))) in
      let step = pow-suc 1024 r.rounds in
      rw e (record {
        rounds = suc r.rounds;
        within = omega (arith, r.within);
        div_is =
            r.div_is
            ∙ mul_assoc div 1024 (1024 ^ r.rounds)
            ∙ ap (λ m. div * m) (omega (arith, step));
        exp_is = omega (arith, r.exp_is);
        low = omega (arith, r.low, step);
        high = omega (arith, r.high, step);
      })
]

-- A 64-bit size of 1024 bytes or more is shown in the unit below it: the loop ends within its fuel,
-- the index is one of the six letters, and the divisor is the power of 1024 that the size reaches,
-- below the next one.
pub format_bytes-unit :
    (b : ℕ)
    → 1024 ≤ b
    → b < 2 ^ 64
    → (exp : ℕ) × (format_bytes b ≡ in_units b (1024 ^ suc exp) exp)
      × (exp ≤ 5)
      × (1024 ^ suc exp ≤ b)
      × (b < 1024 ^ suc exp * 1024)
unfolding format_bytes
format_bytes-unit b low high =
    let r = scale-Scaled 5 63 (b / 1024) 1024 0 (omega arith) (omega arith) (omega arith) in
    let step = pow-suc 1024 r.rounds in
    let power : 1024 * 1024 ^ r.rounds ≡ 1024 ^ suc r.rounds = omega (arith, step) in
    let index : 0 + r.rounds ≡ r.rounds = omega arith in
    (
      r.rounds,
      rw (le→ltb b 1024 low, r.div_is, r.exp_is)
          (ap (λ d. in_units b d (0 + r.rounds)) power
            ∙ ap (in_units b (1024 ^ suc r.rounds)) index),
      r.within,
      omega (arith, r.low, step),
      omega (arith, r.high, step),
    )
