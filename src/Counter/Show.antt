-- ===== src/Counter/Show.antt =====
-- `show_count`: at which iterations a line of progress is printed.
use skolemfc.Base.{
  ℕ, zero, suc, ◌+◌, ◌*◌, ◌/◌, ◌%◌, ◌^◌, ◌<◌, ◌≤◌, ◌≡◌, Bool, true, false, ◌||◌, arith, ltb, leb,
  ◌==◌, u64, if◌then◌else◌,
}
use skolemfc.Counter.{Counter}

-- The next iteration that is shown, after iteration `i`.
abbrev next_shown : ℕ → ℕ
next_shown i = if ltb i 10 then i + 1 else (i / 10 + 1) * 10

module _ {D F L W : Type 0} where
  unfoldable pub show_count : Counter D F L W → Bool × Counter D F L W
  show_count c =
      if ltb c.p.verbosity 1
      then (false, c)
      else if c.iteration == c.next_iter_to_show_output
      then (
        true,
        record c {
          next_iter_to_show_output =
              u64 (c.next_iter_to_show_output + (if ltb c.iteration 10 then 1 else 10));
        },
      )
      else (false, c)

  -- `iteration++` and the call, as the loop makes them.
  unfoldable pub tick : Counter D F L W → Bool × Counter D F L W
  unfolding show_count
  tick c = show_count (record c { iteration = u64 (c.iteration + 1) })

  unfoldable pub ticks : ℕ → Counter D F L W → Counter D F L W
  unfolding tick
  ticks zero c = c
  ticks (suc n) c = (tick (ticks n c)).1

  module _ (c : Counter D F L W) (i : ℕ) where
    abbrev Expects : Type 0
    Expects = (c.iteration ≡ i) × (c.next_iter_to_show_output ≡ next_shown i) × (1 ≤ c.p.verbosity)

    tick_iteration : i + 20 < 2 ^ 64 → c.iteration ≡ i → (tick c).1.iteration ≡ i + 1
    unfolding tick
    tick_iteration h e = ground arith

    tick_verbosity : 1 ≤ c.p.verbosity → 1 ≤ (tick c).1.p.verbosity
    unfolding tick
    tick_verbosity h = ground arith

    tick_next : i + 20 < 2 ^ 64 → Expects → (tick c).1.next_iter_to_show_output ≡ next_shown (i + 1)
    unfolding tick
    tick_next h (e, n, v) =
        let it : u64 (c.iteration + 1) ≡ i + 1 = omega arith in rw (it, n) (ground arith)

    tick_shown : i + 20 < 2 ^ 64 → Expects → (tick c).0 ≡ (leb (i + 1) 10 || (i + 1) % 10 == 0)
    unfolding tick
    tick_shown h (e, n, v) =
        let it : u64 (c.iteration + 1) ≡ i + 1 = omega arith in rw (it, n) (ground arith)

  ticks_next :
      (n : ℕ) (c : Counter D F L W)
      → n + 20 < 2 ^ 64
      → 1 ≤ c.p.verbosity
      → c.iteration ≡ 0
      → c.next_iter_to_show_output ≡ 1
      → Expects (ticks n c) n
  unfolding ticks
  ticks_next zero c h v i e = (i, e, v)
  ticks_next (suc n) c h v i e =
      let ih = ticks_next n c (omega arith) v i e in
      let next : n + 1 ≡ suc n = omega arith in
      (
        rw next at (tick_iteration (ticks n c) n (omega arith) ih.0),
        rw next at (tick_next (ticks n c) n (omega arith) ih),
        tick_verbosity (ticks n c) n ih.2,
      )

  -- From iteration 0 with the first line due at 1, with a verbosity of at least 1 and below 2 ^ 64 - 20
  -- iterations: iteration n + 1 is shown exactly if it is at most 10 or a multiple of 10.
  pub tick_shows :
      (n : ℕ) (c : Counter D F L W)
      → n + 20 < 2 ^ 64
      → 1 ≤ c.p.verbosity
      → c.iteration ≡ 0
      → c.next_iter_to_show_output ≡ 1
      → (tick (ticks n c)).0 ≡ (leb (n + 1) 10 || (n + 1) % 10 == 0)
  tick_shows n c h v i e = tick_shown (ticks n c) n h (ticks_next n c h v i e)
