-- ===== src/Counter/Budget.antt =====
-- Which settings decide the threshold of `count`.
use skolemfc.Base.{◌≡◌, refl, Bool-cases, inl, inr}
use skolemfc.Outcome.{ok, aborted}
use skolemfc.Floats.{DoubleApi, MpfApi}
use skolemfc.Counter.{Counter, split_budget, set_dklr_parameters}
use skolemfc.Counter.Run.{set_constants}

module _ {D F L W : Type 0} ⦃d : DoubleApi D⦄ ⦃m : MpfApi D F⦄ where
  -- Whatever the weights and the error that `set_dklr_parameters` is given, if it returns, the
  -- threshold, `epsilon_f` and `delta_f` after `set_constants` are those of a counter on which it was
  -- not called.
  pub set_constants-set_dklr_parameters :
      (epsilon_w delta_w max_error : D) (c ready : Counter D F L W)
      → set_dklr_parameters epsilon_w delta_w max_error c ≡ ok ready
      → let run = set_constants ready in
        (run.thresh ≡ (set_constants c).thresh)
        × (run.epsilon_f ≡ (set_constants c).epsilon_f)
        × (run.delta_f ≡ (set_constants c).delta_f)
  unfolding set_constants set_dklr_parameters split_budget
  set_constants-set_dklr_parameters epsilon_w delta_w max_error c ready e =
      elim (Bool-cases (d.less (d.dec 0 0) c.epsilon)) [
        | inl h ↦
            let returned : ok (split_budget epsilon_w delta_w max_error c) ≡ ok ready = rw h at e in
            let same : split_budget epsilon_w delta_w max_error c ≡ ready = cc in
            rw (← same) (refl, refl, refl)
        | inr h ↦ let never : aborted ≡ ok ready = rw h at e in absurd cc
      ]
