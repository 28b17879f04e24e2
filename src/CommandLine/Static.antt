-- ===== src/CommandLine/Static.antt =====
-- The option `--no-static-samp` (src/main.cpp) and the number of samples that it is to change.
use skolemfc.Base.{◌≡◌, ◌∙◌, refl, sym, ap, Bool, true, false, Bool-cases, inl, inr}
use skolemfc.Lit.{LitApi}
use skolemfc.Floats.{DoubleApi, MpfApi}
use skolemfc.Outcome.{ok, aborted}
use skolemfc.Oracles.{Oracles}
use skolemfc.Counter.{Counter}
use skolemfc.Counter.Samples.{get_sample_num_est}
use skolemfc.Configure.{Options, prepare, configure, configured, configure-ok, configure-aborted}
use skolemfc.CommandLine.{Given, bool_switch, add_skolemfc_options}

switch_on : (given : Bool) → bool_switch true given ≡ true
switch_on true = refl
switch_on false = refl

configure-static :
    {D F L W : Type 0} ⦃d : DoubleApi D⦄ ⦃m : MpfApi D F⦄ (o : Options D)
    (c ready : Counter D F L W)
    → configure o c ≡ ok ready
    → ready.static_samp ≡ o.static_samp_est
unfolding configured
configure-static ⦃d⦄ o c ready e = elim (Bool-cases (d.less (d.dec 0 0) (prepare o c).epsilon)) [
  | inl h ↦
      let same : ok (configured o c) ≡ ok ready = sym (configure-ok o c h) ∙ e in
      let run : configured o c ≡ ready = cc in ap (λ x. x.static_samp) (sym run)
  | inr h ↦ let never : aborted ≡ ok ready = sym (configure-aborted o c h) ∙ e in absurd cc
]

-- Whatever the command line gives, `--no-static-samp` included, on a counter that its options have set
-- up `get_sample_num_est` sets the fixed number of samples, 500, and changes nothing else: it asks no
-- oracle.
pub get_sample_num_est-configure :
    {D F L W : Type 0} ⦃d : DoubleApi D⦄ ⦃m : MpfApi D F⦄ ⦃a : LitApi L⦄ (oracles : Oracles W D L)
    (given : Given D) (c ready : Counter D F L W)
    → configure (add_skolemfc_options given).options c ≡ ok ready
    → get_sample_num_est oracles ready ≡ ok (record ready { sample_num_est = 500 })
unfolding get_sample_num_est add_skolemfc_options
get_sample_num_est-configure oracles given c ready e =
    let static = configure-static (add_skolemfc_options given).options c ready e in
    rw (static, switch_on given.no_static_samp) refl
