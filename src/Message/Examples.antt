-- ===== src/Message/Examples.antt =====
-- The comparisons of src/message.rs at concrete values.
use enody_rs.Common.{◌≡◌, ◌↔◌, refl, true, false}
use enody_rs.Message.Values.{
  relative, Configuration, Transition, linear, from_secs, FixtureState, transition_eq,
  fixture_state_eq, StateHasNumbers, fixture_transition_eq_refl,
}

-- 4000 K (0x457a0000) at a flux of one half (0x3f000000), over two seconds.
abbrev warm : Transition FixtureState
warm = record {
  target = record {
    configuration = Configuration.blackbody 0x457a_0000;
    flux = relative 0x3f00_0000;
  };
  method = linear (from_secs 2);
}

-- The same with a flux that is not a number.
abbrev nan_flux : Transition FixtureState
nan_flux = record {
  target = record {
    configuration = Configuration.blackbody 0x457a_0000;
    flux = relative 0x7fc0_0000;
  };
  method = linear (from_secs 2);
}

warm_eq : transition_eq fixture_state_eq warm warm ≡ true
unfolding transition_eq fixture_state_eq
warm_eq = refl

nan_flux_ne : transition_eq fixture_state_eq nan_flux nan_flux ≡ false
unfolding transition_eq fixture_state_eq
nan_flux_ne = refl

fixture_transition_eq_refl_example :
    (transition_eq fixture_state_eq warm warm ≡ true)
    ↔ StateHasNumbers warm.target.configuration warm.target.flux
fixture_transition_eq_refl_example = fixture_transition_eq_refl warm
