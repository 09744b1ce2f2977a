-- ===== src/Service/Effects.antt =====
-- The events of a history that change something outside the caller: writes and worker runs.
use sdlc.Base.{String, ◌≡◌, refl, List, [], ◌∷◌, ◌++◌, ap}
use sdlc.Routes.{Worker}
use sdlc.Service.{wrote_state, wrote_status, ran, History}

pub data Effect : Type 0 where
  state_write : String → String → Effect
  status_write : String → String → Effect
  worker_run : Worker → String → Effect

abbrev pub effects : History → List Effect
effects [] = []
effects (wrote_state id s a ∷ h) = state_write id s ∷ effects h
effects (wrote_status id s a ∷ h) = status_write id s ∷ effects h
effects (ran w id a ∷ h) = worker_run w id ∷ effects h
effects (_ ∷ h) = effects h

pub effects-append : (g h : History) → effects (g ++ h) ≡ effects g ++ effects h
effects-append [] h = refl
effects-append (wrote_state id s a ∷ g) h = ap (λ es. state_write id s ∷ es) (effects-append g h)
effects-append (wrote_status id s a ∷ g) h = ap (λ es. status_write id s ∷ es) (effects-append g h)
effects-append (ran w id a ∷ g) h = ap (λ es. worker_run w id ∷ es) (effects-append g h)
effects-append (_ ∷ g) h = effects-append g h
