-- ===== src/Semantic/Examples/Scattering.antt =====
-- SScatter at process 1, to which the root, process 0, sends two elements of two bytes.
use mathlib.Core.List.{Perm}
use mathlib.Core.List.Perm
use openfpm_vcluster.Prelude.{ℕ, List, [], ◌∷◌, ◌++◌, ◌==◌, if◌then◌else◌}
use openfpm_vcluster.Nbx.State.{Outgoing}
use openfpm_vcluster.Nbx.Progress.{Poll}
use openfpm_vcluster.Nbx.Wait.{Answers}
use openfpm_vcluster.Nbx.Examples.{final_poll}
use openfpm_vcluster.Semantic.Reorder.{Buffer}
use openfpm_vcluster.Semantic.Examples.Merging.{showing}

-- The chunks for processes 1 and 2, and the root's memory
abbrev chunks : List Outgoing
chunks = record { sz = 4; prc = 1; ptr = 100 } ∷ record { sz = 2; prc = 2; ptr = 104 } ∷ []

abbrev memory : ℕ → ℕ → Buffer
memory a n = if a == 100 then 3 ∷ 4 ∷ 5 ∷ 6 ∷ [] else 7 ∷ 8 ∷ []

abbrev one_shown : List Poll
one_shown = showing 0 0 4 ∷ []

abbrev answers : Answers
answers = record {
  polls = one_shown ++ final_poll ∷ [];
  sizes = λ j. [];
  contents = λ j. (3 ∷ 4 ∷ 5 ∷ 6 ∷ []) ∷ [];
}
