-- ===== src/Runtime/Examples.antt =====
-- The statements on the library's initialization, at programs that call it twice.
use openfpm_vcluster.Prelude.{◌≡◌, refl, true, false, some, List, [], ◌∷◌, arith}
use openfpm_vcluster.Runtime.{
  openfpm_init, openfpm_init_vcl, init_global, construct, destroy, delete_pointer, delete_global,
  openfpm_finalize,
}
use openfpm_vcluster.Runtime.Programs.{
  Action, library, enter, leave, Program, program, act, act_each, instances, act_each-counted,
}
use openfpm_vcluster.Runtime.Ending.{after, program-ends}
use openfpm_vcluster.Runtime.Lifecycle.{
  init, finalize, started, running, ended, perform, perform_all, IsState, perform_all-IsState,
}

initialized : perform_all (init true ∷ init true ∷ []) (started true) ≡ some (running true)
unfolding perform_all perform openfpm_init openfpm_init_vcl init_global construct
initialized = refl

perform_all-IsState_example : IsState (running true)
perform_all-IsState_example =
    perform_all-IsState (init true ∷ init true ∷ []) true (running true) initialized

program-ends_example :
    act_each
      (library (init true)
        ∷ library (init false)
        ∷ enter true
        ∷ enter false
        ∷ library finalize
        ∷ leave
        ∷ leave
        ∷ [])
      (program false)
    ≡ some (after true [])
program-ends_example = program-ends true false (false ∷ []) (true ∷ false ∷ []) (omega arith)

-- The library is finalized while the program still has an instance of its own, which ends MPI.
abbrev outlives : List Action
outlives = library (init true) ∷ enter true ∷ library finalize ∷ leave ∷ []

abbrev outlived : Program
outlived = record { runtime = ended true false; own = [] }

outlives_ends : act_each outlives (program false) ≡ some outlived
unfolding act_each act perform openfpm_init openfpm_init_vcl init_global construct openfpm_finalize
    delete_global delete_pointer destroy
outlives_ends = refl

act_each-counted_example : (0 ≡ instances outlived) × (true ≡ true → instances outlived ≡ 0)
act_each-counted_example = act_each-counted false outlives outlived (omega arith) outlives_ends
