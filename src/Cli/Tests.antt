-- ===== src/Cli/Tests.antt =====
-- The program's loop at a concrete run.
use cpp_onion.Base.{List, [], ◌∷◌, false, true, ok, none, refl, ◌≡◌}
use cpp_onion.Core.Base32.{codes, find}
use cpp_onion.Core.Matcher.{compile_prefix}
use cpp_onion.Engine.Tests.{toy, ab, patterns, candidate}
use cpp_onion.Io.Tests.{Files, memory, contents, path_of, memory_law}
use cpp_onion.Cli.{Round, size_max, compile_all, main_loop}
use cpp_onion.Cli.Patterns.{IsCompiledAll, compile_all-IsCompiledAll}
use cpp_onion.Cli.Loop.{IsOutcome, main_loop-IsOutcome}

two_compile : compile_all size_max [] (codes "ab" ∷ (codes "ab" ∷ [])) ≡ ok (2, ab ∷ (ab ∷ []))
unfolding compile_all compile_prefix find
two_compile = refl

compile_all-IsCompiledAll_example :
    IsCompiledAll size_max [] (codes "ab" ∷ (codes "ab" ∷ [])) (2, ab ∷ (ab ∷ []))
compile_all-IsCompiledAll_example =
    compile_all-IsCompiledAll (codes "ab" ∷ (codes "ab" ∷ [])) (2, ab ∷ (ab ∷ [])) two_compile

-- A round without a candidate, one with two, and one after them.
abbrev rounds : List Round
rounds =
    record { interrupted = false; arrived = []; engine_done = false }
    ∷ (record {
      interrupted = false;
      arrived = candidate 1 ∷ (candidate 2 ∷ []);
      engine_done = false;
    }
        ∷ (record { interrupted = false; arrived = []; engine_done = true } ∷ []))

abbrev nothing_there : Files
nothing_there p = none

main_loop-IsOutcome_example :
    IsOutcome toy memory patterns [] 1 contents path_of memory_law
      (main_loop toy memory patterns [] 1 rounds [] 0 [] nothing_there)
main_loop-IsOutcome_example =
    main_loop-IsOutcome toy memory patterns [] 1 contents path_of memory_law rounds [] nothing_there
