-- ===== src/Fib/Tests.antt =====
-- Runs of the FIB mapping table, and the theorems at concrete inputs.
use poptrie_project.Base.{◌≡◌, refl, some, [], ◌∷◌, get_elem?}
use poptrie_project.Base.Int.{pos}
use poptrie_project.Fib.{Fib, fib_ref, fib_deref}
use poptrie_project.Fib.Laws.{References, in_use, fib_ref-References, fib_deref-fib_ref}

-- The default entry, a hop with two references, and a free slot.
abbrev three : Fib
three =
    record { hop = 0; refs = pos 1 }
    ∷ record { hop = 70; refs = pos 2 }
    ∷ record { hop = 80; refs = pos 0 }
    ∷ []

ref_runs : ((fib_ref three 70).0 ≡ some 1) × ((fib_ref three 90).0 ≡ some 2)
unfolding fib_ref
ref_runs = (refl, refl)

deref_runs : get_elem? (fib_deref three 70) 1 ≡ some (record { hop = 70; refs = pos 1 })
unfolding fib_deref
deref_runs = refl

fib_ref-References_example : References three 90 2 (fib_ref three 90).1
fib_ref-References_example = fib_ref-References three 90 2 ref_runs.1

abbrev busy : Fib
busy = record { hop = 0; refs = pos 1 } ∷ []

fib_deref-fib_ref_example :
    in_use (get_elem? (fib_deref (fib_ref three 90).1 90) 1) ≡ in_use (get_elem? three 1)
fib_deref-fib_ref_example = fib_deref-fib_ref three 90 1
