-- ===== src/Tests/System.antt =====
-- internal/system at concrete files.
use libra_flux.Base.{◌≡◌, refl, some, ◌∷◌, ◌++◌}
use libra_flux.Base.Text.{codes, has_prefix}
use libra_flux.System.Index.{index, one_later, First}
use libra_flux.System.Frr.{managed_begin, managed_end, block_of, replace_managed_block}
use libra_flux.System.Patching.{replace-replaced, replace-reversed}

-- A comment before the block, with the sign that the marks begin with.
starts_block : First (codes "! frr") managed_begin
unfolding index one_later has_prefix
starts_block = refl

ends_block : First (codes "! frr" ++ (managed_begin ++ (10 ∷ codes "a"))) managed_end
unfolding index one_later has_prefix
ends_block = refl

ends_other : First (codes "! frr" ++ (managed_begin ++ (10 ∷ codes "bc"))) managed_end
unfolding index one_later has_prefix
ends_other = refl

replace-replaced_example :
    (replace_managed_block
        (codes "! frr" ++ (block_of (codes "a") ++ codes "end"))
        (block_of (codes "bc"))
      ≡ some (codes "! frr" ++ (block_of (codes "bc") ++ codes "end")))
    × (replace_managed_block
          (codes "! frr" ++ (block_of (codes "bc") ++ codes "end"))
          (block_of (codes "bc"))
        ≡ some (codes "! frr" ++ (block_of (codes "bc") ++ codes "end")))
replace-replaced_example =
    replace-replaced (codes "! frr") (codes "a") (codes "bc") (codes "end") starts_block ends_block
      ends_other

begins_with_end : First (codes "x") managed_end
unfolding index one_later has_prefix
begins_with_end = refl

then_begin : First (codes "x" ++ (managed_end ++ (10 ∷ codes "y"))) managed_begin
unfolding index one_later has_prefix
then_begin = refl

replace-reversed_example :
    replace_managed_block
      ((codes "x" ++ (managed_end ++ (10 ∷ codes "y"))) ++ (managed_begin ++ codes "z"))
      (block_of (codes "b"))
    ≡ some (
        (codes "x" ++ (managed_end ++ (10 ∷ codes "y")))
        ++ (block_of (codes "b") ++ (codes "y" ++ (managed_begin ++ codes "z"))))
replace-reversed_example =
    replace-reversed (codes "x") (codes "y") (codes "z") (block_of (codes "b")) begins_with_end
      then_begin
