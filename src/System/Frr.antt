-- ===== src/System/Frr.antt =====
-- internal/system/frr.go: the managed block in the configuration of FRR. The file system and the clock
-- are arguments of `patch`.
use libra_flux.Base.{
  ℕ, suc, ◌+◌, ◌/◌, ◌==◌, Option, none, some, List, [], ◌∷◌, ◌++◌, ℤ, pos, negsuc, Result, ok, err,
  ltb, if◌then◌else◌, length,
}
use libra_flux.Base.Text.{GoString, codes, ◌=s◌}
use libra_flux.Base.Decimal.{itoa, itoa_ℤ}
use libra_flux.Config.Types.{Config}
use libra_flux.System.Index.{index, upto, from}

-- FRRManagedBegin and FRRManagedEnd
abbrev pub managed_begin : GoString
managed_begin = codes "! BEGIN LBCTL MANAGED - DO NOT EDIT"

abbrev pub managed_end : GoString
managed_end = codes "! END LBCTL MANAGED"

-- The interval in hundredths of a second, or one second if it is too small. A quotient of a negative
-- number is less than 1.
unfoldable pub advertisement : ℤ → ℕ
advertisement (pos n) = if ltb (n / 10) 1 then 100 else n / 10
advertisement (negsuc n) = 100

unfoldable pub priority : Config → ℤ
priority c =
    if c.node.role =s codes "secondary" then c.vrrp.priority_secondary else c.vrrp.priority_primary

-- Lines, each with its end.
unfoldable pub lines_of : List GoString → GoString
lines_of [] = []
lines_of (l ∷ ls) = l ++ (10 ∷ lines_of ls)

abbrev vip_line : GoString → GoString → List GoString
vip_line id vip = if vip =s [] then [] else (codes " vrrp " ++ (id ++ (codes " ip " ++ vip))) ∷ []

-- The lines of the block.
unfoldable pub block_lines : Config → GoString
unfolding advertisement priority lines_of
block_lines c =
    let id = itoa_ℤ c.vrrp.vrid in
    let vrrp = λ (text : GoString). codes " vrrp " ++ (id ++ text) in
    lines_of (
      (codes "interface " ++ c.network.frontend.interface)
      ∷ vrrp (codes " version 3")
      ∷ vrrp (codes " priority " ++ itoa_ℤ (priority c))
      ∷ vrrp (codes " advertisement-interval " ++ itoa (advertisement c.vrrp.advert_interval_ms))
      ∷ vip_line id c.network.frontend.vip)

abbrev pub block_of : GoString → GoString
block_of lines = managed_begin ++ (10 ∷ lines ++ (managed_end ++ 10 ∷ []))

-- generateManagedBlock
unfoldable pub generate_managed_block : Config → GoString
unfolding block_lines
generate_managed_block c = block_of (block_lines c)

-- The end of a line after the block is part of it.
unfoldable pub past_newline : ℕ → GoString → ℕ
past_newline n [] = n
past_newline n (c ∷ s) = if c == 10 then suc n else n

abbrev pub with_newline : GoString → GoString
with_newline [] = []
with_newline (c ∷ []) = if c == 10 then c ∷ [] else c ∷ 10 ∷ []
with_newline (c ∷ d ∷ s) = c ∷ with_newline (d ∷ s)

-- What is replaced, given where the marks stand.
unfoldable pub replace_at : GoString → GoString → Option ℕ → Option ℕ → Option GoString
unfolding upto from past_newline
replace_at s block none end = some (with_newline s ++ block)
replace_at s block (some start) none = none
replace_at s block (some start) (some end) =
    let stop = end + length managed_end in
    some (upto start s ++ (block ++ from (past_newline stop (from stop s)) s))

-- replaceManagedBlock, with none for the error
unfoldable pub replace_managed_block : GoString → GoString → Option GoString
unfolding replace_at index
replace_managed_block s block = replace_at s block (index s managed_begin) (index s managed_end)

-- The files: reading, of which none says that there is no file, and the writing of the backup and of
-- the configuration.
pub record Files (E W : Type 0) : Type 0 where
  pub read : W → Result E (Option GoString)
  pub backup : GoString → W → Option E × W
  pub write : GoString → W → Option E × W

pub data PatchError (E : Type 0) : Type 0 where
  file_error : E → PatchError E
  end_missing : PatchError E

unfoldable pub write_backed_up :
    {E W : Type 0} → Files E W → GoString → Option E × W → Option (PatchError E) × W
write_backed_up files new (some e, w) = (some (file_error e), w)
write_backed_up files new (none, w) =
    let (e, u) = files.write new w in (elim e [ none ↦ none | some x ↦ some (file_error x) ], u)

-- An empty file is not backed up.
unfoldable pub back_up : {E W : Type 0} → Files E W → GoString → W → Option E × W
back_up files [] w = (none, w)
back_up files (c ∷ s) w = files.backup (c ∷ s) w

unfoldable pub patch_content :
    {E W : Type 0} → Files E W → GoString → Option GoString → W → Option (PatchError E) × W
unfolding write_backed_up back_up
patch_content files old none w = (some end_missing, w)
patch_content files old (some new) w = write_backed_up files new (back_up files old w)

-- Patch
unfoldable pub patch : {E W : Type 0} → Files E W → Config → W → Option (PatchError E) × W
unfolding patch_content replace_managed_block generate_managed_block
patch files c w =
    let content = λ (s : GoString).
      patch_content files s (replace_managed_block s (generate_managed_block c)) w in
    elim (files.read w) [
      | err e ↦ (some (file_error e), w)
      | ok o ↦ content (elim o [ none ↦ [] | some s ↦ s ])
    ]
