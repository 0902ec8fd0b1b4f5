-- ===== src/System/Patching.antt =====
-- internal/system/frr.go: what replaceManagedBlock makes of a file.
use libra_flux.Base.{
  ℕ, suc, ◌+◌, ◌≡◌, refl, sym, ap, ◌∙◌, Option, some, [], ◌∷◌, ◌++◌, length, length-append,
}
use mathlib.Core.List.{append_assoc}
use libra_flux.Base.Text.{GoString}
use libra_flux.System.Index.{index, from, First, index-First, upto-append, from-append}
use libra_flux.System.Frr.{
  managed_begin, managed_end, block_of, past_newline, replace_at, replace_managed_block,
}

from_past : (s : GoString) (c : ℕ) (t : GoString) → from (suc (length s)) (s ++ c ∷ t) ≡ t
unfolding from
from_past [] c t = refl
from_past (d ∷ s) c t = from_past s c t

-- The text after the mark of the end, whose first line end goes with the block.
stop_after :
    (s after : GoString)
    → from (past_newline (length s) (from (length s) (s ++ 10 ∷ after))) (s ++ 10 ∷ after) ≡ after
unfolding past_newline
stop_after s after = rw (from-append s (10 ∷ after)) (from_past s 10 after)

-- The file up to the mark of the end.
abbrev head_of : GoString → GoString → GoString
head_of before lines = before ++ (managed_begin ++ (10 ∷ lines))

file-block :
    (before lines after : GoString)
    → before ++ (block_of lines ++ after)
      ≡ before ++ (managed_begin ++ (10 ∷ (lines ++ (managed_end ++ (10 ∷ after)))))
file-block before lines after =
    ap (λ (t : GoString). before ++ (managed_begin ++ (10 ∷ t)))
      (append_assoc lines (managed_end ++ (10 ∷ [])) after)

file-end :
    (before lines after : GoString)
    → before ++ (block_of lines ++ after) ≡ head_of before lines ++ (managed_end ++ (10 ∷ after))
file-end before lines after =
    file-block before lines after
    ∙ sym (append_assoc before (managed_begin ++ (10 ∷ lines)) (managed_end ++ (10 ∷ after)))

file-after :
    (before lines after : GoString)
    → before ++ (block_of lines ++ after) ≡ (head_of before lines ++ managed_end) ++ (10 ∷ after)
file-after before lines after =
    file-end before lines after ∙ sym (append_assoc (head_of before lines) managed_end (10 ∷ after))

-- What is left of a file after the block.
left_after :
    (before lines after : GoString)
    → (let file = before ++ (block_of lines ++ after) in
        let stop = length (head_of before lines) + length managed_end in
        from (past_newline stop (from stop file)) file ≡ after)
left_after before lines after =
    rw (file-after before lines after, ← length-append (head_of before lines) managed_end)
      (stop_after (head_of before lines ++ managed_end) after)

-- In a file with the two marks in their order, of which the text before has no mark of the beginning and
-- the text up to the end no mark of the end, exactly the block is replaced: the text before it and
-- the text after it stay.
pub replace-block :
    (before lines after block : GoString)
    → First before managed_begin
    → First (before ++ (managed_begin ++ (10 ∷ lines))) managed_end
    → replace_managed_block (before ++ (block_of lines ++ after)) block
      ≡ some (before ++ (block ++ after))
unfolding replace_managed_block replace_at
replace-block before lines after block start end =
    let file = before ++ (block_of lines ++ after) in
    let stop = length (head_of before lines) + length managed_end in
    let at_start : index file managed_begin ≡ some (length before) =
      ap (λ (t : GoString). index t managed_begin) (file-block before lines after)
      ∙ index-First before managed_begin _ start in
    let at_end : index file managed_end ≡ some (length (head_of before lines)) =
      ap (λ (t : GoString). index t managed_end) (file-end before lines after)
      ∙ index-First (head_of before lines) managed_end (10 ∷ after) end in
    ap (λ (o : Option ℕ). replace_at file block o (index file managed_end)) at_start
    ∙ ap (λ (o : Option ℕ). replace_at file block (some (length before)) o) at_end
    ∙ ap (λ (t : GoString). some (t ++ (block ++ from (past_newline stop (from stop file)) file)))
        (upto-append before (block_of lines ++ after))
    ∙ ap (λ (t : GoString). some (before ++ (block ++ t))) (left_after before lines after)

-- The block of a file is replaced by one of other lines, and to replace it again by the same changes
-- nothing, when no mark of the beginning stands before the block's, and, with either of the lines in
-- it, no mark of the end stands before the block's.
pub replace-replaced :
    (before old new after : GoString)
    → First before managed_begin
    → First (before ++ (managed_begin ++ (10 ∷ old))) managed_end
    → First (before ++ (managed_begin ++ (10 ∷ new))) managed_end
    → (replace_managed_block (before ++ (block_of old ++ after)) (block_of new)
        ≡ some (before ++ (block_of new ++ after)))
      × (replace_managed_block (before ++ (block_of new ++ after)) (block_of new)
          ≡ some (before ++ (block_of new ++ after)))
replace-replaced before old new after start end end2 = (
  replace-block before old after (block_of new) start end,
  replace-block before new after (block_of new) start end2,
)

-- The mark of the end comes first.
abbrev reversed : GoString → GoString → GoString → GoString
reversed a b c = (a ++ (managed_end ++ (10 ∷ b))) ++ (managed_begin ++ c)

reversed-end :
    (a b c : GoString) → reversed a b c ≡ a ++ (managed_end ++ (10 ∷ (b ++ (managed_begin ++ c))))
reversed-end a b c = append_assoc a (managed_end ++ (10 ∷ b)) (managed_begin ++ c)

left_reversed :
    (a b c : GoString)
    → (let stop = length a + length managed_end in
        from (past_newline stop (from stop (reversed a b c))) (reversed a b c)
        ≡ b ++ (managed_begin ++ c))
left_reversed a b c =
    rw
      (
        reversed-end a b c ∙ sym (append_assoc a managed_end (10 ∷ (b ++ (managed_begin ++ c)))),
        ← length-append a managed_end,
      )
      (stop_after (a ++ managed_end) (b ++ (managed_begin ++ c)))

-- When the first mark of the end is followed by the end of its line and stands before the first mark of
-- the beginning, no error is returned: the new block is put in before the mark of the beginning, the
-- text between the two marks is in the result twice, before the new block and after it, and the old
-- mark of the beginning, with all that follows it, stays after that.
pub replace-reversed :
    (a b c block : GoString)
    → First a managed_end
    → First (a ++ (managed_end ++ (10 ∷ b))) managed_begin
    → replace_managed_block ((a ++ (managed_end ++ (10 ∷ b))) ++ (managed_begin ++ c)) block
      ≡ some ((a ++ (managed_end ++ (10 ∷ b))) ++ (block ++ (b ++ (managed_begin ++ c))))
unfolding replace_managed_block replace_at
replace-reversed a b c block end start =
    let file = reversed a b c in
    let before = a ++ (managed_end ++ (10 ∷ b)) in
    let stop = length a + length managed_end in
    let at_start : index file managed_begin ≡ some (length before) =
      index-First before managed_begin c start in
    let at_end : index file managed_end ≡ some (length a) =
      ap (λ (t : GoString). index t managed_end) (reversed-end a b c)
      ∙ index-First a managed_end (10 ∷ (b ++ (managed_begin ++ c))) end in
    ap (λ (o : Option ℕ). replace_at file block o (index file managed_end)) at_start
    ∙ ap (λ (o : Option ℕ). replace_at file block (some (length before)) o) at_end
    ∙ ap (λ (t : GoString). some (t ++ (block ++ from (past_newline stop (from stop file)) file)))
        (upto-append before (managed_begin ++ c))
    ∙ ap (λ (t : GoString). some (before ++ (block ++ t))) (left_reversed a b c)
