-- ===== src/Engine/Query/Follow.antt =====
-- Records in the order of a scan: where the areas of records are laid out, each step of the scan gives the
-- next one of the list.
use wasm_cloud_computing_ben.Prelude.{
  ℕ, suc, ◌+◌, ◌-◌, ◌<◌, ◌≡◌, ◌≢◌, ap, ◌∙◌, true, false, some, List, [], ◌∷◌, ◌++◌, arith,
}
use wasm_cloud_computing_ben.Engine.{State, dbfetch, isnormalusedobject, isfreeobject}
use wasm_cloud_computing_ben.Engine.Records.Scan.{size_at, wg_get_next_raw_record}
use wasm_cloud_computing_ben.Engine.Records.Scan.Layout.{
  Block, used_block, free_block, victim_block, IsBlock, IsLaid, AreLaid, records, all_records,
  first_object, rounds, first_or_null,
}
use wasm_cloud_computing_ben.Engine.Records.Scan.Next.{wg_get_next_raw_record_lem}

-- The scan goes from each record of the list to the next, and from the last to NULL.
unfoldable pub Follows : ℕ → State → List ℕ → Type 0
Follows fuel s [] = Unit
Follows fuel s (r ∷ rs) =
    (r ≢ 0) × (wg_get_next_raw_record fuel true s r ≡ some (first_or_null rs)) × Follows fuel s rs

pub Follows-append :
    (fuel : ℕ) (s : State) (xs ys : List ℕ) → Follows fuel s (xs ++ ys) → Follows fuel s ys
unfolding Follows
Follows-append fuel s [] ys follows = follows
Follows-append fuel s (x ∷ xs) ys (nonzero, next, follows) = Follows-append fuel s xs ys follows

-- How many objects and areas there are.
abbrev pub steps : List Block → List (List Block) → ℕ
steps (b ∷ bs) rest = suc (steps bs rest)
steps [] [] = 0
steps [] (bs ∷ rest) = suc (steps bs rest)

rounds-steps :
    (spare : ℕ) (bs : List Block) (rest : List (List Block))
    → rounds spare bs rest ≡ steps bs rest + suc spare
unfolding rounds
rounds-steps spare (b ∷ bs) rest = omega (arith, rounds-steps spare bs rest)
rounds-steps spare [] [] = omega arith
rounds-steps spare [] (bs ∷ rest) = omega (arith, rounds-steps spare bs rest)

not_free : (s : State) (r : ℕ) → IsBlock s r used_block → isfreeobject (dbfetch s r) ≡ false
unfolding isnormalusedobject isfreeobject
not_free s r block = ground arith

next_follows :
    (bs : List Block) (rest : List (List Block)) (fuel : ℕ) (s : State) (r i : ℕ)
    → steps bs rest < fuel
    → IsBlock s r used_block
    → IsLaid s i (r + size_at s r false) bs
    → AreLaid s (i + 1) rest
    → wg_get_next_raw_record fuel true s r
      ≡ some (first_or_null (records s (r + size_at s r false) bs ++ all_records s (i + 1) rest))
next_follows bs rest fuel s r i long block laid areas =
    let spare = fuel - suc (steps bs rest) in
    let same : fuel ≡ rounds spare bs rest = omega (arith, rounds-steps spare bs rest) in
    ap (λ f. wg_get_next_raw_record f true s r) same
    ∙ wg_get_next_raw_record_lem bs rest spare s r i (not_free s r block) laid areas

-- In areas that are laid out behind an offset, with fuel for every object, the scan goes through the
-- records there in their order.
pub AreLaid-Follows :
    (bs : List Block) (rest : List (List Block)) (fuel : ℕ) (s : State) (offset i : ℕ)
    → ((j : ℕ) → 0 < (s.area.subarea_array j).alignedoffset)
    → 0 < offset
    → steps bs rest < fuel
    → IsLaid s i offset bs
    → AreLaid s (i + 1) rest
    → Follows fuel s (records s offset bs ++ all_records s (i + 1) rest)
unfolding Follows IsLaid AreLaid records all_records first_object
AreLaid-Follows (used_block ∷ bs) rest fuel s offset i starts positive long (block, laid) areas = (
  omega arith,
  next_follows bs rest fuel s offset i (omega arith) block laid areas,
  AreLaid-Follows bs rest fuel s (offset + size_at s offset false) i starts (omega arith)
      (omega arith) laid areas,
)
AreLaid-Follows (free_block ∷ bs) rest fuel s offset i starts positive long (block, laid) areas =
    AreLaid-Follows bs rest fuel s (offset + size_at s offset true) i starts (omega arith)
      (omega arith) laid areas
AreLaid-Follows (victim_block ∷ bs) rest fuel s offset i starts positive long (block, laid) areas =
    AreLaid-Follows bs rest fuel s (offset + size_at s offset false) i starts (omega arith)
      (omega arith) laid areas
AreLaid-Follows [] [] fuel s offset i starts positive long end last = tt
AreLaid-Follows [] (bs ∷ rest) fuel s offset i starts positive long end
      (more, inside, laid, areas) =
    AreLaid-Follows bs rest fuel s (first_object s (i + 1)) (i + 1) starts
      (omega (arith, starts (i + 1))) (omega arith) laid areas
