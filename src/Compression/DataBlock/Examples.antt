-- ===== src/Compression/DataBlock/Examples.antt =====
-- Concrete blocks, and the theorems at concrete inputs.
use akumuli.Base.{refl, arith, List, [], ◌∷◌, ◌++◌, All, replicate}
use akumuli.Base.Words.{IsU64, all_below, all_below-IsU64}
use akumuli.Compression.DataBlock.Header.{fresh}
use akumuli.Compression.DataBlock.Content.{Point, times, values}
use akumuli.Compression.DataBlock.Invariant.{IsPoint}
use akumuli.Compression.DataBlock.Put.{Puts, put_lem}
use akumuli.Compression.DataBlock.Commit.{Commits, commit_lem}
use akumuli.Compression.DataBlock.RoundTrip.{
  RoundTrips, put_each, put_each-Stores, fresh-Stores, read-commit_put,
}

-- Sixteen points are a chunk; the others stay behind it.
abbrev points : List Point
points =
    (100, 7)
    ∷ (101, 7)
    ∷ (102, 7)
    ∷ (103, 7)
    ∷ (104, 8)
    ∷ (105, 8)
    ∷ (106, 9)
    ∷ (107, 9)
    ∷ (108, 9)
    ∷ (109, 9)
    ∷ (110, 9)
    ∷ (111, 9)
    ∷ (112, 0)
    ∷ (113, 0)
    ∷ (114, 0)
    ∷ (115, 0xffff_ffff_ffff_ffff)
    ∷ (90, 1)
    ∷ (80, 2)
    ∷ []

points-words : All IsPoint points
points-words =
    both points (all_below-IsU64 (times points) (unfold all_below in refl))
      (all_below-IsU64 (values points) (unfold all_below in refl))
  where
    both : (ps : List Point) → All IsU64 (times ps) → All IsU64 (values ps) → All IsPoint ps
    both [] at vs = tt
    both (p ∷ ps) (t, ts) (v, vs) = ((t, v), both ps ts vs)

put_lem_example : Puts 7 (fresh 7 64) [] (100, 7)
put_lem_example =
    put_lem 7 (fresh 7 64) [] (100, 7) (fresh-Stores 7 64) (omega arith, omega arith) (omega arith)

commit_lem_example :
    Commits 7 (put_each (fresh 7 400) points).0 ([] ++ (put_each (fresh 7 400) points).1)
commit_lem_example =
    commit_lem 7 (put_each (fresh 7 400) points).0 ([] ++ (put_each (fresh 7 400) points).1)
      (put_each-Stores points [] 7 (fresh 7 400) (fresh-Stores 7 400) points-words (omega arith)).0
      (omega (
        arith,
        (put_each-Stores points [] 7 (fresh 7 400) (fresh-Stores 7 400) points-words
            (omega arith)).1,
      ))

read-commit_put_example : RoundTrips 7 400 (replicate 400 0) points (0xAA ∷ [])
read-commit_put_example =
    read-commit_put 7 400 (replicate 400 0) points (0xAA ∷ []) refl (omega arith) (omega arith)
      points-words (omega arith)
