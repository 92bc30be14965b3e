-- ===== src/Engine/Ttree/Search/Last.antt =====
-- The last element of a list without a property, and lists in ascending order, for the searches of
-- workloads/no_sql_db/wasm-src/dbindex.c.
use wasm_cloud_computing_ben.Prelude.{
  ℕ, ◌≡◌, refl, Bool, true, if◌then◌else◌, Option, some, List, [], ◌∷◌, ◌++◌, All,
}
use wasm_cloud_computing_ben.Engine.Ttree.Shape.{Tree, tip, in_order}

-- The last element without a property, or the one given.
abbrev pub last_without : (ℕ → Bool) → Option ℕ → List ℕ → Option ℕ
last_without p d [] = d
last_without p d (x ∷ xs) = last_without p (if p x then d else some x) xs

pub last_without-append :
    (p : ℕ → Bool) (d : Option ℕ) (xs ys : List ℕ)
    → last_without p d (xs ++ ys) ≡ last_without p (last_without p d xs) ys
last_without-append p d [] ys = refl
last_without-append p d (x ∷ xs) ys = last_without-append p (if p x then d else some x) xs ys

pub last_without-All :
    (p : ℕ → Bool) (d : Option ℕ) (xs : List ℕ) → All (λ x. p x ≡ true) xs → last_without p d xs ≡ d
last_without-All p d [] all = refl
last_without-All p d (x ∷ xs) (h, all) = rw h (last_without-All p d xs all)

-- Each element and those behind it are related.
abbrev pub Pairwise : (ℕ → ℕ → Type 0) → List ℕ → Type 0
Pairwise R [] = Unit
Pairwise R (x ∷ xs) = All (R x) xs × Pairwise R xs

pub Pairwise-append :
    (R : ℕ → ℕ → Type 0) (xs ys : List ℕ) → Pairwise R (xs ++ ys) → Pairwise R xs × Pairwise R ys
Pairwise-append R [] ys h = (tt, h)
Pairwise-append R (x ∷ xs) ys (all, h) =
    let (front, back) = Pairwise-append R xs ys h in ((All_front xs all, front), back)
  where
    All_front : (xs : List ℕ) → All (R x) (xs ++ ys) → All (R x) xs
    All_front [] all = tt
    All_front (y ∷ zs) (h, all) = (h, All_front zs all)

pub All-imp : (P Q : ℕ → Type 0) (xs : List ℕ) → ((x : ℕ) → P x → Q x) → All P xs → All Q xs
All-imp P Q [] f all = tt
All-imp P Q (x ∷ xs) f (h, all) = (f x h, All-imp P Q xs f all)

pub tip_last :
    (p : ℕ → Bool) (d : Option ℕ) (t : Tree) → t ≡ tip → last_without p d (in_order t) ≡ d
unfolding in_order
tip_last p d t e = rw e refl
