-- ===== src/Database/Ordering.antt =====
-- What sorting keeps.
use signapse_mdg.Base.{Bool, List, [], ◌∷◌, All, arith}
use signapse_mdg.Database.{place, sorted_by}

module _ {A : Type 0} (before : A → A → Bool) where
  All-place : (P : A → Type 0) (a : A) (l : List A) → P a → All P l → All P (place before a l)
  All-place P a [] here h = (here, tt)
  All-place P a (b ∷ l) here (there, h) = ground (arith, here, there, h, All-place P a l here h)

  pub All-sorted_by : (P : A → Type 0) (l : List A) → All P l → All P (sorted_by before l)
  All-sorted_by P [] h = tt
  All-sorted_by P (a ∷ l) (here, h) = All-place P a (sorted_by before l) here (All-sorted_by P l h)
