-- ===== src/Base/Ascending.antt =====
-- Lists of texts that ascend strictly: what sorting without repeats gives, in one way only.
use Prim.Native.String.{String}
use mathlib.Core.Path.{◌≡◌, refl, ap₂}
use mathlib.Core.Logic.{inl, inr}
use mathlib.Core.Bool.{true, false, ◌||◌}
use mathlib.Core.List.{List, [], ◌∷◌}
use native.Mathlib.Omega.{arith}
use text.Mathlib.Text.{◌==◌}
use text.Mathlib.TextEquality.{eq_iff}
use text.Mathlib.TextPositions.{eq_refl}
use consul_ecs.Base.Tests.{Bool-cases}
use consul_ecs.Base.Lists.{contains}
use consul_ecs.Base.Sort.{
  text_lt, text_lt_irrefl, text_lt_trans, text_lt_total, insert_sorted, sort_strings,
}

-- The text comes before all of the list.
abbrev pub IsBefore : String → List String → Type 0
IsBefore x xs = (n : String) → contains xs n ≡ true → text_lt x n ≡ true

abbrev pub IsAscending : List String → Type 0
IsAscending [] = Unit
IsAscending (x ∷ xs) = IsBefore x xs × IsAscending xs

-- No text stands twice in the list.
abbrev pub NoRepeats : List String → Type 0
NoRepeats [] = Unit
NoRepeats (x ∷ xs) = (contains xs x ≡ false) × NoRepeats xs

pub contains-insert_sorted :
    (x : String) (xs : List String) (n : String)
    → contains (insert_sorted x xs) n ≡ (x == n || contains xs n)
unfolding insert_sorted
contains-insert_sorted x [] n = refl
contains-insert_sorted x (y ∷ ys) n = ground (arith, contains-insert_sorted x ys n)

pub contains-sort_strings :
    (xs : List String) (n : String) → contains (sort_strings xs) n ≡ contains xs n
unfolding sort_strings
contains-sort_strings [] n = refl
contains-sort_strings (x ∷ xs) n =
    ground (arith, contains-insert_sorted x (sort_strings xs) n, contains-sort_strings xs n)

insert_sorted-IsAscending :
    (x : String) (xs : List String)
    → contains xs x ≡ false
    → IsAscending xs
    → IsAscending (insert_sorted x xs)
unfolding insert_sorted
insert_sorted-IsAscending x [] new up = ((λ n m. cc), tt)
insert_sorted-IsAscending x (y ∷ ys) new up = elim (Bool-cases (text_lt y x)) [
  | inl after ↦
      rw (after, insert_sorted)
        (
          λ n m. ground (arith, contains-insert_sorted x ys n, eq_iff x n, up.0 n),
          insert_sorted-IsAscending x ys (ground arith) up.1,
        )
  | inr not_after ↦
      let first : text_lt x y ≡ true = elim (Bool-cases (text_lt x y)) [
        | inl yes_first ↦ yes_first
        | inr neither ↦ ground (arith, text_lt_total y x not_after neither, eq_iff y x)
      ] in
      rw (not_after, insert_sorted)
        (λ n m. ground (arith, eq_iff y n, up.0 n, text_lt_trans x y n first), up)
]

pub sort_strings-IsAscending : (xs : List String) → NoRepeats xs → IsAscending (sort_strings xs)
unfolding sort_strings
sort_strings-IsAscending [] u = tt
sort_strings-IsAscending (x ∷ xs) u =
    insert_sorted-IsAscending x (sort_strings xs) (ground (arith, contains-sort_strings xs x))
      (sort_strings-IsAscending xs u.1)

-- Two ascending lists with the same members are one list.
pub IsAscending-eq :
    (xs ys : List String)
    → IsAscending xs
    → IsAscending ys
    → ((n : String) → contains xs n ≡ contains ys n)
    → xs ≡ ys
IsAscending-eq [] [] p q same = refl
IsAscending-eq [] (y ∷ ys) p q same = ground (arith, same y, eq_refl y)
IsAscending-eq (x ∷ xs) [] p q same = ground (arith, same x, eq_refl x)
IsAscending-eq (x ∷ xs) (y ∷ ys) p q same =
    let heads : x ≡ y = elim (Bool-cases (x == y)) [
      | inl e ↦ (eq_iff x y).0 e
      | inr other ↦
          let down : text_lt y x ≡ true =
            q.0 x (ground (arith, same x, eq_refl x, eq_iff x y, eq_iff y x)) in
          let up : text_lt x y ≡ true = p.0 y (ground (arith, same y, eq_refl y, eq_iff x y)) in
          ground (arith, text_lt_trans x y x up down, text_lt_irrefl x)
    ] in
    ap₂ ◌∷◌ heads (
      IsAscending-eq xs ys p.1 q.1 (λ n. elim (Bool-cases (x == n)) [
        | inl e ↦ ground (arith, p.0 n, q.0 n, text_lt_irrefl n, eq_iff x n, heads)
        | inr other ↦ ground (arith, same n, eq_iff x n, eq_iff y n, heads)
      ]))
