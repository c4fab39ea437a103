-- ===== src/Upserts/Merged.antt =====
-- `uniqueStrings` and the merging of `upsertAuthMethod`.
use mathlib.Core.Logic.{◌↔◌}
use mathlib.Core.Path.{subst}
use consul_ecs.Base.{
  ◌≡◌, refl, sym, ◌∙◌, String, List, [], ◌∷◌, arith, contains, Bool-cases, inl, inr, eq_iff,
}
use consul_ecs.Base.Ascending.{
  NoRepeats, IsAscending, contains-sort_strings, sort_strings-IsAscending, IsAscending-eq,
}
use consul_ecs.Consul.Acl.{AuthMethod}
use consul_ecs.Client.{Client}
use consul_ecs.Config.Types.{Config}
use consul_ecs.Upserts.Unique.{keys, unique_strings}
use consul_ecs.Upserts.Methods.{principals_key, tags_key, texts_under, merged_method}

contains-keys : (xs : List String) (n : String) → contains (keys xs) n ≡ contains xs n
unfolding keys
contains-keys [] n = refl
contains-keys (x ∷ xs) n = elim (Bool-cases (contains (keys xs) x)) [
  | inl old ↦ rw (old, keys) (ground (arith, contains-keys xs n, contains-keys xs x, eq_iff x n))
  | inr new ↦ rw (new, keys) (ground (arith, contains-keys xs n))
]

keys-NoRepeats : (xs : List String) → NoRepeats (keys xs)
unfolding keys
keys-NoRepeats [] = tt
keys-NoRepeats (x ∷ xs) = elim (Bool-cases (contains (keys xs) x)) [
  | inl old ↦ rw (old, keys) (keys-NoRepeats xs)
  | inr new ↦ rw (new, keys) (new, keys-NoRepeats xs)
]

contains-unique_strings :
    (xs : List String) (n : String) → contains (unique_strings xs) n ≡ contains xs n
unfolding unique_strings
contains-unique_strings xs n = contains-sort_strings (keys xs) n ∙ contains-keys xs n

unique_strings-IsAscending : (xs : List String) → IsAscending (unique_strings xs)
unfolding unique_strings
unique_strings-IsAscending xs = sort_strings-IsAscending (keys xs) (keys-NoRepeats xs)

-- `uniqueStrings` gives the one strictly ascending list with the members of its argument, so its
-- result depends on neither the order of the argument nor repeats in it.
pub unique_strings_iff :
    (xs ys : List String)
    → (unique_strings xs ≡ ys) ↔ (IsAscending ys × ((n : String) → contains ys n ≡ contains xs n))
unique_strings_iff xs ys = (
  λ e.
      subst (λ zs. IsAscending zs × ((n : String) → contains zs n ≡ contains xs n)) e
        (unique_strings-IsAscending xs, contains-unique_strings xs),
  λ h.
      IsAscending-eq (unique_strings xs) ys (unique_strings-IsAscending xs) h.0
        (λ n. contains-unique_strings xs n ∙ sym (h.1 n)),
)

-- What is found after an update, in whichever form Consul gives the lists back.
abbrev pub IsUpdated : AuthMethod → AuthMethod → AuthMethod → Type 0
IsUpdated before ours after =
    (texts_under principals_key after ≡ texts_under principals_key (merged_method before ours))
    × (texts_under tags_key after ≡ texts_under tags_key (merged_method before ours))
