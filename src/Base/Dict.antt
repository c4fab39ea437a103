-- ===== src/Base/Dict.antt =====
-- Go's maps with string keys, as association lists in the order of insertion. Proofs elsewhere go
-- by the laws.
use Prim.Native.String.{String}
use mathlib.Core.Path.{◌≡◌, refl, sym, subst, subst₂}
use mathlib.Core.Logic.{inl, inr}
use mathlib.Core.Option.{Option, none, some, some-injective}
use mathlib.Core.List.{List, [], ◌∷◌}
use native.Mathlib.Omega.{arith}
use text.Mathlib.Text.{◌==◌}
use text.Mathlib.TextEquality.{eq_iff}
use consul_ecs.Base.Lists.{All}
use mathlib.Core.Bool.{true}
use text.Mathlib.TextPositions.{eq_refl}
use consul_ecs.Base.Tests.{is_some, Bool-cases, if◌then◌else◌}

abbrev pub Dict : Type 0 → Type 0
Dict V = List (String × V)

module _ {V : Type 0} where
  -- v, ok := m[k]
  unfoldable pub lookup : String → Dict V → Option V
  lookup k [] = none
  lookup k ((j, v) ∷ m) = if j == k then some v else lookup k m

  -- m[k] = v
  unfoldable pub insert : String → V → Dict V → Dict V
  insert k v [] = (k, v) ∷ []
  insert k v ((j, w) ∷ m) = if j == k then (j, v) ∷ m else (j, w) ∷ insert k v m

  -- for k, v := range m { result[k] = v }
  unfoldable pub insert_all : Dict V → Dict V → Dict V
  insert_all [] result = result
  insert_all ((k, v) ∷ m) result = insert_all m (insert k v result)

  -- Each key stands once, as in a Go map.
  abbrev pub NodupKeys : Dict V → Type 0
  NodupKeys [] = Unit
  NodupKeys ((k, v) ∷ m) = (lookup k m ≡ none) × NodupKeys m

  pub lookup-nil : (k : String) → lookup k [] ≡ none
  unfolding lookup
  lookup-nil k = refl

  pub lookup-insert :
      (j k : String) (v : V) (m : Dict V)
      → lookup j (insert k v m) ≡ (if k == j then some v else lookup j m)
  unfolding lookup insert
  lookup-insert j k v [] = refl
  lookup-insert j k v ((i, w) ∷ m) =
      ground (arith, eq_iff k j, eq_iff i k, eq_iff i j, lookup-insert j k v m)

  pub insert-NodupKeys : (k : String) (v : V) (m : Dict V) → NodupKeys m → NodupKeys (insert k v m)
  unfolding insert lookup
  insert-NodupKeys k v [] h = (refl, tt)
  insert-NodupKeys k v ((j, w) ∷ m) h =
      ground (arith, insert-NodupKeys k v m, lookup-insert j k v m, eq_iff k j, eq_iff j k)

  -- Where the ranged map has the key, its value wins; elsewhere the earlier one stays.
  pub lookup-insert_all :
      (k : String) (m result : Dict V)
      → NodupKeys m
      → lookup k (insert_all m result)
        ≡ elim (lookup k m) [ some v ↦ some v | none ↦ lookup k result ]
  unfolding insert_all lookup
  lookup-insert_all k [] result h = refl
  lookup-insert_all k ((j, w) ∷ m) result h =
      ground (
        arith,
        lookup-insert_all k m (insert j w result) h.1,
        lookup-insert k j w result,
        eq_iff j k,
      )

  -- A property of every key and its value.
  abbrev pub Entries : (String → V → Type 0) → Dict V → Type 0
  Entries P [] = Unit
  Entries P ((k, v) ∷ m) = P k v × Entries P m

  abbrev pub values : Dict V → List V
  values [] = []
  values ((_, v) ∷ m) = v ∷ values m

  pub insert-Entries :
      (P : String → V → Type 0) (k : String) (v : V) (m : Dict V)
      → P k v
      → Entries P m
      → Entries P (insert k v m)
  unfolding insert
  insert-Entries P k v [] p h = (p, tt)
  insert-Entries P k v ((j, w) ∷ m) p h = elim (Bool-cases (j == k)) [
    | inl e ↦ rw e (subst (λ i. P i v) (sym ((eq_iff j k).0 e)) p, h.1)
    | inr e ↦ rw e (h.0, insert-Entries P k v m p h.1)
  ]

  pub lookup-Entries :
      (P : String → V → Type 0) (k : String) (m : Dict V) {v : V}
      → Entries P m
      → lookup k m ≡ some v
      → P k v
  unfolding lookup
  lookup-Entries P k [] h e = absurd (ground arith)
  lookup-Entries P k ((j, w) ∷ m) {v} h e = elim (Bool-cases (j == k)) [
    | inl same ↦ subst₂ P ((eq_iff j k).0 same) (some-injective w v (rw same at e)) h.0
    | inr other ↦ lookup-Entries P k m h.1 (rw other at e)
  ]

  pub Entries-values :
      (P : String → V → Type 0) (Q : V → Type 0)
      → ((k : String) (v : V) → P k v → Q v)
      → (m : Dict V) → Entries P m
      → All Q (values m)
  Entries-values P Q f [] h = tt
  Entries-values P Q f ((k, v) ∷ m) h = (f k v h.0, Entries-values P Q f m h.1)

  pub Entries-map₂ :
      (P Q R : String → V → Type 0)
      → ((k : String) (v : V) → P k v → Q k v → R k v)
      → (m : Dict V) → Entries P m
      → Entries Q m
      → Entries R m
  Entries-map₂ P Q R f [] p q = tt
  Entries-map₂ P Q R f ((k, v) ∷ m) p q = (f k v p.0 q.0, Entries-map₂ P Q R f m p.1 q.1)

  -- Every key of the map is found in it.
  pub Entries-lookup : (m : Dict V) → Entries (λ k v. is_some (lookup k m) ≡ true) m
  unfolding lookup
  Entries-lookup [] = tt
  Entries-lookup ((j, w) ∷ m) = (
    rw eq_refl refl,
    Entries-map₂ (λ k v. is_some (lookup k m) ≡ true) (λ k v. is_some (lookup k m) ≡ true)
        (λ k v. is_some (if j == k then some w else lookup k m) ≡ true) (λ k v p q. ground arith) m
        (Entries-lookup m) (Entries-lookup m),
  )
