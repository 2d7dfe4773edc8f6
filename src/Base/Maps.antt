-- ===== src/Base/Maps.antt =====
-- `HashMap<String, V>` as an association list. The order of the list stands for the order in which
-- the map is traversed, which the language leaves open.
use Prim.Native.String.{String}
use Prim.Native.Nat.{◌≤◌}
use mathlib.Core.Path.{◌≡◌, refl, subst}
use mathlib.Core.Bool.{Bool}
use mathlib.Core.Option.{Option, none, some}
use mathlib.Core.List.{List, [], ◌∷◌}
use native.Mathlib.Omega.{arith}
use text.Mathlib.Text.{◌==◌ as str_eq}
use text.Mathlib.TextEquality.{eq_iff}
use mathlib.Core.Logic.{inl, inr}
use three_pillars_voip.Base.Lists.{length}
use three_pillars_voip.Base.Logic.{Bool-cases, if◌then◌else◌}

abbrev pub StringMap {ℓ} : Type ℓ → Type ℓ
StringMap V = List (String × V)

module _ {ℓ} {V : Type ℓ} where
  unfoldable pub lookup : (key : String) → StringMap V → Option V
  lookup key [] = none
  lookup key ((name, value) ∷ rest) = if str_eq name key then some value else lookup key rest

  unfoldable pub insert : (key : String) (value : V) → StringMap V → StringMap V
  insert key value [] = (key, value) ∷ []
  insert key value ((name, old) ∷ rest) =
      if str_eq name key then (key, value) ∷ rest else (name, old) ∷ insert key value rest

  -- Every entry of the key goes, of which there is at most one.
  unfoldable pub remove : String → StringMap V → StringMap V
  remove k [] = []
  remove k ((j, v) ∷ m) = let rest = remove k m in if str_eq j k then rest else (j, v) ∷ rest

  unfoldable pub retain : (V → Bool) → StringMap V → StringMap V
  retain keep [] = []
  retain keep ((j, v) ∷ m) = let rest = retain keep m in if keep v then (j, v) ∷ rest else rest

  pub lookup-insert :
      (set key : String) (value : V) (m : StringMap V)
      → lookup key (insert set value m) ≡ (if str_eq set key then some value else lookup key m)
  unfolding insert lookup
  lookup-insert set key value [] = refl
  lookup-insert set key value ((name, old) ∷ rest) =
      ground
        (arith, lookup-insert set key value rest, eq_iff name key, eq_iff set key, eq_iff name set)

  pub lookup-remove :
      (k j : String) (m : StringMap V)
      → lookup j (remove k m) ≡ (if str_eq k j then none else lookup j m)
  unfolding lookup remove
  lookup-remove k j [] = ground arith
  lookup-remove k j ((i, w) ∷ m) =
      ground (arith, eq_iff k j, eq_iff i k, eq_iff i j, lookup-remove k j m)

  -- Of every key and value.
  abbrev pub AllValues {κ} : (V → Type κ) → StringMap V → Type κ
  AllValues P [] = Unit
  AllValues P ((k, v) ∷ m) = P v × AllValues P m

  pub AllValues-insert {κ} :
      (P : V → Type κ) (k : String) (v : V) (m : StringMap V)
      → P v
      → AllValues P m
      → AllValues P (insert k v m)
  unfolding insert
  AllValues-insert P k v [] h a = (h, tt)
  AllValues-insert P k v ((j, w) ∷ m) h a = elim (Bool-cases (str_eq j k)) [
    | inl e ↦ rw e (h, a.1)
    | inr e ↦ rw e (a.0, AllValues-insert P k v m h a.1)
  ]

  pub lookup-AllValues {κ} :
      (P : V → Type κ) (k : String) (m : StringMap V) {v : V}
      → AllValues P m
      → lookup k m ≡ some v
      → P v
  unfolding lookup
  lookup-AllValues P k [] a e = cc
  lookup-AllValues P k ((j, w) ∷ m) {v} a e = elim (Bool-cases (str_eq j k)) [
    | inl t ↦ let q : some w ≡ some v = rw t at e in let p : w ≡ v = cc in subst P p a.0
    | inr t ↦ lookup-AllValues P k m a.1 (rw t at e)
  ]

  pub AllValues-retain {κ} :
      (P : V → Type κ) (keep : V → Bool) (m : StringMap V)
      → AllValues P m
      → AllValues P (retain keep m)
  unfolding retain
  AllValues-retain P keep [] a = tt
  AllValues-retain P keep ((j, w) ∷ m) a = elim (Bool-cases (keep w)) [
    | inl e ↦ rw e (a.0, AllValues-retain P keep m a.1)
    | inr e ↦ rw e (AllValues-retain P keep m a.1)
  ]

  pub AllValues-remove {κ} :
      (P : V → Type κ) (k : String) (m : StringMap V) → AllValues P m → AllValues P (remove k m)
  unfolding remove
  AllValues-remove P k [] a = tt
  AllValues-remove P k ((j, w) ∷ m) a = elim (Bool-cases (str_eq j k)) [
    | inl e ↦ rw e (AllValues-remove P k m a.1)
    | inr e ↦ rw e (a.0, AllValues-remove P k m a.1)
  ]

  -- No key stands twice.
  abbrev pub Distinct : StringMap V → Type ℓ
  Distinct [] = Unit
  Distinct ((k, v) ∷ m) = (lookup k m ≡ none) × Distinct m

  pub Distinct-insert :
      (k : String) (v : V) (m : StringMap V) → Distinct m → Distinct (insert k v m)
  unfolding insert
  Distinct-insert k v [] d = (unfold lookup in refl, tt)
  Distinct-insert k v ((j, w) ∷ m) d = elim (Bool-cases (str_eq j k)) [
    | inl e ↦ let q : j ≡ k = (eq_iff j k).0 e in rw e (subst (λ x. lookup x m ≡ none) q d.0, d.1)
    | inr e ↦
        rw e
          (ground (arith, lookup-insert k j v m, eq_iff k j, eq_iff j k), Distinct-insert k v m d.1)
  ]

  abbrev pub kept : (V → Bool) → Option V → Option V
  kept keep none = none
  kept keep (some v) = if keep v then some v else none

  lookup-retain_none :
      (keep : V → Bool) (k : String) (m : StringMap V)
      → lookup k m ≡ none
      → lookup k (retain keep m) ≡ none
  unfolding lookup retain
  lookup-retain_none keep k [] e = refl
  lookup-retain_none keep k ((j, w) ∷ m) e = ground (arith, lookup-retain_none keep k m)

  pub lookup-retain :
      (keep : V → Bool) (k : String) (m : StringMap V)
      → Distinct m
      → lookup k (retain keep m) ≡ kept keep (lookup k m)
  unfolding lookup retain
  lookup-retain keep k [] d = refl
  lookup-retain keep k ((j, w) ∷ m) d =
      ground (arith, lookup-retain keep k m d.1, eq_iff j k, lookup-retain_none keep j m d.0)

  pub length-retain : (keep : V → Bool) (m : StringMap V) → length (retain keep m) ≤ length m
  unfolding retain
  length-retain keep [] = omega arith
  length-retain keep ((j, w) ∷ m) = ground (arith, length-retain keep m)
