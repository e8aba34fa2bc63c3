-- ===== src/Prelude/Dict.antt =====
-- A Python dictionary with `str` keys: its entries in insertion order, each key once.
use mathlib.Core.Option
use secure_file_service.Prelude.{
  inr, inl, Bool-cases, ◌≡◌, refl, ◌≢◌, Option, none, some, List, [], ◌∷◌, ◌++◌, Text, text_eq,
  text_eq_iff, if◌then◌else◌, All, arith,
}

abbrev pub Dict {ℓ} : Type ℓ → Type ℓ
Dict V = List (Text × V)

module _ {ℓ} {V : Type ℓ} where
  -- d.get(k)
  unfoldable pub lookup : Text → Dict V → Option V
  lookup k [] = none
  lookup k ((j, v) ∷ d) = if text_eq j k then some v else lookup k d

  abbrev pub IsFresh : Text → Dict V → Type 0
  IsFresh k d = All (λ (e : Text × V). e.0 ≢ k) d

  abbrev pub HasDistinctKeys : Dict V → Type 0
  HasDistinctKeys [] = Unit
  HasDistinctKeys ((k, v) ∷ d) = IsFresh k d × HasDistinctKeys d

  pub lookup-none_iff :
      (k : Text) (d : Dict V)
      → (lookup k d ≡ none → IsFresh k d) × (IsFresh k d → lookup k d ≡ none)
  unfolding lookup
  lookup-none_iff k [] = ((λ h. tt), (λ h. refl))
  lookup-none_iff k ((j, v) ∷ d) =
      let (to, from) = lookup-none_iff k d in
      ((λ h. ground (arith, text_eq_iff j k)), (λ h. ground (arith, text_eq_iff j k)))

  -- A new entry goes behind the others.
  pub lookup-append :
      (k j : Text) (v : V) (d : Dict V)
      → lookup k d ≡ none
      → lookup j (d ++ (k, v) ∷ []) ≡ (if text_eq k j then some v else lookup j d)
  unfolding lookup
  lookup-append k j v [] h = refl
  lookup-append k j v ((i, w) ∷ d) h =
      ground (arith, lookup-append k j v d, text_eq_iff i k, text_eq_iff i j, text_eq_iff k j)

  -- d[k] = v
  unfoldable pub set : Text → V → Dict V → Dict V
  set k v [] = (k, v) ∷ []
  set k v ((j, w) ∷ d) = let rest = set k v d in if text_eq j k then (j, v) ∷ d else (j, w) ∷ rest

  pub lookup-set :
      (k j : Text) (v : V) (d : Dict V)
      → lookup j (set k v d) ≡ (if text_eq k j then some v else lookup j d)
  unfolding lookup set
  lookup-set k j v [] = refl
  lookup-set k j v ((i, w) ∷ d) =
      ground (arith, lookup-set k j v d, text_eq_iff i k, text_eq_iff i j, text_eq_iff k j)

  pub set-IsFresh : (k j : Text) (v : V) (d : Dict V) → k ≢ j → IsFresh j d → IsFresh j (set k v d)
  unfolding set
  set-IsFresh k j v [] ne h = (ne, tt)
  set-IsFresh k j v ((i, w) ∷ d) ne (n, h) = elim (Bool-cases (text_eq i k)) [
    | inl e ↦ rw e (n, h)
    | inr e ↦ rw e (n, set-IsFresh k j v d ne h)
  ]

  pub set-HasDistinctKeys :
      (k : Text) (v : V) (d : Dict V) → HasDistinctKeys d → HasDistinctKeys (set k v d)
  unfolding set
  set-HasDistinctKeys k v [] h = (tt, tt)
  set-HasDistinctKeys k v ((i, w) ∷ d) (f, h) = elim (Bool-cases (text_eq i k)) [
    | inl e ↦ rw e (f, h)
    | inr e ↦ rw e (
      set-IsFresh k i v d (λ p. ground (arith, e, text_eq_iff i k, p)) f,
      set-HasDistinctKeys k v d h,
    )
  ]

  -- d.pop(k, None)
  unfoldable pub remove : Text → Dict V → Dict V
  remove k [] = []
  remove k ((j, w) ∷ d) = let rest = remove k d in if text_eq j k then rest else (j, w) ∷ rest

  pub lookup-remove :
      (k j : Text) (d : Dict V) → lookup j (remove k d) ≡ (if text_eq k j then none else lookup j d)
  unfolding lookup remove
  lookup-remove k j [] = ground arith
  lookup-remove k j ((i, w) ∷ d) =
      ground (arith, lookup-remove k j d, text_eq_iff i k, text_eq_iff i j, text_eq_iff k j)

module _ {ℓ κ} {V : Type ℓ} {W : Type κ} (f : V → W) where
  -- {k: f(v) for k, v in d.items()}
  unfoldable pub map_values : Dict V → Dict W
  map_values [] = []
  map_values ((k, v) ∷ d) = (k, f v) ∷ map_values d

  pub lookup-map_values :
      (k : Text) (d : Dict V) → lookup k (map_values d) ≡ Option.map f (lookup k d)
  unfolding lookup map_values
  lookup-map_values k [] = refl
  lookup-map_values k ((j, v) ∷ d) = ground (arith, lookup-map_values k d)
