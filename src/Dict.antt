-- ===== src/Dict.antt =====
-- A Python `dict` with string keys, in the order in which its keys were first written.
use bothy.Common.{
  ℕ, ◌+◌, ◌≤◌, String, ◌≡◌, refl, Bool, Option, none, some, List, [], ◌∷◌, arith, str_eq,
  str_eq_iff, if◌then◌else◌, length, is_some,
}

abbrev pub Dict {ℓ} : Type ℓ → Type ℓ
Dict V = List (String × V)

module _ {ℓ} {V : Type ℓ} where
  -- d.get(k)
  unfoldable pub get : Dict V → String → Option V
  get [] k = none
  get ((j, v) ∷ d) k = if str_eq j k then some v else get d k

  -- k in d
  unfoldable pub contains : Dict V → String → Bool
  contains d k = is_some (get d k)

  -- d[k] = v
  unfoldable pub set : Dict V → String → V → Dict V
  set [] k v = (k, v) ∷ []
  set ((j, w) ∷ d) k v = if str_eq j k then (k, v) ∷ d else (j, w) ∷ set d k v

  -- d.pop(k, None), for the dictionary that it leaves
  unfoldable pub remove : Dict V → String → Dict V
  remove [] k = []
  remove ((j, v) ∷ d) k = let rest = remove d k in if str_eq j k then rest else (j, v) ∷ rest

  -- sum(f(v) for v in d.values())
  unfoldable pub sum_values : (V → ℕ) → Dict V → ℕ
  sum_values f [] = 0
  sum_values f ((j, v) ∷ d) = f v + sum_values f d

  -- no key is there twice
  abbrev pub IsUnique : Dict V → Type ℓ
  IsUnique [] = Unit
  IsUnique ((k, v) ∷ d) = (get d k ≡ none) × IsUnique d

  pub get-remove :
      (d : Dict V) (k j : String) → get (remove d k) j ≡ (if str_eq k j then none else get d j)
  unfolding get remove
  get-remove [] k j = ground arith
  get-remove ((i, v) ∷ d) k j =
      ground (arith, get-remove d k j, str_eq_iff i k, str_eq_iff i j, str_eq_iff k j)

  pub get-set :
      (d : Dict V) (k j : String) (v : V)
      → get (set d k v) j ≡ (if str_eq k j then some v else get d j)
  unfolding get set
  get-set [] k j v = refl
  get-set ((i, w) ∷ d) k j v =
      ground (arith, get-set d k j v, str_eq_iff i k, str_eq_iff i j, str_eq_iff k j)

  pub length-remove-le : (d : Dict V) (k : String) → length (remove d k) ≤ length d
  unfolding remove
  length-remove-le [] k = omega arith
  length-remove-le ((j, v) ∷ d) k = ground (arith, length-remove-le d k)

  pub length-set-le : (d : Dict V) (k : String) (v : V) → length (set d k v) ≤ length d + 1
  unfolding set
  length-set-le [] k v = omega arith
  length-set-le ((j, w) ∷ d) k v = ground (arith, length-set-le d k v)

  -- a write to a key that is there adds no entry
  pub length-set_present :
      (d : Dict V) (k : String) (v w : V) → get d k ≡ some w → length (set d k v) ≡ length d
  unfolding set get
  length-set_present [] k v w h = ground arith
  length-set_present ((j, u) ∷ d) k v w h = ground (arith, length-set_present d k v w)

  -- a write to a key that is not there adds one
  pub length-set_absent :
      (d : Dict V) (k : String) (v : V) → get d k ≡ none → length (set d k v) ≡ length d + 1
  unfolding set get
  length-set_absent [] k v h = omega arith
  length-set_absent ((j, u) ∷ d) k v h = ground (arith, length-set_absent d k v)

  -- a key that is there takes an entry with it
  pub length-remove-present :
      (d : Dict V) (k : String) (v : V) → get d k ≡ some v → length (remove d k) + 1 ≤ length d
  unfolding remove get
  length-remove-present [] k v h = ground arith
  length-remove-present ((j, u) ∷ d) k v h =
      ground (arith, length-remove-present d k v, length-remove-le d k)

  pub sum_values-remove-le :
      (f : V → ℕ) (d : Dict V) (k : String) → sum_values f (remove d k) ≤ sum_values f d
  unfolding sum_values remove
  sum_values-remove-le f [] k = omega arith
  sum_values-remove-le f ((j, v) ∷ d) k = ground (arith, sum_values-remove-le f d k)

  pub sum_values-remove-present :
      (f : V → ℕ) (d : Dict V) (k : String) (v : V)
      → get d k ≡ some v
      → sum_values f (remove d k) + f v ≤ sum_values f d
  unfolding sum_values remove get
  sum_values-remove-present f [] k v h = ground arith
  sum_values-remove-present f ((j, u) ∷ d) k v h =
      ground (arith, sum_values-remove-present f d k v, sum_values-remove-le f d k)

  pub sum_values-set-le :
      (f : V → ℕ) (d : Dict V) (k : String) (v : V)
      → sum_values f (set d k v) ≤ sum_values f d + f v
  unfolding sum_values set
  sum_values-set-le f [] k v = omega arith
  sum_values-set-le f ((j, u) ∷ d) k v = ground (arith, sum_values-set-le f d k v)

  -- a write over an old value trades the one for the other
  pub sum_values-set-present :
      (f : V → ℕ) (d : Dict V) (k : String) (v w : V)
      → get d k ≡ some w
      → sum_values f (set d k v) + f w ≡ sum_values f d + f v
  unfolding sum_values set get
  sum_values-set-present f [] k v w h = ground arith
  sum_values-set-present f ((j, u) ∷ d) k v w h = ground (arith, sum_values-set-present f d k v w)

pub ruleset dict_laws = (get-remove, get-set)
