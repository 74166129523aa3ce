-- ===== src/Drove/Build.antt =====
-- bothy/drove.py: what an action that was built is, and that it can be stored and read again.
use bothy.Common.{
  String, Bool, true, false, Option, none, some, List, ◌≡◌, sym, ◌∙◌, ap, subst, inl, inr,
  Bool-cases, Option-cases, Result, ok, err, bind_ok, ok_injective, value_or,
}
use bothy.Json.{keys, all_known, Json, Members, find, text, dict, list, number, truth, nothing}
use bothy.Text.{codes, starts_with, contains_char}
use bothy.Drove.Action.{
  Shape, Action, ActionError, key_of, verb_of, fits, known_keys, shape_in, is_text, checked,
  from_payload, repo_of, value_of, finish, build_shape, build, made, outcome, placeholder,
}

-- the repo is none, or an absolute path with no NUL in it
abbrev pub IsPath : Option String → Type 0
IsPath none = Unit
IsPath (some s) = (starts_with b'/' (codes s) ≡ true) × (contains_char 0 (codes s) ≡ false)

abbrev pub IsValid : Action → Type 0
IsValid a = (fits a.shape a.value ≡ true) × IsPath a.repo

-- what a value that was read is
abbrev pub FitsIfAny : Shape → Option String → Type 0
FitsIfAny shape none = Unit
FitsIfAny shape (some s) = fits shape s ≡ true

checked-fits :
    (shape : Shape) (s : String) (o : Option String) → checked shape s ≡ ok o → FitsIfAny shape o
unfolding checked
checked-fits shape s o h = elim (Bool-cases (fits shape s)) [
  | inl good ↦ subst (FitsIfAny shape) (ok_injective (some s) o (rw good at h)) good
  | inr bad ↦ let g = rw bad at h in cc
]

from_payload-fits :
    (shape : Shape) (v : Option Json) (o : Option String)
    → from_payload shape v ≡ ok o
    → FitsIfAny shape o
unfolding from_payload
from_payload-fits shape none o h = cc
from_payload-fits shape (some (text s)) o h = checked-fits shape s o h
from_payload-fits shape (some nothing) o h = cc
from_payload-fits shape (some (truth b)) o h = cc
from_payload-fits shape (some (number n)) o h = cc
from_payload-fits shape (some (list vs)) o h = cc
from_payload-fits shape (some (dict ms)) o h = cc

pub repo_of-IsPath : (v : Option Json) (o : Option String) → repo_of v ≡ ok o → IsPath o
unfolding repo_of
repo_of-IsPath none o h = subst IsPath (ok_injective none o h) tt
repo_of-IsPath (some nothing) o h = subst IsPath (ok_injective none o h) tt
repo_of-IsPath (some (text s)) o h = elim (Bool-cases (starts_with b'/' (codes s))) [
  | inr relative ↦ let g = rw relative at h in cc
  | inl absolute ↦ elim (Bool-cases (contains_char 0 (codes s))) [
    | inl cut ↦ let g = rw (absolute, cut) at h in cc
    | inr whole ↦
        subst IsPath (ok_injective (some s) o (rw (absolute, whole) at h)) (absolute, whole)
  ]
]
repo_of-IsPath (some (truth b)) o h = cc
repo_of-IsPath (some (number n)) o h = cc
repo_of-IsPath (some (list vs)) o h = cc
repo_of-IsPath (some (dict ms)) o h = cc

module _ (dotted : String → List String) where
  value_of-fits :
      (template : Bool) (payload : Json) (shape : Shape) (v : Json) (o : Option String)
      → value_of dotted template payload shape v ≡ ok o
      → FitsIfAny shape o
  unfolding value_of
  value_of-fits template payload shape (text s) o h = checked-fits shape s o h
  value_of-fits template payload shape nothing o h =
      subst (FitsIfAny shape) (ok_injective none o h) tt
  value_of-fits template payload shape (truth b) o h = cc
  value_of-fits template payload shape (number n) o h = cc
  value_of-fits template payload shape (list vs) o h = cc
  value_of-fits template payload shape (dict ms) o h = elim (Option-cases (placeholder ms)) [
    | inl bad ↦ let g = rw (bad, value_of) at h in cc
    | inr (path, good) ↦ elim (Bool-cases template) [
      | inl blank ↦
          subst (FitsIfAny shape) (ok_injective none o (rw (good, value_of, blank) at h)) tt
      | inr filled ↦ from_payload-fits shape _ o (rw (good, value_of, filled) at h)
    ]
  ]

  finish-some :
      (shape : Shape) (o repo : Option String) (a : Action)
      → finish dotted shape o repo ≡ some a
      → (a.shape ≡ shape) × (o ≡ some a.value) × (repo ≡ a.repo)
  unfolding finish
  finish-some shape none repo a h = cc
  finish-some shape (some value) repo a h = (cc, cc, cc)

  -- where the parts of an action come from
  build_shape-inv :
      (template : Bool) (payload : Json) (ms : Members) (shape : Shape) (a : Action)
      → build_shape dotted template payload ms shape ≡ ok (some a)
      → (a.shape ≡ shape)
        × (is_text (find ms "action") (verb_of shape) ≡ true)
        × (repo_of (find ms "repo") ≡ ok a.repo)
        × (value_of dotted template payload shape (value_or (find ms (key_of shape)) nothing)
            ≡ ok (some a.value))
  unfolding build_shape
  build_shape-inv template payload ms shape a h =
      elim (Bool-cases (is_text (find ms "action") (verb_of shape))) [
        | inr other ↦ let g = rw other at h in cc
        | inl verb ↦
            let (o, valued, h') =
              bind_ok
                (value_of dotted template payload shape (value_or (find ms (key_of shape)) nothing))
                _ (some a) (rw verb at h) in
            let (repo, rooted, h'') = bind_ok (repo_of (find ms "repo")) _ (some a) h' in
            let (same_shape, same_value, same_repo) =
              finish-some shape o repo a (ok_injective _ _ h'') in
            (same_shape, verb, rooted ∙ ap ok same_repo, valued ∙ ap ok same_value)
      ]

  pub build-inv :
      (template : Bool) (payload : Json) (ms : Members) (a : Action)
      → build dotted template payload (dict ms) ≡ ok (some a)
      → (all_known known_keys (keys ms) ≡ true)
        × (shape_in ms ≡ some a.shape)
        × (repo_of (find ms "repo") ≡ ok a.repo)
        × (fits a.shape a.value ≡ true)
  unfolding build
  build-inv template payload ms a h = elim (Bool-cases (all_known known_keys (keys ms))) [
    | inr strange ↦ let g = rw strange at h in cc
    | inl known ↦ elim (Option-cases (shape_in ms)) [
      | inl unclear ↦ let g = rw (known, unclear, build) at h in cc
      | inr (shape, one) ↦
          let (same, verb, rooted, valued) =
            build_shape-inv template payload ms shape a (rw (known, one, build) at h) in
          (
            known,
            one ∙ ap some (sym same),
            rooted,
            subst (λ s. fits s a.value ≡ true) (sym same)
                (value_of-fits template payload shape _ (some a.value) valued),
          )
    ]
  ]

  pub outcome-made :
      (r : Result ActionError (Option Action)) (a : Action) → outcome r ≡ made a → r ≡ ok (some a)
  unfolding outcome
  outcome-made (ok (some b)) a h = cc
  outcome-made (ok none) a h = cc
  outcome-made (err e) a h = cc
