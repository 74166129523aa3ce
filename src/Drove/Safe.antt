-- ===== src/Drove/Safe.antt =====
-- bothy/drove.py: what reaches Drove's command line, and actions that are stored and read again.
use bothy.Common.{
  String, Bool, true, false, Option, none, some, List, [], ◌∷◌, ◌≡◌, refl, subst, inl, inr,
  Bool-cases, arith, str_eq, str_eq_iff, ok,
}
use bothy.Json.{keys, all_known, Json, Members, find, text, dict, list, number, truth, nothing}
use bothy.Text.{Chars, codes, starts_with, is_letter, is_digit, contains_char, before}
use bothy.Drove.Action.{
  Shape, from_cairn, next, run, Action, fits, shape_in, is_text, repo_of, checked, value_of, finish,
  build_shape, build, outcome, made, as_dict, resolve_action, parse_action, is_cairn_ref,
  is_project_key, is_run_id, is_alnum,
}
use bothy.Drove.Build.{IsPath, IsValid, build-inv, outcome-made, repo_of-IsPath}

is_project_key-starts : (s : Chars) → is_project_key s ≡ true → starts_with b'-' s ≡ false
unfolding is_project_key starts_with is_letter
is_project_key-starts [] h = refl
is_project_key-starts (c ∷ cs) h = ground arith

is_run_id-starts : (s : Chars) → is_run_id s ≡ true → starts_with b'-' s ≡ false
unfolding is_run_id starts_with is_alnum is_letter is_digit
is_run_id-starts [] h = refl
is_run_id-starts (c ∷ cs) h = ground arith

is_cairn_ref-starts : (s : Chars) → is_cairn_ref s ≡ true → starts_with b'-' s ≡ false
unfolding is_cairn_ref before is_project_key starts_with contains_char
is_cairn_ref-starts [] h = refl
is_cairn_ref-starts (c ∷ cs) h = ground arith

fits-starts :
    (shape : Shape) (s : String) → fits shape s ≡ true → starts_with b'-' (codes s) ≡ false
unfolding fits
fits-starts from_cairn s h = is_cairn_ref-starts (codes s) h
fits-starts next s h = is_project_key-starts (codes s) h
fits-starts run s h = is_run_id-starts (codes s) h

module _ (dotted : String → List String) where
  build_dict :
      (template : Bool) (payload raw : Json) (a : Action)
      → build dotted template payload raw ≡ ok (some a)
      → (ms : Members) × (raw ≡ dict ms)
  unfolding build
  build_dict template payload (dict ms) a h = (ms, refl)
  build_dict template payload nothing a h = cc
  build_dict template payload (text s) a h = cc
  build_dict template payload (truth b) a h = cc
  build_dict template payload (number n) a h = cc
  build_dict template payload (list vs) a h = cc

  -- An action that a route makes of a payload takes its shape and its repo from the configured
  -- action alone; its value matches the shape's pattern and is no option on Drove's command line, and
  -- its repo, if it has one, is absolute.
  pub resolve_action-made :
      (raw payload : Json) (a : Action)
      → resolve_action dotted raw payload ≡ made a
      → IsValid a
        × (starts_with b'-' (codes a.value) ≡ false)
        × ((ms : Members) × (raw ≡ dict ms)
            × (shape_in ms ≡ some a.shape)
            × (repo_of (find ms "repo") ≡ ok a.repo))
  unfolding resolve_action
  resolve_action-made raw payload a h =
      let built = outcome-made dotted (build dotted false payload raw) a h in
      let (ms, same) = build_dict false payload raw a built in
      let (known, shape, repo, good) =
        build-inv dotted false payload ms a
          (subst (λ r. build dotted false payload r ≡ ok (some a)) same built) in
      (
        (good, repo_of-IsPath _ a.repo repo),
        fits-starts a.shape a.value good,
        (ms, same, shape, repo),
      )

  -- an absolute path is not empty
  path_named : (r : String) → starts_with b'/' (codes r) ≡ true → str_eq r "" ≡ false
  unfolding starts_with
  path_named r h = elim (Bool-cases (str_eq r "")) [
    | inr other ↦ other
    | inl empty ↦
        let g = subst (λ s. starts_with b'/' (codes s) ≡ true) ((str_eq_iff r "").0 empty) h in cc
  ]

  parse_stored :
      (shape : Shape) (value : String) (repo : Option String)
      → fits shape value ≡ true
      → IsPath repo
      → (let a : Action = record { shape = shape; value = value; repo = repo } in
          parse_action dotted (as_dict a) ≡ made a)
  unfolding parse_action as_dict build shape_in keys all_known is_text find build_shape value_of
      checked repo_of finish outcome
  parse_stored from_cairn value none h p = rw h refl
  parse_stored next value none h p = rw h refl
  parse_stored run value none h p = rw h refl
  parse_stored from_cairn value (some r) h p =
      rw (path_named r p.0, h, path_named r p.0, p.0, p.1) refl
  parse_stored next value (some r) h p = rw (path_named r p.0, h, path_named r p.0, p.0, p.1) refl
  parse_stored run value (some r) h p = rw (path_named r p.0, h, path_named r p.0, p.0, p.1) refl

  -- An action that was made can be stored on a wake or a job and read again as what it was.
  pub parse_action-as_dict : (a : Action) → IsValid a → parse_action dotted (as_dict a) ≡ made a
  parse_action-as_dict a h = parse_stored a.shape a.value a.repo h.0 h.1
