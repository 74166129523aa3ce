-- ===== src/Capability/Tools.antt =====
-- bothy/capability.py, ToolRegistry: the tools that Bothy hosts itself.
use bothy.Common.{
  ◌⊎◌, arith, String, Bool, true, false, Option, none, some, List, [], ◌∷◌, ◌&&◌, not, any, str_eq,
  if◌then◌else◌, if_elim, is_some, ◌≡◌, refl, sym, ◌∙◌, subst, str_eq_iff, Bool-cases, inl, inr,
}
use bothy.Dict
use bothy.Dict.{Dict, get-set}
use bothy.Json.{Json, dict, text, member, no_members}

-- what a tool's handler does: it answers, or raises
pub data Ran : Type 0 where
  answered : String → Ran
  raised : Ran

pub data Gate : Type 0 where
  allows : Gate
  declines : String → Gate
  fails : Gate

abbrev pub Handler : Type 0
Handler = Json → Ran

-- `gate` is none where no gate was put
pub record ToolRegistry : Type 0 where
  pub tools : Dict Handler
  pub gate : Option (String → Json → Gate)

pub data Answer : Type 0 where
  not_given gate_failed tool_failed : Answer
  declined : String → Answer
  said : String → Answer

unfoldable pub add : ToolRegistry → String → Handler → ToolRegistry
add r name h = record r { tools = Dict.set r.tools name h }

unfoldable pub put_behind : ToolRegistry → (String → Json → Gate) → ToolRegistry
put_behind r g = record r { gate = some g }

abbrev pub memory_tools : List String
memory_tools =
    "bothy_checklist_update" ∷ "bothy_note" ∷ "bothy_memory" ∷ "bothy_memory_note"
    ∷ "bothy_memory_consolidate" ∷ []

unfoldable pub blocked : Bool → String → Bool
blocked barred name = barred && any (str_eq name) memory_tools

unfoldable pub take_tool : Dict Handler → Bool → String → Option Handler → Dict Handler
take_tool out barred name none = out
take_tool out barred name (some h) = if blocked barred name then out else Dict.set out name h

unfoldable pub pick : Dict Handler → Bool → List String → Dict Handler → Dict Handler
pick all_tools barred [] out = out
pick all_tools barred (name ∷ names) out =
    pick all_tools barred names (take_tool out barred name (Dict.get all_tools name))

unfoldable pub select : ToolRegistry → List String → Bool → Bool → ToolRegistry
select r names untrusted allow_from_untrusted = record r {
  tools = pick r.tools (untrusted && not allow_from_untrusted) names [];
}

-- the arguments as the handler gets them; `loads` is json.loads
unfoldable pub arguments_of : (String → Option Json) → Json → Json
arguments_of loads (dict ms) = dict ms
arguments_of loads (text s) = elim (loads s) [
  | some (dict ms) ↦ dict ms
  | some v ↦ dict (member "value" v no_members)
  | none ↦ dict (member "value" (text s) no_members)
]
arguments_of loads v = dict (member "value" v no_members)

-- the answer, and whether the handler was run
unfoldable pub run_tool : Ran → Answer × Bool
run_tool (answered s) = (said s, true)
run_tool raised = (tool_failed, true)

unfoldable pub behind_gate : Gate → Ran → Answer × Bool
behind_gate allows ran = run_tool ran
behind_gate (declines why) ran = (declined why, false)
behind_gate fails ran = (gate_failed, false)

unfoldable pub ask_gate : Option (String → Json → Gate) → String → Json → Gate
ask_gate none name arguments = allows
ask_gate (some g) name arguments = g name arguments

unfoldable pub call_found :
    (String → Option Json) → ToolRegistry → String → Json → Option Handler → Answer × Bool
call_found loads r name arguments none = (not_given, false)
call_found loads r name arguments (some h) =
    behind_gate (ask_gate r.gate name arguments) (h (arguments_of loads arguments))

unfoldable pub call : (String → Option Json) → ToolRegistry → String → Json → Answer × Bool
call loads r name arguments = call_found loads r name arguments (Dict.get r.tools name)

behind_gate-ran : (g : Gate) (ran : Ran) → (behind_gate g ran).1 ≡ true → g ≡ allows
unfolding behind_gate
behind_gate-ran allows ran h = refl
behind_gate-ran (declines why) ran h = cc
behind_gate-ran fails ran h = cc

call_found-ran :
    (loads : String → Option Json) (r : ToolRegistry) (name : String) (arguments : Json)
    (o : Option Handler)
    → (call_found loads r name arguments o).1 ≡ true
    → (ask_gate r.gate name arguments ≡ allows) × (is_some o ≡ true)
unfolding call_found
call_found-ran loads r name arguments none h = cc
call_found-ran loads r name arguments (some t) h =
    (behind_gate-ran (ask_gate r.gate name arguments) _ h, refl)

-- a tool of the selection was there before, or is named and not blocked
abbrev IsPicked : Bool → List String → Dict Handler → String → Type 0
IsPicked barred names out k =
    (is_some (Dict.get out k) ≡ true) ⊎ ((any (str_eq k) names ≡ true) × (blocked barred k ≡ false))

set-present :
    (out : Dict Handler) (name k : String) (h : Handler)
    → is_some (Dict.get (Dict.set out name h) k) ≡ true
    → (is_some (Dict.get out k) ≡ true) ⊎ (name ≡ k)
set-present out name k h e = elim (Bool-cases (str_eq name k)) [
  | inl same ↦ inr ((str_eq_iff name k).0 same)
  | inr other ↦
      let g : Dict.get (Dict.set out name h) k ≡ Dict.get out k =
        get-set out name k h ∙ rw other refl in
      inl (subst (λ o. is_some o ≡ true) g e)
]

take_tool-IsPicked :
    (out : Dict Handler) (barred : Bool) (name k : String) (names : List String)
    (o : Option Handler)
    → is_some (Dict.get (take_tool out barred name o) k) ≡ true
    → (is_some (Dict.get out k) ≡ true) ⊎ ((name ≡ k) × (blocked barred k ≡ false))
unfolding take_tool
take_tool-IsPicked out barred name k names none e = inl e
take_tool-IsPicked out barred name k names (some h) e' =
    if_elim
      (λ (d : Dict Handler).
        is_some (Dict.get d k) ≡ true
        → (is_some (Dict.get out k) ≡ true) ⊎ ((name ≡ k) × (blocked barred k ≡ false)))
      (blocked barred name) _ _ (λ kept e. inl e)
      (λ free e. elim (set-present out name k h e) [
        | inl old ↦ inl old
        | inr same ↦ inr (same, subst (λ s. blocked barred s ≡ false) same free)
      ])
      e'

or_any : (k name : String) (names : List String) → name ≡ k → any (str_eq k) (name ∷ names) ≡ true
or_any k name names same = ground (arith, (str_eq_iff k name).1 (sym same))

any_later :
    (k name : String) (names : List String)
    → any (str_eq k) names ≡ true
    → any (str_eq k) (name ∷ names) ≡ true
any_later k name names h = ground (arith, h)

pick-IsPicked :
    (all_tools : Dict Handler) (barred : Bool) (names : List String) (out : Dict Handler)
    (k : String)
    → is_some (Dict.get (pick all_tools barred names out) k) ≡ true
    → IsPicked barred names out k
unfolding pick
pick-IsPicked all_tools barred [] out k h = inl h
pick-IsPicked all_tools barred (name ∷ names) out k h =
    elim (pick-IsPicked all_tools barred names (take_tool out barred name (Dict.get all_tools name))
      k h) [
        | inr (later, free) ↦ inr (any_later k name names later, free)
        | inl here ↦
            elim (take_tool-IsPicked out barred name k names (Dict.get all_tools name) here) [
              | inl old ↦ inl old
              | inr (same, free) ↦ inr (or_any k name names same, free)
            ]
      ]

-- In a selection of tools a handler runs only for a tool that the selection names and where the gate,
-- if there is one, allows the call; and where the run is untrusted and its profile does not allow
-- such runs, for none that writes to shared memory.
pub call-select :
    (loads : String → Option Json) (r : ToolRegistry) (names : List String)
    (untrusted allow_from_untrusted : Bool) (name : String) (arguments : Json)
    → (call loads (select r names untrusted allow_from_untrusted) name arguments).1 ≡ true
    → (any (str_eq name) names ≡ true)
      × (blocked (untrusted && not allow_from_untrusted) name ≡ false)
      × (ask_gate r.gate name arguments ≡ allows)
unfolding call select Dict.get
call-select loads r names untrusted allow_from_untrusted name arguments h =
    let barred = untrusted && not allow_from_untrusted in
    let (open_gate, there) =
      call_found-ran loads (select r names untrusted allow_from_untrusted) name arguments _ h in
    elim (pick-IsPicked r.tools barred names [] name there) [
      | inl nothing_yet ↦ absurd (cc)
      | inr (named, free) ↦ (named, free, open_gate)
    ]
