-- ===== src/Poll/Source.antt =====
-- bothy/poll.py: dig, PollState.remember and Poller.poll. A dotted path is the list of its parts.
use bothy.Common.{
  ℕ, zero, suc, String, Bool, true, false, Option, none, some, List, [], ◌∷◌, ◌++◌, any, map,
  length, take, take_last, if◌then◌else◌, str_eq, value_or,
}
use bothy.Json.{Json, Elements, no_elements, element, get, dict, list, text, truth, number, nothing}

-- `cursor[int(part)] if int(part) < len(cursor) else None`
unfoldable pub nth : Elements → ℕ → Option Json
nth no_elements n = none
nth (element v vs) zero = some v
nth (element v vs) (suc n) = nth vs n

-- `None` in place of a JSON null
unfoldable pub not_null : Json → Option Json
not_null nothing = none
not_null (dict ms) = some (dict ms)
not_null (list vs) = some (list vs)
not_null (text s) = some (text s)
not_null (number n) = some (number n)
not_null (truth b) = some (truth b)

unfoldable pub not_null? : Option Json → Option Json
not_null? none = none
not_null? (some v) = not_null v

-- one part of the path; `index` is Python's `isdigit` and `int`
unfoldable pub follow : (String → Option ℕ) → Json → String → Option Json
follow index (dict ms) part = not_null? (get (dict ms) part)
follow index (list vs) part = elim (index part) [ none ↦ none | some n ↦ not_null? (nth vs n) ]
follow index nothing part = none
follow index (text s) part = none
follow index (number n) part = none
follow index (truth b) part = none

unfoldable pub dig : (String → Option ℕ) → List String → Json → Option Json
dig index [] v = not_null v
dig index (part ∷ parts) v = elim (follow index v part) [ none ↦ none | some w ↦ dig index parts w ]

pub record Source : Type 0 where
  pub name : String
  pub items_path : List String
  pub id_path : List String
  pub cursor_from : Option (List String)
  pub max_items_per_poll : ℕ

-- a source's entry in the state file
pub record SourceState : Type 0 where
  pub etag : Option String
  pub modified : Option String
  pub cursor : Option String
  pub failures : ℕ
  pub last_status : String
  pub seen : List String

-- what `remember` is called with, where `None` leaves a field alone
pub record Update : Type 0 where
  pub etag : Option String
  pub modified : Option String
  pub cursor : Option String
  pub new_ids : List String
  pub failures : Option ℕ
  pub last_status : Option String

-- how a fetch ends: a credential is missing, it raises, the answer is 304, is no JSON, or is read
pub data Fetched : Type 0 where
  no_credential broken unchanged not_json : Fetched
  answered : Json → Option String → Option String → Fetched

pub record Wake : Type 0 where
  pub item_id : String
  pub item : Json

pub record PollResult : Type 0 where
  pub status : String
  pub fetched : ℕ
  pub new : ℕ
  pub duplicates : ℕ

unfoldable pub mem : String → List String → Bool
mem k ks = any (str_eq k) ks

-- `for item_id in new_ids: if item_id not in seen: seen.append(item_id)`
unfoldable pub add_ids : List String → List String → List String
add_ids seen [] = seen
add_ids seen (k ∷ ks) = add_ids (if mem k seen then seen else seen ++ k ∷ []) ks

-- `seen[-self.seen_cap:]`, which is the whole list where the cap is zero
unfoldable pub bounded : ℕ → List String → List String
bounded zero ks = ks
bounded (suc cap) ks = take_last (suc cap) ks

abbrev pub or_else {ℓ} : {A : Type ℓ} → Option A → Option A → Option A
or_else (some a) o = some a
or_else none o = o

unfoldable pub remember : ℕ → SourceState → Update → SourceState
remember cap e u = record {
  etag = or_else u.etag e.etag;
  modified = or_else u.modified e.modified;
  cursor = or_else u.cursor e.cursor;
  failures = value_or u.failures e.failures;
  last_status = value_or u.last_status e.last_status;
  seen = bounded cap (add_ids e.seen u.new_ids);
}

abbrev pub only_status : Option ℕ → String → Update
only_status failures status = record {
  etag = none;
  modified = none;
  cursor = none;
  new_ids = [];
  failures = failures;
  last_status = some status;
}

unfoldable pub to_list : Elements → List Json
to_list no_elements = []
to_list (element v vs) = v ∷ to_list vs

-- a single object is a list of one; anything else is no item
unfoldable pub items_of : Option Json → List Json
items_of (some (dict ms)) = dict ms ∷ []
items_of (some (list vs)) = to_list vs
items_of _ = []

unfoldable pub is_dict : Json → Bool
is_dict (dict ms) = true
is_dict _ = false

-- what the loop over the items has gathered
pub record Batch : Type 0 where
  pub wakes : List Wake
  pub duplicates : ℕ
  pub cursor : Option String

module _ (index : String → Option ℕ) (shown : Json → String) where
  -- str(value) of what the path leads to
  unfoldable pub at_path : List String → Json → Option String
  at_path path item = elim (dig index path item) [
    | none ↦ none
    | some (text s) ↦ some s
    | some v ↦ some (shown v)
  ]

  unfoldable pub next_cursor : Source → Option String → Json → Option String
  next_cursor src cursor item = elim src.cursor_from [
    | none ↦ cursor
    | some path ↦ or_else (at_path path item) cursor
  ]

  unfoldable pub collect : Source → List String → Option String → List Json → Batch
  collect src seen cursor [] = record { wakes = []; duplicates = 0; cursor = cursor }
  collect src seen cursor (item ∷ items) =
      let skipped = collect src seen cursor items in
      let taken = collect src seen (next_cursor src cursor item) items in
      if is_dict item
      then elim (at_path src.id_path item) [
        | none ↦ record skipped { duplicates = suc skipped.duplicates }
        | some k ↦
            if mem k seen
            then record skipped { duplicates = suc skipped.duplicates }
            else record taken { wakes = record { item_id = k; item = item } ∷ taken.wakes }
      ]
      else skipped

  unfoldable pub poll : Source → ℕ → SourceState → Fetched → SourceState × (PollResult × List Wake)
  poll src cap e no_credential = (
    remember cap e (only_status none "skipped"),
    (record { status = "skipped"; fetched = 0; new = 0; duplicates = 0 }, []),
  )
  poll src cap e broken = (
    remember cap e (only_status (some (suc e.failures)) "failed"),
    (record { status = "failed"; fetched = 0; new = 0; duplicates = 0 }, []),
  )
  poll src cap e unchanged = (
    remember cap e (only_status (some 0) "unchanged"),
    (record { status = "unchanged"; fetched = 0; new = 0; duplicates = 0 }, []),
  )
  poll src cap e not_json = (
    remember cap e (only_status (some (suc e.failures)) "failed"),
    (record { status = "failed"; fetched = 0; new = 0; duplicates = 0 }, []),
  )
  poll src cap e (answered payload etag modified) =
      let items = items_of (dig index src.items_path payload) in
      let batch = collect src e.seen e.cursor (take src.max_items_per_poll items) in
      (
        remember cap e (record {
          etag = etag;
          modified = modified;
          cursor = batch.cursor;
          new_ids = map (λ w. w.item_id) batch.wakes;
          failures = some 0;
          last_status = some "ok";
        }),
        (
          record {
            status = "ok";
            fetched = length items;
            new = length batch.wakes;
            duplicates = batch.duplicates;
          },
          batch.wakes,
        ),
      )
