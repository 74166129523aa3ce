-- ===== src/Json.antt =====
-- The JSON values that the program reads and writes. A number is a whole one; the keys of an object
-- are distinct, as `json.loads` leaves them.
use bothy.Common.{
  List, [], ◌∷◌, true, ◌&&◌, any, ℕ, String, Bool, Option, none, some, str_eq, if◌then◌else◌,
}

mutual
  -- the pairs of an object, in the order of the text
  pub data Members : Type 0 where
    no_members : Members
    member : String → Json → Members → Members

  -- the items of an array
  pub data Elements : Type 0 where
    no_elements : Elements
    element : Json → Elements → Elements

  pub data Json : Type 0 where
    dict : Members → Json
    list : Elements → Json
    text : String → Json
    number : ℕ → Json
    truth : Bool → Json
    nothing : Json

unfoldable pub find : Members → String → Option Json
find no_members k = none
find (member j v rest) k = if str_eq j k then some v else find rest k

-- `value.get(key)` where the value is an object
unfoldable pub get : Json → String → Option Json
get (dict fs) k = find fs k
get (list xs) k = none
get (text s) k = none
get (number n) k = none
get (truth b) k = none
get nothing k = none

-- the keys of an object, and whether each is a known one
unfoldable pub keys : Members → List String
keys no_members = []
keys (member k v ms) = k ∷ keys ms

abbrev pub one_of : List String → String → Bool
one_of names k = any (str_eq k) names

unfoldable pub all_known : List String → List String → Bool
all_known known [] = true
all_known known (k ∷ ks) = one_of known k && all_known known ks
