-- ===== src/Proc/Group.antt =====
-- bothy/proc.py: process groups, as the table of processes shows them, and how one is killed.
use bothy.Common.{
  ℕ, zero, suc, String, Bool, true, false, Option, none, some, List, [], ◌∷◌, ◌++◌, ◌==◌, ◌&&◌, not,
  leb, filter, map, length, if◌then◌else◌,
}
use bothy.Text.{Chars, words, all_digits, int_from, starts_with}
use bothy.Alert.Chunks.{lines_of}

pub record Row : Type 0 where
  pub pid : ℕ
  pub pgid : ℕ
  pub zombie : Bool

unfoldable pub row_of : List Chars → List Row
row_of (pid ∷ pgid ∷ stat ∷ more) =
    if all_digits pid && all_digits pgid
    then record { pid = int_from 0 pid; pgid = int_from 0 pgid; zombie = starts_with b'Z' stat }
      ∷ []
    else []
row_of _ = []

unfoldable pub rows_of : List Chars → List Row
rows_of [] = []
rows_of (line ∷ lines) = row_of (words line) ++ rows_of lines

unfoldable pub parse_ps : Chars → List Row
parse_ps output = rows_of (lines_of output)

-- what a call sees of the machine: the table, if it can be read; whether a signal to a group finds it,
-- for the case that the table cannot; the start time of a process; and the boot
pub record Machine : Type 0 where
  pub table : Option (List Row)
  pub answers_signal : ℕ → Bool
  pub start_time : ℕ → Option String
  pub boot_id : Option String

unfoldable pub insert : ℕ → List ℕ → List ℕ
insert n [] = n ∷ []
insert n (m ∷ ms) = let rest = insert n ms in if leb n m then n ∷ m ∷ ms else m ∷ rest

unfoldable pub sorted : List ℕ → List ℕ
sorted [] = []
sorted (n ∷ ns) = insert n (sorted ns)

unfoldable pub is_member : ℕ → Row → Bool
is_member pgid r = r.pgid == pgid && not r.zombie

unfoldable pub members_in : Machine → ℕ → Option (List Row) → List ℕ
members_in m pgid none = if m.answers_signal pgid then pgid ∷ [] else []
members_in m pgid (some rows) = sorted (map (λ r. r.pid) (filter (is_member pgid) rows))

unfoldable pub group_members : Machine → ℕ → List ℕ
group_members m zero = []
group_members m (suc n) = members_in m (suc n) m.table

unfoldable pub group_alive : Machine → ℕ → Bool
group_alive m pgid = leb 1 (length (group_members m pgid))

pub data Signal : Type 0 where
  terminate kill : ℕ → Signal

pub data Outcome : Type 0 where
  already_gone terminated killed unkillable stale_record : Outcome

-- the answers of group_alive at the polls that fall in a grace period
unfoldable pub wait : List Bool → Bool
wait [] = false
wait (alive ∷ polls) = let rest = wait polls in if alive then rest else true

-- the signals that are sent, in their order, and what it took
unfoldable pub kill_group : ℕ → Bool → List Bool → List Bool → List Signal × Outcome
kill_group pgid alive polls later =
    if not alive
    then ([], already_gone)
    else if wait polls
    then (terminate pgid ∷ [], terminated)
    else (terminate pgid ∷ kill pgid ∷ [], if wait later then killed else unkillable)
