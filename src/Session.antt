-- ===== src/Session.antt =====
-- src/middleware/Session.zig, `SessionData`: the entries of a session. The slots in use are a list.
pub mod Map
pub mod Calls
pub mod Sign
pub mod Execute
mod Examples
use dusty.Base.{
  ℕ, suc, ◌+◌, Bool, true, false, ◌||◌, List, [], ◌∷◌, ◌++◌, Option, none, some, ◌==◌, leb,
  if◌then◌else◌, length, bytes_eq,
}

abbrev pub Entries : Type 0
Entries = List (List ℕ × List ℕ)

abbrev pub max_entries : ℕ
max_entries = 16

pub record SessionData : Type 0 where
  pub entries : Entries
  pub modified : Bool

abbrev pub empty_session : SessionData
empty_session = record { entries = []; modified = false }

unfoldable pub find_entry : List ℕ → Entries → Option (List ℕ)
find_entry key [] = none
find_entry key ((k, v) ∷ entries) = if bytes_eq k key then some v else find_entry key entries

abbrev pub get : List ℕ → SessionData → Option (List ℕ)
unfolding find_entry
get key session = find_entry key (session.entries)

-- `std.mem.indexOfScalar(u8, bytes, 0) != null`
unfoldable pub has_zero : List ℕ → Bool
has_zero [] = false
has_zero (b ∷ bs) = b == 0 || has_zero bs

abbrev pub also_kept : List ℕ × List ℕ → Option Entries → Option Entries
also_kept entry none = none
also_kept entry (some entries) = some (entry ∷ entries)

-- The loop of `set`, none when no entry has the key.
unfoldable pub replace_value : List ℕ → List ℕ → Entries → Option Entries
replace_value key value [] = none
replace_value key value ((k, v) ∷ entries) =
    let later = replace_value key value entries in
    if bytes_eq k key then some ((k, value) ∷ entries) else also_kept (k, v) later

pub data SetResult : Type 0 where
  stored : SessionData → SetResult
  session_full invalid_session_data : SetResult

abbrev pub append_entry : List ℕ → List ℕ → SessionData → Option Entries → SetResult
append_entry key value session (some entries) =
    stored (record { entries = entries; modified = true })
append_entry key value session none =
    if leb max_entries (length (session.entries))
    then session_full
    else stored (record { entries = session.entries ++ (key, value) ∷ []; modified = true })

unfoldable pub set : List ℕ → List ℕ → SessionData → SetResult
unfolding has_zero replace_value
set key value session =
    if has_zero key || has_zero value
    then invalid_session_data
    else append_entry key value session (replace_value key value (session.entries))

-- The last of the entries takes the place of the one that goes.
abbrev pub behind_first : List ℕ × List ℕ → Entries → Entries
behind_first e [] = e ∷ []
behind_first e (l ∷ rest) = l ∷ e ∷ rest

abbrev pub last_first : Entries → Entries
last_first [] = []
last_first (e ∷ entries) = behind_first e (last_first entries)

unfoldable pub swap_remove : List ℕ → Entries → Option Entries
swap_remove key [] = none
swap_remove key ((k, v) ∷ entries) =
    let later = swap_remove key entries in
    if bytes_eq k key then some (last_first entries) else also_kept (k, v) later

abbrev pub removed_from : SessionData → Option Entries → SessionData
removed_from session none = session
removed_from session (some entries) = record { entries = entries; modified = true }

unfoldable pub remove : List ℕ → SessionData → SessionData
unfolding swap_remove
remove key session = removed_from session (swap_remove key (session.entries))

abbrev pub clear : SessionData → SessionData
clear session = record { entries = []; modified = true }
