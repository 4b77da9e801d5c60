-- ===== src/Session/Calls.antt =====
-- src/middleware/Session.zig: what any calls of `set`, `remove` and `clear` answer and leave, by a
-- function from keys to values and a count.
use dusty.Base.{
  ℕ, suc, ◌-◌, ◌≤◌, ◌≡◌, refl, ap, sym, subst, ◌∙◌, Bool, true, false, ◌||◌, List, [], ◌∷◌, ◌++◌,
  Option, none, some, arith, if◌then◌else◌, leb, length, bytes_eq, Bool-cases, inl, inr,
  length-append, if_true, if_false,
}
use dusty.Session.{
  Entries, SessionData, SetResult, stored, session_full, invalid_session_data, max_entries,
  find_entry, get, has_zero, append_entry, set, removed_from, remove, clear,
}
use dusty.Session.Map.{
  IsTidy, present, IsReplaced, IsReplaced-replace_value, IsRemoved, IsRemoved-swap_remove,
  IsTidy-append, find_entry-append,
}

pub data Call : Type 0 where
  set_call : List ℕ → List ℕ → Call
  remove_call : List ℕ → Call
  clear_call : Call

pub data Reply : Type 0 where
  done full invalid : Reply

abbrev set_reply : SessionData → SetResult → Reply × SessionData
set_reply before (stored after) = (done, after)
set_reply before session_full = (full, before)
set_reply before invalid_session_data = (invalid, before)

unfoldable pub perform : Call → SessionData → Reply × SessionData
unfolding set remove
perform (set_call key value) session = set_reply session (set key value session)
perform (remove_call key) session = (done, remove key session)
perform clear_call session = (done, clear session)

unfoldable pub perform_all : List Call → SessionData → List Reply × SessionData
unfolding perform
perform_all [] session = ([], session)
perform_all (call ∷ calls) session =
    let (reply, after) = perform call session in
    let (replies, last) = perform_all calls after in (reply ∷ replies, last)

-- The map: each key's value, the number of the keys, and whether something was written.
pub record Store : Type 0 where
  pub value_at : List ℕ → Option (List ℕ)
  pub count : ℕ
  pub written : Bool

abbrev pub empty_store : Store
empty_store = record { value_at = λ key. none; count = 0; written = false }

abbrev changed_at : List ℕ → Option (List ℕ) → Store → List ℕ → Option (List ℕ)
changed_at key value store q = if bytes_eq key q then value else store.value_at q

abbrev written_at : List ℕ → Option (List ℕ) → ℕ → Store → Store
written_at key value n store = record {
  value_at = changed_at key value store;
  count = n;
  written = true;
}

unfoldable pub specified : Call → Store → Reply × Store
specified (set_call key value) store =
    if has_zero key || has_zero value
    then (invalid, store)
    else if present (store.value_at key)
    then (done, written_at key (some value) (store.count) store)
    else if leb max_entries (store.count)
    then (full, store)
    else (done, written_at key (some value) (suc (store.count)) store)
specified (remove_call key) store =
    if present (store.value_at key)
    then (done, written_at key none (store.count - 1) store)
    else (done, store)
specified clear_call store = (done, record { value_at = λ key. none; count = 0; written = true })

unfoldable pub specified_all : List Call → Store → List Reply × Store
unfolding specified
specified_all [] store = ([], store)
specified_all (call ∷ calls) store =
    let (reply, after) = specified call store in
    let (replies, last) = specified_all calls after in (reply ∷ replies, last)

abbrev pub Implements : SessionData → Store → Type 0
Implements session store =
    IsTidy (session.entries)
    × ((key : List ℕ) → get key session ≡ store.value_at key)
    × (length (session.entries) ≡ store.count)
    × (store.count ≤ max_entries)
    × (session.modified ≡ store.written)

abbrev Agree : Reply × SessionData → Reply × Store → Type 0
Agree (reply, session) (expected, store) = (reply ≡ expected) × Implements session store

-- A value under a key that had none or another, in the list and in the map.
found-changed_at :
    (key : List ℕ) (value : Option (List ℕ)) (entries after : Entries) (store : Store)
    → ((q : List ℕ) → find_entry q entries ≡ store.value_at q)
    → ((q : List ℕ) → find_entry q after ≡ (if bytes_eq key q then value else find_entry q entries))
    → (q : List ℕ) → find_entry q after ≡ changed_at key value store q
found-changed_at key value entries after store same found q =
    found q ∙ ap (λ o. if bytes_eq key q then value else o) (same q)

present-same :
    (key : List ℕ) (b : Bool) (entries : Entries) (store : Store)
    → ((q : List ℕ) → find_entry q entries ≡ store.value_at q)
    → present (find_entry key entries) ≡ b
    → present (store.value_at key) ≡ b
present-same key b entries store same h = ap present (sym (same key)) ∙ h

Agree-append_entry :
    (key value : List ℕ) (session : SessionData) (store : Store) (o : Option Entries)
    → (has_zero key || has_zero value) ≡ false
    → has_zero key ≡ false
    → has_zero value ≡ false
    → Implements session store
    → IsReplaced key value (session.entries) o
    → Agree
        (set_reply session (append_entry key value session o))
        (specified (set_call key value) store)
unfolding specified find_entry get
Agree-append_entry key value session store (some after) z kz vz (tidy, same, size, small, flag)
      (there, long, still, found) =
    subst (Agree (done, record { entries = after; modified = true }))
      (sym (
        if_false _ _ _ z
        ∙ if_true _ _ _ (present-same key true (session.entries) store same there)))
      (
        refl,
        (
          still,
          found-changed_at key (some value) (session.entries) after store same found,
          long ∙ size,
          small,
          refl,
        ),
      )
Agree-append_entry key value session store none z kz vz (tidy, same, size, small, flag) absent =
    let missing = present-same key false (session.entries) store same (ap present absent) in
    let longer = length-append (session.entries) ((key, value) ∷ []) in
    elim (Bool-cases (leb max_entries (store.count))) [
      | inl e ↦
          subst (λ r. Agree (set_reply session r) (specified (set_call key value) store))
            (sym (if_true _ _ _ (ap (leb max_entries) size ∙ e)))
            (subst (Agree (full, session))
              (sym (if_false _ _ _ z ∙ if_false _ _ _ missing ∙ if_true _ _ _ e))
              (refl, (tidy, same, size, small, flag)))
      | inr e ↦
          subst (λ r. Agree (set_reply session r) (specified (set_call key value) store))
            (sym (if_false _ _ _ (ap (leb max_entries) size ∙ e)))
            (subst
              (Agree
                (done, record { entries = session.entries ++ (key, value) ∷ []; modified = true }))
              (sym (if_false _ _ _ z ∙ if_false _ _ _ missing ∙ if_false _ _ _ e))
              (
                refl,
                (
                  IsTidy-append key value (session.entries) absent kz vz tidy,
                  found-changed_at key (some value) (session.entries) _ store same
                      (λ q. find_entry-append key value (session.entries) q absent),
                  omega (arith, size, longer),
                  ground (arith, e),
                  refl,
                ),
              ))
    ]

Agree-removed_from :
    (key : List ℕ) (session : SessionData) (store : Store) (o : Option Entries)
    → Implements session store
    → IsRemoved key (session.entries) o
    → Agree (done, removed_from session o) (specified (remove_call key) store)
unfolding specified find_entry get
Agree-removed_from key session store none (tidy, same, size, small, flag) absent =
    subst (Agree (done, session))
      (sym
        (if_false _ _ _ (present-same key false (session.entries) store same (ap present absent))))
      (refl, (tidy, same, size, small, flag))
Agree-removed_from key session store (some after) (tidy, same, size, small, flag)
      (there, long, still, found) =
    subst (Agree (done, record { entries = after; modified = true }))
      (sym (if_true _ _ _ (present-same key true (session.entries) store same there)))
      (
        refl,
        (
          still,
          found-changed_at key none (session.entries) after store same found,
          omega (arith, long, size),
          omega (arith, small),
          refl,
        ),
      )

Agree-perform :
    (call : Call) (session : SessionData) (store : Store)
    → Implements session store
    → Agree (perform call session) (specified call store)
unfolding perform set remove specified find_entry get
Agree-perform (set_call key value) session store h =
    elim (Bool-cases (has_zero key || has_zero value)) [
      | inl e ↦
          subst (λ r. Agree (set_reply session r) (specified (set_call key value) store))
            (sym (if_true _ _ _ e))
            (subst (Agree (invalid, session)) (sym (if_true _ _ _ e)) (refl, h))
      | inr e ↦
          subst (λ r. Agree (set_reply session r) (specified (set_call key value) store))
            (sym (if_false _ _ _ e))
            (Agree-append_entry key value session store _ e (ground (arith, e)) (ground (arith, e))
              h (IsReplaced-replace_value key value (session.entries) (ground (arith, e)) h.0))
    ]
Agree-perform (remove_call key) session store h =
    Agree-removed_from key session store _ h (IsRemoved-swap_remove key (session.entries) h.0)
Agree-perform clear_call session store h = (refl, (tt, (λ q. refl), refl, omega arith, refl))

-- From a session that holds a map, any calls of `set`, `remove` and `clear`, refused ones among them,
-- answer what the map answers and leave a session that holds the map they leave: keys that differ, no
-- zero byte, each key's value, no more than sixteen entries, and whether something was written. The
-- order of the entries, which `remove` changes, is not seen.
pub perform_all-Implements :
    (calls : List Call) (session : SessionData) (store : Store)
    → Implements session store
    → ((perform_all calls session).0 ≡ (specified_all calls store).0)
      × Implements ((perform_all calls session).1) ((specified_all calls store).1)
unfolding perform_all specified_all
perform_all-Implements [] session store h = (refl, h)
perform_all-Implements (call ∷ calls) session store h =
    let now = Agree-perform call session store h in
    let later =
      perform_all-Implements calls ((perform call session).1) ((specified call store).1) now.1 in
    (rw now.0 (rw later.0 refl), later.1)
