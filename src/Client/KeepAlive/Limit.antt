-- ===== src/Client/KeepAlive/Limit.antt =====
-- src/client.zig, `Connection.release`: how many requests are sent on a connection.
use dusty.Base.{
  ℕ, suc, ◌+◌, ◌≤◌, ◌<◌, ◌≡◌, ap, sym, ◌∙◌, subst, min, max, true, false, not, List, [], ◌∷◌,
  Option, some, arith, ◌==◌, if◌then◌else◌, Bool-cases, inl, inr, if_true, if_false,
}
use dusty.Client.{Connection}
use dusty.Client.KeepAlive.{
  Answer, parse_keep_alive_header, note_answer, first_params, keeping, reached, params_of, heard,
}

module _ (parse_int : List ℕ → Option ℕ) where
  -- The answers that come to the requests of a connection, at their times, until it is closing.
  unfoldable pub requests : List (ℕ × Answer) → Connection → ℕ
  unfolding note_answer
  requests [] conn = 0
  requests ((now, answer) ∷ answers) conn =
      let after = note_answer parse_int now answer conn in
      let later = requests answers after in suc (if after.closing then 0 else later)

  -- A connection whose server allows `m` requests, after some of them.
  abbrev IsWithin : ℕ → Connection → Type 0
  IsWithin m conn =
      (conn.keep_alive.max ≡ some m) × (1 ≤ conn.request_count) × (conn.request_count < m)

  abbrev kept : ℕ → Answer → Connection → Connection
  kept now answer conn =
      keeping now (first_params parse_int answer (heard answer conn)) (heard answer conn)

  note_answer-kept :
      (now : ℕ) (answer : Answer) (conn : Connection)
      → (note_answer parse_int now answer conn).closing ≡ false
      → note_answer parse_int now answer conn ≡ kept now answer conn
  unfolding note_answer
  note_answer-kept now answer conn h = elim (Bool-cases (answer.should_keep_alive)) [
    | inl e ↦ if_false _ _ _ (ap not e)
    | inr e ↦ absurd (
        let closed =
          ap (λ c. c.closing)
            (if_true _ (record (heard answer conn) { closing = true }) (kept now answer conn)
              (ap not e)) in
        ground (arith, closed, h))
  ]

  -- What is left open has not reached its limit.
  kept-unreached :
      (m now : ℕ) (answer : Answer) (conn : Connection)
      → (kept now answer conn).closing ≡ false
      → (kept now answer conn).keep_alive.max ≡ some m
      → (kept now answer conn).request_count < m
  kept-unreached m now answer conn h e =
      let under : reached (some m) ((kept now answer conn).request_count) ≡ false =
        subst (λ o. reached o ((kept now answer conn).request_count) ≡ false) e
          (ground (arith, h)) in
      ground (arith, under)

  abbrev IsCounted : ℕ → Connection → Connection → Type 0
  IsCounted m conn after = IsWithin m after × (after.request_count ≡ suc (conn.request_count))

  IsCounted-kept :
      (m now : ℕ) (answer : Answer) (conn : Connection)
      → m ≤ 65535
      → IsWithin m conn
      → (kept now answer conn).closing ≡ false
      → IsCounted m conn (kept now answer conn)
  unfolding first_params
  IsCounted-kept m now answer conn small (limit, one, within) h =
      let same : (kept now answer conn).keep_alive ≡ conn.keep_alive =
        if_false (min (conn.request_count + 1) 65535 == 1) _ _ (ground (arith, one)) in
      let still = ap (λ k. k.max) same ∙ limit in
      (
        (still, omega (arith, one), kept-unreached m now answer conn h still),
        omega (arith, within, small),
      )

  IsCounted-note_answer :
      (m now : ℕ) (answer : Answer) (conn : Connection)
      → m ≤ 65535
      → IsWithin m conn
      → (note_answer parse_int now answer conn).closing ≡ false
      → IsCounted m conn (note_answer parse_int now answer conn)
  IsCounted-note_answer m now answer conn small within h =
      let e = note_answer-kept now answer conn h in
      subst (IsCounted m conn) (sym e)
        (IsCounted-kept m now answer conn small within (ap (λ c. c.closing) (sym e) ∙ h))

  requests-IsWithin :
      (m : ℕ) (answers : List (ℕ × Answer)) (conn : Connection)
      → m ≤ 65535
      → IsWithin m conn
      → conn.request_count + requests answers conn ≤ m
  unfolding requests
  requests-IsWithin m [] conn small within = omega (arith, within.2)
  requests-IsWithin m ((now, answer) ∷ answers) conn small within =
      elim (Bool-cases ((note_answer parse_int now answer conn).closing)) [
        | inl e ↦
            let last = if_true _ 0 (requests answers (note_answer parse_int now answer conn)) e in
            omega (arith, last, within.2)
        | inr e ↦
            let more = if_false _ 0 (requests answers (note_answer parse_int now answer conn)) e in
            let (after, count) = IsCounted-note_answer m now answer conn small within e in
            let rest =
              requests-IsWithin m answers (note_answer parse_int now answer conn) small after in
            omega (arith, more, count, rest)
      ]

  -- When each answer on a new connection is followed by the release of the connection, and the
  -- first has a Keep-Alive header whose `max` is m, at most 65535, then at most m requests are sent
  -- on the connection, or one, whatever the answers are and whenever they come.
  pub requests-max :
      (m now : ℕ) (answer : Answer) (answers : List (ℕ × Answer)) (value : List ℕ)
      (conn : Connection)
      → m ≤ 65535
      → conn.request_count ≡ 0
      → answer.keep_alive_header ≡ some value
      → (parse_keep_alive_header parse_int value).max ≡ some m
      → requests ((now, answer) ∷ answers) conn ≤ max 1 m
  unfolding requests
  requests-max m now answer answers value conn small new header limit =
      elim (Bool-cases ((note_answer parse_int now answer conn).closing)) [
        | inl e ↦
            let last = if_true _ 0 (requests answers (note_answer parse_int now answer conn)) e in
            omega (arith, last)
        | inr e ↦
            let more = if_false _ 0 (requests answers (note_answer parse_int now answer conn)) e in
            let same = note_answer-kept now answer conn e in
            let params : (kept now answer conn).keep_alive
                ≡ parse_keep_alive_header parse_int value =
              if_true (min (conn.request_count + 1) 65535 == 1) _ _ (ground (arith, new))
              ∙ ap (λ o. params_of parse_int o (heard answer conn)) header in
            let limited = ap (λ k. k.max) params ∙ limit in
            let within : IsWithin m (kept now answer conn) = (
              limited,
              ground (arith, new),
              kept-unreached m now answer conn (ap (λ c. c.closing) (sym same) ∙ e) limited,
            ) in
            let rest =
              requests-IsWithin m answers (note_answer parse_int now answer conn) small
                (subst (IsWithin m) (sym same) within) in
            let here = ap (λ c. c.request_count) same in omega (arith, more, rest, here, new)
      ]
