-- ===== src/Llhttp/Control.antt =====
-- src/llhttp/api.c: pausing, resuming, finishing and starting over.
use dusty.Base.{
  ℕ, ◌≡◌, refl, ap, sym, ◌∙◌, subst, false, if_true, Option, ◌==◌, ◌!=◌, if_false, arith, List, [],
  ◌∷◌,
}
use dusty.Llhttp.{Parser}
use dusty.Llhttp.Api.{
  init, reset, finish, pause, resume, resume_after_upgrade, hpe_paused, hpe_paused_upgrade,
}

-- A call that pauses or resumes.
pub data Call : Type 0 where
  pause_call resume_call resume_after_upgrade_call : Call

pub run : Call → Parser → Parser
run pause_call p = pause p
run resume_call p = resume p
run resume_after_upgrade_call p = resume_after_upgrade p

pub run_all : List Call → Parser → Parser
run_all [] p = p
run_all (c ∷ cs) p = run_all cs (run c p)

-- An error that is no pause: none, or one that the parser met.
pub record IsFailed (p : Parser) : Type 0 where
  pub error : (p.error == 0) ≡ false
  pub not_paused : (p.error == hpe_paused) ≡ false
  pub not_upgrade : (p.error == hpe_paused_upgrade) ≡ false

run-IsFailed : (c : Call) (p : Parser) → IsFailed p → run c p ≡ p
unfolding run pause resume resume_after_upgrade
run-IsFailed pause_call p f = let e = f.error in ground (arith, e)
run-IsFailed resume_call p f = let e = f.not_paused in ground (arith, e)
run-IsFailed resume_after_upgrade_call p f = let e = f.not_upgrade in ground (arith, e)

-- A parser that failed stays as it failed, with its error, reason and position, through any
-- sequence of pauses and resumptions, and to finish it calls nothing back and changes nothing.
pub run_all-IsFailed :
    (cs : List Call) (callback : Option (Parser → ℕ × Parser)) (p : Parser)
    → IsFailed p
    → (run_all cs p ≡ p) × (finish callback (run_all cs p) ≡ (0, p))
unfolding run_all finish
run_all-IsFailed [] callback p f = (refl, let e = f.error in ground (arith, e))
run_all-IsFailed (c ∷ cs) callback p f =
    let same = run-IsFailed c p f in
    let rest = run_all-IsFailed cs callback p f in
    (ap (run_all cs) same ∙ rest.0, ap (λ q. finish callback (run_all cs q)) same ∙ rest.1)

-- Where a parser stands, by its error.
pub data Mode : Type 0 where
  running paused_by_call paused_for_upgrade stopped : Mode

-- Each pause has its own way out, and an error has none.
abbrev pub move : Call → Mode → Mode
move pause_call running = paused_by_call
move resume_call paused_by_call = running
move resume_after_upgrade_call paused_for_upgrade = running
move _ mode = mode

abbrev pub moves : List Call → Mode → Mode
moves [] mode = mode
moves (c ∷ cs) mode = moves cs (move c mode)

-- The error codes of a mode.
abbrev pub IsIn : Mode → ℕ → Type 0
IsIn running error = error ≡ 0
IsIn paused_by_call error = error ≡ hpe_paused
IsIn paused_for_upgrade error = error ≡ hpe_paused_upgrade
IsIn stopped error =
    ((error == 0) ≡ false)
    × ((error == hpe_paused) ≡ false)
    × ((error == hpe_paused_upgrade) ≡ false)

-- The parser but for its error and the text of its reason.
abbrev pub Same : Parser → Parser → Type 0
Same p q = record q { error = p.error; reason = p.reason } ≡ p

abbrev Moved : Call → Mode → Parser → Parser → Type 0
Moved c mode p q = IsIn (move c mode) q.error × Same p q

stays :
    (c : Call) (mode : Mode) (p : Parser)
    → move c mode ≡ mode
    → IsIn mode p.error
    → run c p ≡ p
    → Moved c mode p (run c p)
stays c mode p same h e =
    subst (Moved c mode p) (sym e) (subst (λ m. IsIn m p.error) (sym same) h, refl)

IsIn-run : (c : Call) (mode : Mode) (p : Parser) → IsIn mode p.error → Moved c mode p (run c p)
unfolding run pause resume resume_after_upgrade
IsIn-run pause_call running p h =
    subst (Moved pause_call running p) (sym (if_false (p.error != 0) _ _ (ground (arith, h))))
      (refl, refl)
IsIn-run resume_call running p h =
    stays resume_call running p refl h (if_true (p.error != hpe_paused) _ _ (ground (arith, h)))
IsIn-run resume_after_upgrade_call running p h =
    stays resume_after_upgrade_call running p refl h
      (if_true (p.error != hpe_paused_upgrade) _ _ (ground (arith, h)))
IsIn-run pause_call paused_by_call p h =
    stays pause_call paused_by_call p refl h (if_true (p.error != 0) _ _ (ground (arith, h)))
IsIn-run resume_call paused_by_call p h =
    subst (Moved resume_call paused_by_call p)
      (sym (if_false (p.error != hpe_paused) _ _ (ground (arith, h)))) (refl, refl)
IsIn-run resume_after_upgrade_call paused_by_call p h =
    stays resume_after_upgrade_call paused_by_call p refl h
      (if_true (p.error != hpe_paused_upgrade) _ _ (ground (arith, h)))
IsIn-run pause_call paused_for_upgrade p h =
    stays pause_call paused_for_upgrade p refl h (if_true (p.error != 0) _ _ (ground (arith, h)))
IsIn-run resume_call paused_for_upgrade p h =
    stays resume_call paused_for_upgrade p refl h
      (if_true (p.error != hpe_paused) _ _ (ground (arith, h)))
IsIn-run resume_after_upgrade_call paused_for_upgrade p h =
    subst (Moved resume_after_upgrade_call paused_for_upgrade p)
      (sym (if_false (p.error != hpe_paused_upgrade) _ _ (ground (arith, h)))) (refl, refl)
IsIn-run pause_call stopped p h =
    stays pause_call stopped p refl h (if_true (p.error != 0) _ _ (ground (arith, h)))
IsIn-run resume_call stopped p h =
    stays resume_call stopped p refl h (if_true (p.error != hpe_paused) _ _ (ground (arith, h)))
IsIn-run resume_after_upgrade_call stopped p h =
    stays resume_after_upgrade_call stopped p refl h
      (if_true (p.error != hpe_paused_upgrade) _ _ (ground (arith, h)))

-- Whatever a parser's error, any calls that pause and resume move it as a machine of four modes: a
-- pause by a call is ended by `llhttp_resume` alone, one for an upgrade by
-- `llhttp_resume_after_upgrade` alone, an error by neither, and a running parser is paused by
-- `llhttp_pause`. They change nothing but the error and the text of its reason, so that a parser
-- that is resumed goes on where it was.
pub run_all-IsIn :
    (cs : List Call) (mode : Mode) (p : Parser)
    → IsIn mode p.error
    → IsIn (moves cs mode) (run_all cs p).error × Same p (run_all cs p)
unfolding run_all
run_all-IsIn [] mode p h = (h, refl)
run_all-IsIn (c ∷ cs) mode p h =
    let (now, same) = IsIn-run c mode p h in
    let (then_in, rest) = run_all-IsIn cs (move c mode) (run c p) now in
    (then_in, ap (λ (q : Parser). record q { error = p.error; reason = p.reason }) rest ∙ same)

-- What `reset` keeps is the type, the settings, the data and the lenient flags, and what it makes
-- depends on nothing else: the reset parser is a fresh one of that type and those settings with
-- the data and the lenient flags put back, and resetting again changes nothing.
pub reset-init :
    (start : ℕ) (p : Parser)
    → (reset start p
        ≡ record (init start p.kind p.settings) { user = p.user; lenient_flags = p.lenient_flags })
      × (reset start (reset start p) ≡ reset start p)
unfolding reset init
reset-init start p = (refl, refl)
