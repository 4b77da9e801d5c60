-- ===== src/Client/Exchange.antt =====
-- src/client.zig, `fetchInternal`: what becomes of the connection of a fetch.
use dusty.Base.{
  ℕ, ◌≡◌, refl, ap, ◌∙◌, Bool-cases, inl, inr, if_true, if_false, Bool, true, false, not, ◌&&◌,
  ◌||◌, arith, leb, ltb, if◌then◌else◌,
}

-- A Location field: none, one that is an error, and one that is followed.
pub data Location : Type 0 where
  absent refused resolved : Location

-- Draining a body: an error of the stream, or whether the body is complete then.
pub data Drained : Type 0 where
  drain_failed : Drained
  drain_ended : Bool → Drained

-- What a connection gives in one round of `fetchInternal`, in the order in which the code asks.
pub record Exchange : Type 0 where
  pub is_http_2 : Bool
  pub write_ok : Bool
  pub flush_ok : Bool
  pub headers_ok : Bool
  pub unknown_encoding : Bool
  pub body_complete : Bool
  pub status : ℕ
  pub location : Location
  pub drained : Drained
  pub should_keep_alive : Bool

-- The connection goes to the pool, with `closing` and whether its answer was read to the end, or
-- stays with the response.
pub data Fate : Type 0 where
  given_back : Bool → Bool → Fate
  handed_out : Fate

abbrev drain_fate : Bool → Drained → Fate
drain_fate keep drain_failed = given_back true false
drain_fate keep (drain_ended complete) = given_back (not complete || not keep) complete

abbrev redirect_fate : Exchange → Location → Fate
redirect_fate x absent = handed_out
redirect_fate x refused = given_back false (x.body_complete)
redirect_fate x resolved =
    if x.body_complete
    then given_back (not (x.should_keep_alive)) true
    else drain_fate (x.should_keep_alive) (x.drained)

abbrev pub is_redirect : ℕ → ℕ → Bool
is_redirect remaining status = leb 300 status && (ltb status 400 && ltb 0 remaining)

unfoldable pub fate : ℕ → Exchange → Fate
fate remaining x =
    if x.is_http_2
    then given_back true false
    else if not (x.write_ok)
    then given_back true false
    else if not (x.flush_ok)
    then given_back true false
    else if not (x.headers_ok)
    then given_back true false
    else if x.unknown_encoding
    then given_back (not (x.body_complete)) (x.body_complete)
    else if is_redirect remaining (x.status)
    then redirect_fate x (x.location)
    else handed_out

-- A connection that may be used again and has a part of an answer in it.
abbrev pub is_dirty : Fate → Bool
is_dirty handed_out = false
is_dirty (given_back closing complete) = not closing && not complete

abbrev pub is_refused : Location → Bool
is_refused absent = false
is_refused refused = true
is_refused resolved = false

abbrev pub got_answer : Exchange → Bool
got_answer x =
    not (x.is_http_2) && (x.write_ok && (x.flush_ok && (x.headers_ok && not (x.unknown_encoding))))

is_dirty-drain_fate : (keep : Bool) (drained : Drained) → is_dirty (drain_fate keep drained) ≡ false
is_dirty-drain_fate keep drain_failed = refl
is_dirty-drain_fate keep (drain_ended true) = ground arith
is_dirty-drain_fate keep (drain_ended false) = refl

is_dirty-redirect_fate :
    (x : Exchange) (location : Location)
    → is_dirty (redirect_fate x location) ≡ (is_refused location && not (x.body_complete))
is_dirty-redirect_fate x absent = refl
is_dirty-redirect_fate x refused = refl
is_dirty-redirect_fate x resolved = elim (Bool-cases (x.body_complete)) [
  | inl e ↦ ap is_dirty (if_true _ _ _ e) ∙ ground arith
  | inr e ↦ ap is_dirty (if_false _ _ _ e) ∙ is_dirty-drain_fate (x.should_keep_alive) (x.drained)
]

-- A round of a fetch, on a connection that was not closing, gives the pool a connection that is not
-- closing and has an unread part of its answer in it exactly if the answer's header came, its
-- encoding is known, its status is that of a redirect that would be followed, its Location is
-- refused, and its body was not complete yet: after every other error, and after every redirect
-- that is followed, a connection with unread bytes is marked as closing.
pub is_dirty-fate :
    (remaining : ℕ) (x : Exchange)
    → is_dirty (fate remaining x) ≡ (
        got_answer x
        && (is_redirect remaining (x.status) && (is_refused (x.location) && not (x.body_complete))))
unfolding fate
is_dirty-fate remaining x = ground (arith, is_dirty-redirect_fate x (x.location))
