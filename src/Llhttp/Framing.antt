-- ===== src/Llhttp/Framing.antt =====
-- src/llhttp/http.c against the framing of a message body in RFC 7230, section 3.3.3.
use dusty.Base.Bits.{holds_below, same_below}
use dusty.Base.{
  ℕ, ap, sym, if_true, if_false, ◌∙◌, Bool-cases, inl, inr, ◌/◌, ◌<◌, ◌↔◌, ◌≡◌, refl, Bool, true,
  false, not, ◌&&◌, ◌||◌, ◌==◌, ltb, if◌then◌else◌, bit_or, arith,
}
use dusty.Llhttp.{
  Parser, has, is_request, is_response, f_chunked, f_content_length, f_skipbody,
  f_transfer_encoding, lenient_chunked_length, lenient_transfer_encoding, http_connect,
}
use dusty.Llhttp.Bodies.{
  code, bodiless_status, asks_upgrade, announces_body, switches, IsParsed, unlisted, framed,
  announced, read_on,
}
use dusty.Llhttp.Http.{
  before_headers_complete, message_needs_eof, after_headers_complete, should_keep_alive,
  after_message_complete,
}

either_flag :
    (f : ℕ)
    → f < 1024
    → has f (bit_or f_chunked f_content_length) ≡ (has f f_chunked || has f f_content_length)
unfolding holds_below
either_flag f h =
    same_below (λ x. has x (bit_or f_chunked f_content_length))
      (λ x. has x f_chunked || has x f_content_length) 1024 f refl h

-- The statuses that are tested one by one are the statuses without a body, but for the unlisted ones.
bodiless_tests :
    (s : ℕ)
    → (ltb 103 s && ltb s 200) ≡ false
    → (s == 101) ≡ false
    → ((s == 100) || ((s == 102) || ((s == 103) || ((s == 204) || (s == 304))))) ≡ bodiless_status s
bodiless_tests s h n = ground arith

-- The unlisted statuses are interim, and none of those that are tested.
unlisted_tests :
    (s : ℕ)
    → (ltb 103 s && ltb s 200) ≡ true
    → ((s / 100 == 1) ≡ true)
      × ((s == 100) ≡ false)
      × ((s == 101) ≡ false)
      × (((s == 102) || ((s == 103) || ((s == 204) || (s == 304)))) ≡ false)
unlisted_tests s h = (ground (arith, h), ground (arith, h), ground (arith, h), ground (arith, h))

-- The parser that the callbacks behind the headers leave to the decision.
abbrev pub at_body : Parser → Parser
unfolding before_headers_complete
at_body p = (before_headers_complete p).1

abbrev first_test : Parser → Bool
first_test p =
    (p.upgrade && (p.method == http_connect || (has p.flags f_skipbody || not (announces_body p))))
    || (is_response p.kind && p.status_code == 101)

-- The decision behind its first test.
abbrev later_tests : Parser → ℕ
unfolding message_needs_eof
later_tests p =
    if is_response p.kind && p.status_code == 100
    then 0
    else if has p.flags f_skipbody
        || (is_response p.kind
            && (p.status_code == 102
                || (p.status_code == 103 || (p.status_code == 204 || p.status_code == 304))))
    then 0
    else if has p.flags f_chunked
    then 2
    else if has p.flags f_transfer_encoding
    then (if is_request p.kind
          && (not (has p.lenient_flags lenient_chunked_length)
              && not (has p.lenient_flags lenient_transfer_encoding))
        then 5
        else 4)
    else if not (has p.flags f_content_length)
    then (if not (message_needs_eof p) then 0 else 4)
    else if p.content_length == 0
    then 0
    else 3

by_tests : (p : Parser) → after_headers_complete p ≡ (if first_test p then 1 else later_tests p)
unfolding after_headers_complete later_tests
by_tests p = refl

abbrev upgraded : Parser → Bool
upgraded p =
    if asks_upgrade p then is_request p.kind || p.status_code == 101 else p.method == http_connect

at_body-upgraded : (p : Parser) → at_body p ≡ record p { upgrade = upgraded p }
unfolding at_body before_headers_complete
at_body-upgraded p = elim (Bool-cases (asks_upgrade p)) [
  | inl e ↦
      ap (λ (r : ℕ × Parser). r.1) (if_true _ _ _ e)
      ∙ ap (λ b. record p { upgrade = b }) (sym (if_true _ _ _ e))
  | inr e ↦
      ap (λ (r : ℕ × Parser). r.1) (if_false _ _ _ e)
      ∙ ap (λ b. record p { upgrade = b }) (sym (if_false _ _ _ e))
]

first_test-switches :
    (p : Parser) → IsParsed p → first_test (record p { upgrade = upgraded p }) ≡ switches p
first_test-switches p w =
    let r = w.request_or_response in
    let m = w.no_method in
    elim (Bool-cases (is_request p.kind)) [
      | inl e ↦ ground (arith, e, r)
      | inr e ↦ let n = m e in ground (arith, e, r, n)
    ]

decision :
    (p : Parser)
    → IsParsed p
    → after_headers_complete (at_body p) ≡ (if switches p then 1 else later_tests p)
unfolding later_tests
decision p w =
    ap after_headers_complete (at_body-upgraded p)
    ∙ by_tests (record p { upgrade = upgraded p })
    ∙ ap (λ b. if b then 1 else later_tests p) (first_test-switches p w)

later_tests-request :
    (p : Parser)
    → IsParsed p
    → is_request p.kind ≡ true
    → switches p ≡ false
    → later_tests p ≡ code (framed p)
unfolding framed later_tests message_needs_eof
later_tests-request p w q n =
    let r = w.request_or_response in let c = w.chunked in ground (arith, r, c, q, n)

later_tests-unlisted :
    (p : Parser) → IsParsed p → unlisted p ≡ true → later_tests p ≡ code (announced p)
unfolding announced later_tests message_needs_eof
later_tests-unlisted p w u =
    let e = either_flag p.flags w.flags in
    let r = w.request_or_response in
    let c = w.chunked in
    let (a, b, d, f) = unlisted_tests p.status_code (ground (arith, u)) in
    ground (arith, u, e, r, c, a, b, d, f)

later_tests-response :
    (p : Parser)
    → IsParsed p
    → is_request p.kind ≡ false
    → unlisted p ≡ false
    → switches p ≡ false
    → later_tests p ≡ code (framed p)
unfolding framed later_tests message_needs_eof
later_tests-response p w q u n =
    let e = either_flag p.flags w.flags in
    let r = w.request_or_response in
    let c = w.chunked in
    let t = bodiless_tests p.status_code (ground (arith, u, r, q)) (ground (arith, n, q)) in
    ground (arith, e, r, c, q, t, n)

framed-switches : (p : Parser) → switches p ≡ true → code (framed p) ≡ 1
unfolding framed
framed-switches p s = ap code (if_true _ _ _ s)

-- For a parsed head (of a request or a response, with flags below 1024, CONNECT in requests alone,
-- and the chunked coding only as a transfer coding), that switches protocols or not, and is read
-- leniently or not, what the callback before the body and then `llhttp__after_headers_complete`
-- decide is the case of RFC 7230, section 3.3.3, with a request's unknown coding read on when one
-- of the flags lenient_chunked_length and lenient_transfer_encoding is set, but for responses with
-- a status from 104 to 199: to them the RFC gives no body, and the decision gives them the body
-- that their fields announce, and none when they announce none.
pub after_headers_complete-framed :
    (p : Parser)
    → IsParsed p
    → after_headers_complete (at_body p) ≡ code (if unlisted p then announced p else framed p)
after_headers_complete-framed p w = elim (Bool-cases (switches p)) [
  | inl s ↦
      let r = w.request_or_response in
      decision p w
      ∙ if_true _ _ _ s
      ∙ sym (framed-switches p s)
      ∙ ap code (sym (if_false (unlisted p) (announced p) (framed p) (ground (arith, s, r))))
  | inr s ↦ decision p w ∙ if_false _ _ _ s ∙ elim (Bool-cases (unlisted p)) [
    | inl u ↦ later_tests-unlisted p w u ∙ ap code (sym (if_true _ _ _ u))
    | inr u ↦ elim (Bool-cases (is_request p.kind)) [
      | inl q ↦ later_tests-request p w q s ∙ ap code (sym (if_false _ _ _ u))
      | inr q ↦ later_tests-response p w q u s ∙ ap code (sym (if_false _ _ _ u))
    ]
  ]
]

message_needs_eof-at_body : (p : Parser) → message_needs_eof (at_body p) ≡ message_needs_eof p
unfolding message_needs_eof
message_needs_eof-at_body p = ap message_needs_eof (at_body-upgraded p)

later_tests-until_close :
    (p : Parser)
    → IsParsed p
    → switches p ≡ false
    → (later_tests p ≡ 4) ↔ ((message_needs_eof p || read_on p) ≡ true)
unfolding later_tests message_needs_eof
later_tests-until_close p w n =
    let e = either_flag p.flags w.flags in
    let r = w.request_or_response in
    let c = w.chunked in
    elim (Bool-cases (is_request p.kind)) [
      | inl q ↦ ground (arith, r, c, q, n)
      | inr q ↦ elim (Bool-cases (unlisted p)) [
        | inl u ↦
            let (a, b, d, f) = unlisted_tests p.status_code (ground (arith, u)) in
            ground (arith, u, e, r, c, q, a, b, d, f)
        | inr u ↦
            let t = bodiless_tests p.status_code (ground (arith, u, r, q)) (ground (arith, n, q)) in
            ground (arith, e, r, c, q, t, n, u)
      ]
    ]

-- For a parsed head (of a request or a response, with flags below 1024, CONNECT in requests alone,
-- and the chunked coding only as a transfer coding), the body is read until the connection closes
-- exactly when no other protocol follows and `llhttp_message_needs_eof` says that the message needs
-- it or the message is one of those that are read on: with a transfer coding that is not chunked,
-- without the flag to skip the body, and either a response with a status from 104 to 199, or a
-- request read with the flag lenient_chunked_length or lenient_transfer_encoding.
pub until_close-needs_eof :
    (p : Parser)
    → IsParsed p
    → (after_headers_complete (at_body p) ≡ 4)
      ↔ ((switches p ≡ false) × ((message_needs_eof (at_body p) || read_on p) ≡ true))
until_close-needs_eof p w =
    let d = decision p w in
    let same = message_needs_eof-at_body p in
    elim (Bool-cases (switches p)) [
      | inl s ↦
          let one = d ∙ if_true _ _ _ s in
          (λ h. absurd (ground (arith, h, one)), λ h. absurd (ground (arith, h.0, s)))
      | inr s ↦
          let later = d ∙ if_false _ _ _ s in
          let (there, back) = later_tests-until_close p w s in
          (
            λ h. (s, ap (λ b. b || read_on p) same ∙ there (sym later ∙ h)),
            λ h. later ∙ back (ap (λ b. b || read_on p) (sym same) ∙ h.1),
          )
    ]

-- A connection whose close ends the body is not kept: for a parsed head (of a request or a
-- response, with flags below 1024, CONNECT in requests alone, and the chunked coding only as a
-- transfer coding) whose body is read until the connection closes, `llhttp_should_keep_alive` is
-- false behind the headers, and so is what `llhttp__after_message_complete` returns, unless the
-- message has a transfer coding that is not chunked, no flag to skip the body, and is a response
-- with a status from 104 to 199 or a request read with the flag lenient_chunked_length or
-- lenient_transfer_encoding.
pub until_close-not_kept :
    (p : Parser)
    → IsParsed p
    → read_on p ≡ false
    → after_headers_complete (at_body p) ≡ 4
    → (should_keep_alive (at_body p) ≡ false) × ((after_message_complete (at_body p)).0 ≡ false)
unfolding should_keep_alive after_message_complete
until_close-not_kept p w l h =
    let n : message_needs_eof (at_body p) ≡ true =
      let m = ((until_close-needs_eof p w).0 h).1 in ground (arith, m, l) in
    let k : should_keep_alive (at_body p) ≡ false = ground (arith, n) in (k, k)
