-- ===== src/Client/Examples.antt =====
-- Connections, redirects and requests at concrete values.
use dusty.Base.{
  ℕ, ◌&&◌, not, ◌+◌, ◌*◌, ◌-◌, ◌≤◌, ◌≡◌, ◌⊎◌, ◌↔◌, refl, max, true, false, List, [], ◌∷◌, All,
  Option, none, some, arith, length, lowered, eql_ignore_case, split_scalar, codes,
}
use dusty.Cookie.{starts_with, any_byte, one_of}
use dusty.Response.{all_tchars, validate_header_name, validate_header_value}
use dusty.Client.{Protocol, http, https, Connection, Target, init, matches}
use dusty.Client.Pool.{ConnectionPool, search, acquire, release}
use dusty.Client.Pool.Recent.{IsSearch, is_fresh, acquire-IsSearch, acquire-release}
use dusty.Client.Pool.Steps.{
  World, start, Steps, none_taken, one_more, opened, acquired, released, IsSound,
}
use dusty.Client.Pool.Sound.{IsSound-Steps}
use dusty.Client.Exchange.{
  Exchange, refused, drain_failed, given_back, fate, is_dirty, is_redirect, is_refused, got_answer,
  is_dirty-fate,
}
use dusty.Client.KeepAlive.{
  Answer, trim_front, trim_back, read_parts, parse_keep_alive_header, note_answer,
}
use dusty.Client.KeepAlive.Limit.{requests, requests-max}
use dusty.Client.Redirect.{
  Fields, Uri, get, other_method, FetchOptions, FetchState, fetch, field_value, follow, follow_all,
  is_domain_or_subdomain,
}
use dusty.Client.Redirect.Domain.{IsBelow, is_domain_or_subdomain_iff}
use dusty.Client.Redirect.Secret.{has_sensitive, StaysIn, KeepsTls, follow_all-has_sensitive}
use dusty.Client.Write.{named, skipped, user_fields, has_named, later_fields, request_fields}
use dusty.Client.Write.Sent.{IsPlain}
use dusty.Client.Write.Plain.{times_named, request_fields-IsPlain}

abbrev target : Target
target = record { to_host = codes "example.com"; to_port = 80; by = http; socket = none }

abbrev connection : ℕ → Option ℕ → Connection
connection id deadline = record {
  id = id;
  protocol = http;
  host = codes "Example.com";
  port = 80;
  unix_path = [];
  closing = false;
  request_count = 1;
  keep_alive = record { timeout = none; max = none };
  idle_deadline = deadline;
}

abbrev elsewhere : Connection
elsewhere = record (connection 2 none) { host = codes "example.org" }

-- From the last: an expired one, one of another host, and two that fit.
abbrev pool : ConnectionPool
pool = record {
  idle = connection 3 (some 5) ∷ elsewhere ∷ connection 1 (some 50) ∷ connection 0 none ∷ [];
  idle_len = 4;
  max_idle = 8;
}

second_taken : acquire target 10 pool ≡ (
  some (connection 1 (some 50)),
  record pool { idle = elsewhere ∷ connection 0 none ∷ []; idle_len = 2 },
  connection 3 (some 5) ∷ [],
)
unfolding acquire search matches eql_ignore_case
second_taken = refl

acquire-IsSearch_example :
    IsSearch target 10
      (pool.idle)
      ((acquire target 10 pool).0, (acquire target 10 pool).1.idle, (acquire target 10 pool).2)
acquire-IsSearch_example = acquire-IsSearch target 10 pool

fits : is_fresh target 10 (connection 4 (some 20)) ≡ true
unfolding matches eql_ignore_case
fits = refl

acquire-release_example :
    acquire target 10 ((release true (connection 4 (some 20)) pool).0)
    ≡ (some (connection 4 (some 20)), pool, [])
acquire-release_example = acquire-release target 10 (connection 4 (some 20)) pool refl refl fits

-- A connection that is opened, used, released, and taken again by another task.
abbrev new : Connection
new = record (connection 0 none) { host = codes "example.com"; request_count = 0 }

abbrev idle_one : ConnectionPool
idle_one = record { idle = new ∷ []; idle_len = 1; max_idle = 1 }

abbrev reached : World
reached = record {
  pool = record { idle = []; idle_len = 0; max_idle = 1 };
  in_use = new ∷ [];
  closed = [];
  next_id = 1;
}

steps : Steps (start 1) reached
unfolding acquire search matches release init eql_ignore_case
steps =
    one_more
      (one_more (one_more none_taken (opened {conn = new} target 0 refl refl))
        (released {pool = idle_one} {gone = []} [] [] new true refl refl))
      (acquired target 9 refl)

IsSound-Steps_example : IsSound reached
IsSound-Steps_example = IsSound-Steps 1 reached steps

-- Digits, none for another byte.
read_digits : ℕ → List ℕ → Option ℕ
read_digits n [] = some n
read_digits n (b ∷ bs) = read_digits (10 * n + (b - b'0')) bs

abbrev parse_int : List ℕ → Option ℕ
unfolding read_digits
parse_int [] = none
parse_int (b ∷ bs) = read_digits 0 (b ∷ bs)

abbrev answered : Option (List ℕ) → Answer
answered header = record {
  body_complete = true;
  should_keep_alive = true;
  keep_alive_header = header;
}

announced : (parse_keep_alive_header parse_int (codes "timeout=5, max=2")).max ≡ some 2
unfolding parse_keep_alive_header read_parts trim_front trim_back split_scalar starts_with parse_int
announced = refl

abbrev answers : List (ℕ × Answer)
answers = (1000, answered none) ∷ (2000, answered none) ∷ []

requests-max_example :
    requests parse_int ((0, answered (some (codes "timeout=5, max=2"))) ∷ answers) new ≤ max 1 2
requests-max_example =
    requests-max parse_int 2 0 (answered (some (codes "timeout=5, max=2"))) answers
      (codes "timeout=5, max=2") new (omega arith) refl refl announced

-- The second answer closes the connection.
two_requests :
    requests parse_int ((0, answered (some (codes "timeout=5, max=2"))) ∷ answers) new ≡ 2
unfolding requests note_answer parse_keep_alive_header read_parts trim_front trim_back split_scalar
    starts_with parse_int
two_requests = refl

abbrev site : List ℕ → Protocol → Uri
site name by = record {
  host = name;
  port = 443;
  protocol = by;
  target = codes "/";
  written = some (codes "https://example.com/");
}

abbrev first_uri : Uri
first_uri = site (codes "example.com") https

abbrev options : FetchOptions
options = record {
  method = other_method (codes "POST");
  headers =
      (codes "authorization", codes "Basic x")
      ∷ (codes "host", codes "evil")
      ∷ (codes "Content-Type", codes "text/plain")
      ∷ [];
  body = some (codes "abc");
  decompress = true;
}

below : is_domain_or_subdomain (codes "api.example.com") (codes "example.com") ≡ true
unfolding is_domain_or_subdomain eql_ignore_case any_byte one_of
below = refl

not_below : is_domain_or_subdomain (codes "evilexample.com") (codes "example.com") ≡ false
unfolding is_domain_or_subdomain eql_ignore_case any_byte one_of
not_below = refl

is_domain_or_subdomain_iff_example :
    (is_domain_or_subdomain (codes "api.example.com") (codes "example.com") ≡ true) ↔ (
      (lowered (codes "api.example.com") ≡ lowered (codes "example.com"))
      ⊎ IsBelow (codes "api.example.com") (codes "example.com"))
is_domain_or_subdomain_iff_example =
    is_domain_or_subdomain_iff (codes "api.example.com") (codes "example.com")

abbrev redirects : List (ℕ × Uri)
redirects = (307, site (codes "api.example.com") https) ∷ (302, first_uri) ∷ []

abbrev last_state : FetchState
last_state = record {
  uri = first_uri;
  options = record options { method = get; body = none };
  redirects_remaining = 8;
  initial_host = codes "example.com";
  strip_sensitive_headers = false;
  strip_body_headers = true;
  referer = some (codes "https://example.com/");
}

followed : follow_all redirects (fetch first_uri options 10) ≡ some last_state
unfolding follow_all follow field_value is_domain_or_subdomain eql_ignore_case any_byte one_of
followed = refl

abbrev last_fields : Fields
last_fields =
    (codes "Host", codes "example.com")
    ∷ (codes "authorization", codes "Basic x")
    ∷ (codes "Referer", codes "https://example.com/")
    ∷ (codes "User-Agent", codes "dusty/0.1.0")
    ∷ (codes "Accept-Encoding", codes "gzip, deflate")
    ∷ []

last_written : request_fields (some (codes "dusty/0.1.0")) last_state ≡ some last_fields
unfolding request_fields later_fields user_fields skipped named has_named eql_ignore_case
    validate_header_name all_tchars validate_header_value
last_written = refl

carried : has_sensitive last_fields ≡ true
unfolding has_sensitive named eql_ignore_case
carried = refl

follow_all-has_sensitive_example :
    StaysIn (codes "example.com") redirects × KeepsTls https redirects × (length redirects ≤ 10)
follow_all-has_sensitive_example =
    follow_all-has_sensitive first_uri options 10 b'e' (codes "xample.com") redirects last_state
      (some (codes "dusty/0.1.0")) last_fields refl followed last_written carried

request_fields-IsPlain_example :
    All IsPlain last_fields
    × (times_named (codes "Host") last_fields ≡ 1)
    × (times_named (codes "Content-Length") last_fields ≡ 0)
request_fields-IsPlain_example =
    request_fields-IsPlain (some (codes "dusty/0.1.0")) last_state last_fields last_written

-- A hop to another host takes the credentials off, and they stay off.
taken_off :
    (follow 302 first_uri (
      follow 302
        (site (codes "example.org") https)
        (fetch first_uri options 10))).strip_sensitive_headers
    ≡ true
unfolding follow is_domain_or_subdomain eql_ignore_case any_byte one_of
taken_off = refl

-- A redirect to another scheme, with a body that is still to come.
abbrev unread_redirect : Exchange
unread_redirect = record {
  is_http_2 = false;
  write_ok = true;
  flush_ok = true;
  headers_ok = true;
  unknown_encoding = false;
  body_complete = false;
  status = 302;
  location = refused;
  drained = drain_failed;
  should_keep_alive = true;
}

given_back_unread : fate 10 unread_redirect ≡ given_back false false
unfolding fate
given_back_unread = refl

is_dirty-fate_example :
    is_dirty (fate 10 unread_redirect)
    ≡ (got_answer unread_redirect && (is_redirect 10 302 && (is_refused refused && not false)))
is_dirty-fate_example = is_dirty-fate 10 unread_redirect
